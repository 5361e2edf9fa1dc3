-- ===== src/Storage/Quotas.antt =====
-- The quotas of `MemoryStorage`.
use limiteron.Common.{
  ℕ, ◌+◌, ◌-◌, ◌≤◌, ◌<◌, ◌≡◌, ◌≢◌, ◌↔◌, ◌∙◌, ap, sym, refl, true, ◌++◌, Option, none, some, arith,
  leb, if◌then◌else◌, u64_mod, Text, Text_key, codes, lookup, insert, lookup-insert_self,
  lookup-insert_ne,
}
use mathlib.Core.List.{append_assoc}
use limiteron.Errors.{ConsumeResult}
use limiteron.Storage.Interface.{stored}
use limiteron.Storage.Memory.{
  MemoryStorage, QuotaEntry, quota_key, current_entry, charge, consume, get_quota,
}

-- What counts against the quota at `now`: nothing, if there is no window or it is over.
abbrev pub used_of : ℕ → Option QuotaEntry → ℕ
used_of now none = 0
used_of now (some e) = if leb e.info.window_end now then 0 else e.info.consumed

abbrev pub used : ℕ → Text → Text → MemoryStorage → ℕ
used now user_id resource s = used_of now (lookup (quota_key user_id resource) s.quota_data)

current_entry-used :
    (now limit window : ℕ) (o : Option QuotaEntry)
    → (current_entry now limit window o).info.consumed ≡ used_of now o
unfolding current_entry
current_entry-used now limit window o = ground arith

current_entry-open :
    (now limit window : ℕ) (o : Option QuotaEntry)
    → 0 < window
    → now < (current_entry now limit window o).info.window_end
unfolding current_entry
current_entry-open now limit window o h = ground arith

charge_lem :
    (cost limit : ℕ) (e : QuotaEntry)
    → e.info.consumed + cost < u64_mod
    → let (after, r) = charge cost limit e in
      ((r.allowed ≡ true) ↔ (e.info.consumed + cost ≤ limit))
      × (after.info.consumed ≡ (if r.allowed then e.info.consumed + cost else e.info.consumed))
      × (r.remaining ≡ limit - after.info.consumed)
      × (after.info.window_end ≡ e.info.window_end)
unfolding charge
charge_lem cost limit e h = ground arith

used_of-open :
    (now : ℕ) (e : QuotaEntry) → now < e.info.window_end → used_of now (some e) ≡ e.info.consumed
used_of-open now e h = ground arith

-- A cost is allowed exactly if it fits beside what counts at that time; it is then added, and a
-- refused one adds nothing. The rest of the answer says so, and no other key is touched.
pub consume_lem :
    (now : ℕ) (user_id resource : Text) (cost limit window : ℕ) (s : MemoryStorage) (key : Text)
    → 0 < window
    → used now user_id resource s + cost < u64_mod
    → key ≢ quota_key user_id resource
    → let before = used now user_id resource s in
      let after = (consume now user_id resource cost limit window s).0 in
      (r : ConsumeResult) × ((consume now user_id resource cost limit window s).1 ≡ stored r)
      × ((r.allowed ≡ true) ↔ (before + cost ≤ limit))
      × (used now user_id resource after ≡ (if r.allowed then before + cost else before))
      × (r.remaining ≡ limit - used now user_id resource after)
      × (lookup key after.quota_data ≡ lookup key s.quota_data)
unfolding consume
consume_lem now user_id resource cost limit window s key w f h =
    let k = quota_key user_id resource in
    let o = lookup k s.quota_data in
    let entry = current_entry now limit window o in
    let (after, r) = charge cost limit entry in
    let same = current_entry-used now limit window o in
    let c = charge_lem cost limit entry (omega (arith, same)) in
    let at_key = lookup-insert_self k after s.quota_data in
    let later : used_of now (lookup k (insert k after s.quota_data)) ≡ after.info.consumed =
      ap (used_of now) at_key
      ∙ used_of-open now after (omega (arith, c.3, current_entry-open now limit window o w)) in
    (
      r,
      refl,
      (λ h. omega (arith, c.0.0 h, same), λ h. c.0.1 (omega (arith, same))),
      later ∙ c.1 ∙ ap (λ (n : ℕ). if r.allowed then n + cost else n) same,
      c.2 ∙ ap (λ (n : ℕ). limit - n) (sym later),
      lookup-insert_ne k key after s.quota_data h,
    )

-- The key of a quota does not say where the user ends: a user `u:m` on a resource `r` has the same
-- quota as the user `u` on the resource `m:r`, so each pays for the other.
pub shared_quota :
    (now : ℕ) (u m r : Text) (cost limit window : ℕ) (s : MemoryStorage)
    → (consume now (u ++ (codes ":" ++ m)) r cost limit window s
        ≡ consume now u (m ++ (codes ":" ++ r)) cost limit window s)
      × (get_quota (u ++ (codes ":" ++ m)) r s ≡ get_quota u (m ++ (codes ":" ++ r)) s)
unfolding consume get_quota
shared_quota now u m r cost limit window s =
    let e = append_assoc u (codes ":" ++ m) (codes ":" ++ r) in (rw (e, consume), rw (e, get_quota))
