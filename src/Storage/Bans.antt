-- ===== src/Storage/Bans.antt =====
-- The bans of `MemoryStorage`: what a ban does, and that clearing out old bans is not seen.
use limiteron.Common.{
  true, false, ℕ, ◌≤◌, ◌≡◌, ◌≢◌, ◌∙◌, ap, sym, refl, Option, none, some, arith, if◌then◌else◌,
  lookup, insert, lookup-remove, lookup-insert_self, lookup-insert_ne, lookup-remove_self,
  lookup-remove_ne,
}
use limiteron.Storage.Interface.{stored, BanTarget, BanTarget_key, target_beq_iff, BanRecord}
use limiteron.Storage.Memory.{
  MemoryStorage, is_active, is_banned, is_stale, save, remove_ban, get_history, after_lookup,
}

-- The ban that holds for a target, by its record alone.
abbrev pub in_force : ℕ → Option BanRecord → Option BanRecord
in_force now none = none
in_force now (some r) = if is_active now r then some r else none

pub is_banned-in_force :
    (now : ℕ) (t : BanTarget) (s : MemoryStorage)
    → (is_banned now t s).1 ≡ stored (in_force now (lookup t s.bans))
unfolding is_banned
is_banned-in_force now t s = ground arith

abbrev unless_stale : ℕ → Option BanRecord → Option BanRecord
unless_stale now none = none
unless_stale now (some r) = if is_stale now r then none else some r

pub asked-answer :
    (now later : ℕ) (t u : BanTarget) (s : MemoryStorage)
    → now ≤ later
    → (is_banned later u (is_banned now t s).0).1 ≡ (is_banned later u s).1
unfolding is_banned
asked-answer now later t u s h =
    ground (arith, lookup-remove t u s.bans, target_beq_iff t u, target_beq_iff u t)

pub saved-in_force :
    (now : ℕ) (r : BanRecord) (s : MemoryStorage)
    → (is_banned now r.target (save r s).0).1 ≡ stored (in_force now (some r))
unfolding save
saved-in_force now r s =
    is_banned-in_force now r.target _
    ∙ ap (λ o. stored (in_force now o)) (lookup-insert_self r.target r s.bans)

-- A saved ban is what its target gets, as long as it is manual or not over, and its count of bans
-- is the target's history; no other target is touched. A removed ban is gone at once, but its
-- history stays.
pub saved_then_removed :
    (now : ℕ) (r : BanRecord) (u : BanTarget) (s : MemoryStorage)
    → u ≢ r.target
    → let kept = (save r s).0 in
      let freed = (remove_ban r.target kept).0 in
      ((is_banned now r.target kept).1 ≡ stored (in_force now (some r)))
      × ((get_history r.target kept).1
          ≡ stored (some (record { ban_times = r.ban_times; last_banned_at = r.banned_at })))
      × ((is_banned now u kept).1 ≡ (is_banned now u s).1)
      × ((is_banned now r.target freed).1 ≡ stored none)
      × ((get_history r.target freed).1 ≡ (get_history r.target kept).1)
      × ((is_banned now u freed).1 ≡ (is_banned now u s).1)
unfolding save remove_ban get_history
saved_then_removed now r u s h =
    let kept = insert r.target r s.bans in
    let at_kept = lookup-insert_self r.target r s.bans in
    let at_freed = lookup-remove_self r.target kept in
    (
      is_banned-in_force now r.target _ ∙ ap (λ o. stored (in_force now o)) at_kept,
      ap stored (lookup-insert_self r.target _ s.history),
      is_banned-in_force now u _
          ∙ ap (λ o. stored (in_force now o)) (lookup-insert_ne r.target u r s.bans h)
          ∙ sym (is_banned-in_force now u s),
      is_banned-in_force now r.target _ ∙ ap (λ o. stored (in_force now o)) at_freed,
      refl,
      is_banned-in_force now u _
          ∙ ap (λ o. stored (in_force now o))
              (lookup-remove_ne r.target u kept h ∙ lookup-insert_ne r.target u r s.bans h)
          ∙ sym (is_banned-in_force now u s),
    )

-- A question lets go of the entry between its copy of the record and the removal. So where it copied a
-- record that is out of date, a ban of the target that is saved in between is lost although it is in
-- force: nobody finds it then or later, while its history is kept.
pub late_removal_lifts_ban :
    (now later : ℕ) (old r : BanRecord) (s : MemoryStorage)
    → lookup r.target s.bans ≡ some old
    → is_active now old ≡ false
    → is_active later r ≡ true
    → let kept = (save r s).0 in
      let after = (after_lookup now r.target (lookup r.target s.bans) kept).0 in
      ((is_banned later r.target kept).1 ≡ stored (some r))
      × ((is_banned later r.target after).1 ≡ stored none)
      × ((get_history r.target after).1
          ≡ stored (some (record { ban_times = r.ban_times; last_banned_at = r.banned_at })))
unfolding after_lookup
late_removal_lifts_ban now later old r s found over active =
    let gone = lookup-remove_self r.target (save r s).0.bans in
    rw (found, over)
      (
        saved-in_force later r s ∙ rw active refl,
        is_banned-in_force later r.target _ ∙ ap (λ o. stored (in_force later o)) gone,
        unfold save get_history in ap stored (lookup-insert_self r.target _ s.history),
      )
