-- ===== src/QuotaController/Consume.antt =====
-- `consume`, over any storage and over `MemoryStorage`.
use native.Mathlib.Decide.{dec_lt, dec_le}
use limiteron.Common.{
  ℕ, ◌+◌, ◌-◌, ◌≤◌, ◌<◌, ◌≡◌, ◌↔◌, ◌∙◌, ap, sym, refl, Bool, true, false, Option, none, some, arith,
  ltb, if◌then◌else◌, u64_mod, saturating_sub, Text, Text_key, lookup, Bool-cases, inl, inr, List,
  [], ◌∷◌, ◌%◌,
}
use limiteron.Common.Float.{Float}
use limiteron.Errors.{ConsumeResult, ok}
use limiteron.Storage.Interface.{Stored, stored, QuotaInfo, QuotaStorage}
use limiteron.Storage.Memory.{MemoryStorage, QuotaEntry, quota_key, memory_quotas, max_chrono_nanos}
use limiteron.Storage.Memory as Memory
use limiteron.Storage.Quotas.{used, used_of, consume_lem}
use limiteron.QuotaController.{
  QuotaConfig, QuotaState, QuotaController, M, total_limit, seconds, check_and_trigger_alert,
  check_and_reset_window, get_quota, get_or_create_quota_state, save_quota_state, consume_in,
  consume, ◌>>=◌, pure, alert_each, usage_percent,
}
use limiteron.QuotaController.Limits.{window_reset}

alert_each-storage :
    {S : Type 0} (now : ℕ) (user_id resource : Text) (consumed percent : ℕ) (ts : List ℕ)
    (triggered : Bool) (c : QuotaController S)
    → (alert_each now user_id resource consumed percent ts triggered c).0.storage ≡ c.storage
unfolding alert_each
alert_each-storage now user_id resource consumed percent [] triggered c = refl
alert_each-storage now user_id resource consumed percent (t ∷ ts) triggered c =
    alert_each-storage now user_id resource consumed percent ts _ _ ∙ ground arith

bind-ok :
    {S A B : Type 0} (m : M S A) (f : A → M S B) (c c' : QuotaController S) (a : A)
    → m c ≡ (c', ok a)
    → (m >>= f) c ≡ f a c'
bind-ok m f c c' a e = ground arith

not_ltb : (a b : ℕ) → b ≤ a → ltb a b ≡ false
not_ltb a b h = ground arith

-- What `get_or_create_quota_state` makes of the storage's answer.
abbrev state_of : ℕ → QuotaConfig → Option QuotaInfo → QuotaState
state_of now config none = record {
  consumed = 0;
  window_start = now;
  window_end = now + seconds config.window_size;
}
state_of now config (some i) = record {
  consumed = i.consumed;
  window_start = i.window_start;
  window_end = i.window_end;
}

module _ (fl : Float) {S : Type 0} where
  alerts-answer :
      (now : ℕ) (user_id resource : Text) (consumed : ℕ) (c : QuotaController S)
      → (d : QuotaController S) × (triggered : Bool) × (check_and_trigger_alert fl now user_id
            resource consumed c
          ≡ (d, ok triggered))
        × (d.storage ≡ c.storage)
  unfolding check_and_trigger_alert
  alerts-answer now user_id resource consumed c = elim (Bool-cases c.config.alert_config.enabled) [
    | inr off ↦ (c, false, rw off, refl)
    | inl on ↦
        let percent = usage_percent fl consumed c.config.limit in
        let ts = c.config.alert_config.thresholds in
        let (d, triggered) = alert_each now user_id resource consumed percent ts false c in
        (d, triggered, rw on, alert_each-storage now user_id resource consumed percent ts false c)
  ]

  module _ (st : QuotaStorage S) where
    consume_in_refuses :
        (now : ℕ) (user_id resource : Text) (cost : ℕ) (state : QuotaState) (c : QuotaController S)
        → state.consumed + cost < u64_mod
        → total_limit c.config < state.consumed + cost
        → (x : ConsumeResult) × (consume_in fl st now user_id resource cost state c ≡ (c, ok x))
          × (x.allowed ≡ false)
    unfolding consume_in
    consume_in_refuses now user_id resource cost state c f h = (
      record {
        allowed = false;
        remaining = total_limit c.config - state.consumed;
        alert_triggered = false;
      },
      ground arith,
      refl,
    )

    saved-eq :
        (now : ℕ) (user_id resource : Text) (cost n : ℕ) (state : QuotaState)
        (c : QuotaController S) (s' : S) (r : ConsumeResult)
        → n - state.consumed ≡ cost
        → st.consume now user_id resource cost
            (total_limit c.config)
            (seconds c.config.window_size)
            c.storage
          ≡ (s', stored r)
        → save_quota_state fl st now user_id resource state n c ≡ (record c { storage = s' }, ok tt)
    unfolding save_quota_state
    saved-eq now user_id resource cost n state c s' r added e = ground arith

    -- `_result` is any answer of the storage.
    consume_in_grants :
        (now : ℕ) (user_id resource : Text) (cost : ℕ) (state : QuotaState) (c : QuotaController S)
        (s' : S) (r : ConsumeResult)
        → state.consumed + cost < u64_mod
        → state.consumed + cost ≤ total_limit c.config
        → st.consume now user_id resource cost
            (total_limit c.config)
            (seconds c.config.window_size)
            c.storage
          ≡ (s', stored r)
        → (d : QuotaController S) × (x : ConsumeResult) × (consume_in fl st now user_id resource
              cost state c
            ≡ (d, ok x))
          × (x.allowed ≡ true)
          × (d.storage ≡ s')
    unfolding consume_in
    consume_in_grants now user_id resource cost state c s' r f h e =
        let n = state.consumed + cost in
        let exact : n % u64_mod ≡ n = omega arith in
        let added : n - state.consumed ≡ cost = omega arith in
        let saved : QuotaController S = record c { storage = s' } in
        let (d, triggered, alerted, same) = alerts-answer now user_id resource n saved in
        let answer : Bool → M S ConsumeResult = λ t. pure (record {
          allowed = true;
          remaining = saturating_sub (total_limit c.config) n;
          alert_triggered = t;
        }) in
        let after_saved : Unit {0} → M S ConsumeResult =
          λ u. check_and_trigger_alert fl now user_id resource n >>= answer in
        let save_first : M S (Unit {0}) = save_quota_state fl st now user_id resource state n in
        let alert : M S Bool = check_and_trigger_alert fl now user_id resource n in
        (
          d,
          record {
            allowed = true;
            remaining = saturating_sub (total_limit c.config) n;
            alert_triggered = triggered;
          },
          rw (exact, not_ltb _ n h)
              (bind-ok save_first after_saved c saved tt
                  (saved-eq now user_id resource cost n state c s' r added e)
                ∙ bind-ok alert answer saved d triggered alerted),
          refl,
          same,
        )

    created-eq :
        (now : ℕ) (user_id resource : Text) (c : QuotaController S) (o : Option QuotaInfo)
        → st.get_quota user_id resource c.storage ≡ (c.storage, stored o)
        → get_or_create_quota_state fl st now user_id resource c ≡ (c, ok (state_of now c.config o))
    unfolding get_or_create_quota_state get_quota
    created-eq now user_id resource c none e = ground arith
    created-eq now user_id resource c (some i) e = ground arith

    consume-consume_in :
        (now : ℕ) (user_id resource : Text) (cost : ℕ) (c : QuotaController S)
        (o : Option QuotaInfo) (state : QuotaState)
        → 0 < cost
        → st.get_quota user_id resource c.storage ≡ (c.storage, stored o)
        → check_and_reset_window fl now c.config (state_of now c.config o) ≡ ok state
        → consume fl st now user_id resource cost c
          ≡ consume_in fl st now user_id resource cost state c
    unfolding consume
    consume-consume_in now user_id resource cost c o state p e f =
        ground (arith, created-eq now user_id resource c o e)

    -- The storage's verdict is not looked at: where the state that was read leaves room, the call is
    -- granted whatever the storage then answers, be it a refusal because other calls came between.
    pub storage_verdict_ignored :
        (now : ℕ) (user_id resource : Text) (cost : ℕ) (c : QuotaController S) (i : QuotaInfo)
        (s' : S) (r : ConsumeResult)
        → 0 < cost
        → st.get_quota user_id resource c.storage ≡ (c.storage, stored (some i))
        → now < i.window_end
        → i.consumed + cost < u64_mod
        → i.consumed + cost ≤ total_limit c.config
        → st.consume now user_id resource cost
            (total_limit c.config)
            (seconds c.config.window_size)
            c.storage
          ≡ (s', stored r)
        → (d : QuotaController S) × (x : ConsumeResult) × (consume fl st now user_id resource cost c
            ≡ (d, ok x))
          × (x.allowed ≡ true)
          × (d.storage ≡ s')
    unfolding check_and_reset_window
    storage_verdict_ignored now user_id resource cost c i s' r p e w f h g =
        let state = state_of now c.config (some i) in
        let inside : check_and_reset_window fl now c.config state ≡ ok state = ground arith in
        let (d, x, answer, granted, at) =
          consume_in_grants now user_id resource cost state c s' r f h g in
        (
          d,
          x,
          consume-consume_in now user_id resource cost c (some i) state p e inside ∙ answer,
          granted,
          at,
        )

-- The entry of a quota that windows of `window` seconds have filled.
abbrev pub IsAligned : ℕ → ℕ → Option QuotaEntry → Type 0
IsAligned now window_size none = Unit {0}
IsAligned now window_size (some e) =
    (e.info.window_start ≤ now) × (e.info.window_end ≡ e.info.window_start + seconds window_size)

module _ (fl : Float) where
  -- The state that a call works on holds what counts against the quota.
  state-used :
      (now : ℕ) (config : QuotaConfig) (o : Option QuotaEntry)
      → 0 < config.window_size
      → IsAligned now config.window_size o
      → (state : QuotaState) × (check_and_reset_window fl now config
            (state_of now config (elim o [ none ↦ none | some e ↦ some e.info ]))
          ≡ ok state)
        × (state.consumed ≡ used_of now o)
  unfolding check_and_reset_window
  state-used now config none p a = (state_of now config none, ground arith, refl)
  state-used now config (some e) p (started, ends) = elim (dec_lt now e.info.window_end) [
    | yes inside ↦ (state_of now config (some e.info), ground arith, ground arith)
    | no outside ↦
        let (after, _, same, none_left, _, _, _, _, _) =
          window_reset fl now config (state_of now config (some e.info)) p ends (omega arith) in
        (after, same, none_left ∙ ground arith)
  ]

  memory-get_quota :
      (user_id resource : Text) (s : MemoryStorage)
      → memory_quotas.get_quota user_id resource s ≡ (
        s,
        stored (elim (lookup (quota_key user_id resource) s.quota_data) [
          | none ↦ none
          | some e ↦ some e.info
        ]),
      )
  unfolding Memory.get_quota
  memory-get_quota user_id resource s = ground arith

  -- Over `MemoryStorage`, a call that no other call comes into keeps the quota exactly: it is allowed
  -- if and only if what counts against the quota and the cost stay within the limit with its
  -- overdraft, an allowed cost is counted once, and a refused one not at all.
  pub consume-keeps_quota :
      (now : ℕ) (user_id resource : Text) (cost : ℕ) (c : QuotaController MemoryStorage)
      → 0 < cost
      → 0 < c.config.window_size
      → IsAligned now c.config.window_size
          (lookup (quota_key user_id resource) c.storage.quota_data)
      → used now user_id resource c.storage + cost < u64_mod
      → let before = used now user_id resource c.storage in
        (d : QuotaController MemoryStorage) × (x : ConsumeResult) × (consume fl memory_quotas now
            user_id resource cost c
          ≡ (d, ok x))
        × ((x.allowed ≡ true) ↔ (before + cost ≤ total_limit c.config))
        × (used now user_id resource d.storage ≡ (if x.allowed then before + cost else before))
  consume-keeps_quota now user_id resource cost c p w a f =
      let o = lookup (quota_key user_id resource) c.storage.quota_data in
      let total = total_limit c.config in
      let window = seconds c.config.window_size in
      let (state, ready, same) = state-used now c.config o w a in
      let inner =
        consume-consume_in fl memory_quotas now user_id resource cost c _ state p
          (memory-get_quota user_id resource c.storage) ready in
      elim (dec_le (used now user_id resource c.storage + cost) total) [
        | yes fits ↦
            let s' = (memory_quotas.consume now user_id resource cost total window c.storage).0 in
            let (r, stored_r, decides, counted, _, _) =
              consume_lem now user_id resource cost total window c.storage [] (omega arith) f
                (λ e. cc) in
            let (d, x, answer, granted, at) =
              consume_in_grants fl memory_quotas now user_id resource cost state c s' r
                (omega (arith, same)) (omega (arith, same))
                (ap (λ (v : Stored ConsumeResult). (s', v)) stored_r) in
            (
              d,
              x,
              inner ∙ answer,
              (λ t. fits, λ t. granted),
              ap (used now user_id resource) at
                  ∙ counted
                  ∙ ap
                      (λ (b : Bool).
                        if b
                        then used now user_id resource c.storage + cost
                        else used now user_id resource c.storage)
                      (decides.1 fits ∙ sym granted),
            )
        | no over ↦
            let (x, answer, refused) =
              consume_in_refuses fl memory_quotas now user_id resource cost state c
                (omega (arith, same)) (omega (arith, same)) in
            (c, x, inner ∙ answer, ground arith, ground arith)
      ]
