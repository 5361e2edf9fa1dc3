-- ===== src/Limiters/Quota/Budget.antt =====
-- How much a key is granted in its window, whatever other keys do.
use limiteron.Common.{
  ℕ, ◌+◌, ◌-◌, ◌≤◌, ◌<◌, ◌≡◌, ◌≢◌, ◌∙◌, ap, sym, min, Bool, List, [], ◌∷◌, some, arith, All,
  if◌then◌else◌, leb, u64_mod, add_u64, Text, Text_key, text_beq_iff, ◌==◌, lookup,
  lookup-insert_self, lookup-insert_ne, Bool-cases, inl, inr,
}
use mathlib.Core.Path.{subst}
use limiteron.Errors.{Result, ok, err, panic}
use limiteron.Limiters.Quota.{
  QuotaRecord, QuotaLimiter, window_duration, max_usage, current_record, check_and_consume,
}

abbrev is_granted : Result Bool → ℕ
is_granted (ok b) = 1
is_granted (err e) = 0
is_granted panic = 0

-- How many of the calls, one after the other, are granted to a key, and how many are for it.
unfoldable pub granted_to : Text → List (ℕ × Text) → QuotaLimiter → ℕ
granted_to key [] l = 0
granted_to key (call ∷ rest) l =
    let (l', r) = check_and_consume call.0 call.1 l in
    (if call.1 == key then is_granted r else 0) + granted_to key rest l'

abbrev pub asked_for : Text → List (ℕ × Text) → ℕ
asked_for key [] = 0
asked_for key (call ∷ rest) = (if call.1 == key then 1 else 0) + asked_for key rest

other_key :
    (now : ℕ) (k key : Text) (l : QuotaLimiter)
    → key ≢ k
    → (lookup key (check_and_consume now k l).0.usage ≡ lookup key l.usage)
      × ((check_and_consume now k l).0.config ≡ l.config)
unfolding check_and_consume
other_key now k key l h =
    let r = current_record now l.config (lookup k l.usage) in
    ground (
      arith,
      lookup-insert_ne k key r l.usage h,
      lookup-insert_ne k key (record { usage = add_u64 r.usage 1; window_start = r.window_start })
          l.usage h,
    )

current_record-open :
    (now : ℕ) (l : QuotaLimiter) (r : QuotaRecord)
    → now - r.window_start < window_duration l.config
    → current_record now l.config (some r) ≡ r
unfolding current_record
current_record-open now l r h = ground arith

spent :
    (now : ℕ) (key : Text) (l : QuotaLimiter) (r : QuotaRecord)
    → lookup key l.usage ≡ some r
    → now - r.window_start < window_duration l.config
    → max_usage l.config ≤ r.usage
    → (lookup key (check_and_consume now key l).0.usage ≡ some r)
      × ((check_and_consume now key l).0.config ≡ l.config)
      × (is_granted (check_and_consume now key l).1 ≡ 0)
unfolding check_and_consume
spent now key l r e w h =
    let same : current_record now l.config (lookup key l.usage) ≡ r =
      ap (current_record now l.config) e ∙ current_record-open now l r w in
    ground (arith, same, lookup-insert_self key r l.usage)

left :
    (now : ℕ) (key : Text) (l : QuotaLimiter) (r : QuotaRecord)
    → lookup key l.usage ≡ some r
    → now - r.window_start < window_duration l.config
    → r.usage < max_usage l.config
    → max_usage l.config < u64_mod
    → (lookup key (check_and_consume now key l).0.usage
        ≡ some (record { usage = r.usage + 1; window_start = r.window_start }))
      × ((check_and_consume now key l).0.config ≡ l.config)
      × (is_granted (check_and_consume now key l).1 ≡ 1)
unfolding check_and_consume
left now key l r e w h f =
    let same : current_record now l.config (lookup key l.usage) ≡ r =
      ap (current_record now l.config) e ∙ current_record-open now l r w in
    let exact : add_u64 r.usage 1 ≡ r.usage + 1 = omega arith in
    ground (
      arith,
      same,
      exact,
      lookup-insert_self key (record { usage = r.usage + 1; window_start = r.window_start })
          l.usage,
    )

-- One call, for this key or another: the window of the key stays, and its usage grows by what the
-- key is granted, which is one until the limit is reached.
step :
    (now : ℕ) (k key : Text) (l : QuotaLimiter) (r : QuotaRecord)
    → lookup key l.usage ≡ some r
    → now - r.window_start < window_duration l.config
    → r.usage ≤ max_usage l.config
    → max_usage l.config < u64_mod
    → let (l', answer) = check_and_consume now k l in
      let granted = if k == key then is_granted answer else 0 in
      (lookup key l'.usage
        ≡ some (record { usage = r.usage + granted; window_start = r.window_start }))
      × (l'.config ≡ l.config)
      × (granted ≡ min (if k == key then 1 else 0) (max_usage l.config - r.usage))
step now k key l r e w h f =
    let plain : r.usage ≡ r.usage + 0 = omega arith in
    let unchanged : some r ≡ some (record { usage = r.usage + 0; window_start = r.window_start }) =
      ap (λ (n : ℕ). some (record r { usage = n })) plain in
    elim (Bool-cases (k == key)) [
      | inr differs ↦
          let (kept, config) = other_key now k key l (ground (arith, text_beq_iff k key)) in
          rw differs (kept ∙ e ∙ unchanged, config, omega arith)
      | inl same ↦
          let k_key : k ≡ key = (text_beq_iff k key).0 same in
          rw same (
            rw k_key (elim (Bool-cases (leb (max_usage l.config) r.usage)) [
              | inl full ↦
                  let (kept, config, none_granted) = spent now key l r e w (ground arith) in
                  rw none_granted (kept ∙ unchanged, config, ground arith)
              | inr free ↦
                  let (kept, config, one) = left now key l r e w (ground arith) f in
                  rw one (kept, config, ground arith)
            ]))
    ]

-- In a key's window, whatever calls of other keys come between, the key is granted each call that it
-- asks for until its usage is at the limit (with the overdraft, if it is on), and none after that.
pub granted_to-asked_for :
    (key : Text) (calls : List (ℕ × Text)) (l : QuotaLimiter) (r : QuotaRecord)
    → lookup key l.usage ≡ some r
    → r.usage ≤ max_usage l.config
    → max_usage l.config < u64_mod
    → All (λ (call : ℕ × Text). call.0 - r.window_start < window_duration l.config) calls
    → granted_to key calls l ≡ min (asked_for key calls) (max_usage l.config - r.usage)
unfolding granted_to
granted_to-asked_for key [] l r e h f a = omega arith
granted_to-asked_for key ((now, k) ∷ rest) l r e h f (w, a) =
    let (kept, config, granted) = step now k key l r e w h f in
    let l' = (check_and_consume now k l).0 in
    let g = if k == key then is_granted (check_and_consume now k l).1 else 0 in
    let max_same : max_usage l'.config ≡ max_usage l.config = ap max_usage config in
    let ih =
      granted_to-asked_for key rest l'
        (record { usage = r.usage + g; window_start = r.window_start }) kept
        (omega (arith, granted, max_same)) (omega (arith, max_same))
        (subst (λ c. All (λ (call : ℕ × Text). call.0 - r.window_start < window_duration c) rest)
          (sym config) a) in
    omega (arith, granted, max_same, ih)
