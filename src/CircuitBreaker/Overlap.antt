-- ===== src/CircuitBreaker/Overlap.antt =====
-- What threads do to each other between the accesses of `execute` and `reset`.
use limiteron.Common.{
  Bool-cases, Option-cases, inl, inr, leb, ℕ, zero, suc, ◌+◌, ◌-◌, ◌<◌, ◌≡◌, refl, List, [], ◌∷◌,
  none, some, arith, add_u64, u64_mod,
}
use limiteron.Errors.{closed, opened, half_open, Result, ok, CircuitState}
use limiteron.CircuitBreaker.{
  CircuitBreaker, Admission, proceed, reject, admit, settle, execute, reset,
}
use limiteron.CircuitBreaker.Trip.{Call, run, called}
use limiteron.CircuitBreaker.Threads.{
  Pc, move, count_call, add_call, rejected, running, failure_state, open_check, reset_state, done,
}

-- `n` accesses of one thread in a row.
abbrev pub run_moves {ℓ} :
    {T : Type ℓ} → ℕ → ℕ → Result T → CircuitBreaker × Pc → CircuitBreaker × Pc
run_moves zero now result s = s
run_moves (suc n) now result s = run_moves n now result (move now result s.0 s.1)

-- Two threads that ask a half-open breaker with room for one more call are both let through, if both
-- read the count before either adds to it.
pub both_admitted :
    {T : Type 0} (now : ℕ) (result : Result T) (cb : CircuitBreaker)
    → cb.state ≡ half_open
    → suc cb.half_open_calls ≡ cb.config.half_open_max_calls
    → cb.config.half_open_max_calls + 1 < u64_mod
    → (first second full over : CircuitBreaker) × (run_moves 3 now result (cb, count_call)
        ≡ (first, add_call))
      × (run_moves 3 now result (first, count_call) ≡ (second, add_call))
      × (run_moves 1 now result (second, add_call) ≡ (full, running))
      × (run_moves 1 now result (full, add_call) ≡ (over, running))
      × (over.half_open_calls ≡ over.config.half_open_max_calls + 1)
unfolding move
both_admitted now result cb h room f =
    let first : CircuitBreaker = record cb { total_calls = add_u64 cb.total_calls 1 } in
    let second : CircuitBreaker = record first { total_calls = add_u64 first.total_calls 1 } in
    let full : CircuitBreaker = record second { half_open_calls = cb.half_open_calls + 1 } in
    (
      first,
      second,
      full,
      record full { half_open_calls = cb.half_open_calls + 2 },
      ground arith,
      ground arith,
      ground arith,
      ground arith,
      omega arith,
    )

-- An open breaker without a failure time lets a call through and stays as it is.
execute-let_through :
    (begin end : ℕ) (result : Result (Unit {0})) (cb : CircuitBreaker)
    → cb.state ≡ opened
    → cb.last_failure_time ≡ none
    → ((execute begin end result cb).0.state ≡ opened)
      × ((execute begin end result cb).0.last_failure_time ≡ none)
      × ((execute begin end result cb).1 ≡ result)
unfolding execute
execute-let_through begin end result cb h l = ground arith

run-let_through :
    (calls : List Call) (cb : CircuitBreaker)
    → cb.state ≡ opened
    → cb.last_failure_time ≡ none
    → ((run calls cb).state ≡ opened) × ((run calls cb).last_failure_time ≡ none)
run-let_through [] cb h l = (h, l)
run-let_through (c ∷ calls) cb h l =
    let s = execute-let_through c.begin c.end c.result cb h l in
    run-let_through calls (called c cb) s.0 s.1

-- The failure that reaches `failure_threshold` lets go of the state before it opens the breaker. Where
-- a `reset` comes between, the breaker is opened without a failure time: it stays open whatever calls
-- follow one another, and lets every one of them through.
pub reset_before_opening :
    (now cleared later : ℕ) (failed : Result (Unit {0})) (cb : CircuitBreaker) (calls : List Call)
    → cb.state ≡ closed
    → suc cb.failure_count ≡ cb.config.failure_threshold
    → cb.config.failure_threshold < u64_mod
    → (counted after : CircuitBreaker) × (run_moves 3 now failed (cb, failure_state)
        ≡ (counted, open_check))
      × (run_moves 5 later failed (reset cleared counted, open_check) ≡ (after, done))
      × ((run calls after).state ≡ opened)
      × ((begin end : ℕ) (result : Result (Unit {0}))
          → (execute begin end result (run calls after)).1 ≡ result)
unfolding move reset
reset_before_opening now cleared later failed cb calls h reached f =
    let counted : CircuitBreaker = record cb {
      failure_count = cb.failure_count + 1;
      last_failure_time = some now;
    } in
    let after : CircuitBreaker = record (reset cleared counted) {
      state = opened;
      last_state_change = some later;
    } in
    let stays = run-let_through calls after refl refl in
    (
      counted,
      after,
      ground arith,
      ground arith,
      stays.0,
      λ begin end result.
          (execute-let_through begin end result (run calls after) stays.0 stays.1).2,
    )

-- Seven accesses of a thread that nothing interrupts reset a breaker.
resets_whole :
    {T : Type 0} (now : ℕ) (result : Result T) (cb : CircuitBreaker)
    → run_moves 7 now result (cb, reset_state) ≡ (reset now cb, done)
unfolding move reset
resets_whole now result cb = ground arith

-- What is left of a call that `admit` let through or refused.
abbrev left_of : CircuitBreaker × Admission → CircuitBreaker × Pc
left_of (cb, proceed) = (cb, running)
left_of (cb, reject e) = (cb, rejected e)

-- A few accesses of a thread that nothing interrupts do what `admit` says.
abbrev Admits : ℕ → CircuitBreaker → Type 0
Admits now cb = (n : ℕ) × (run_moves {0} n now (ok tt) (cb, count_call) ≡ left_of (admit now cb))

half_open-Admits : (now : ℕ) (cb : CircuitBreaker) → cb.state ≡ half_open → Admits now cb
unfolding move admit
half_open-Admits now cb h =
    elim (Bool-cases (leb cb.config.half_open_max_calls cb.half_open_calls)) [
      | inl full ↦ (3, ground arith)
      | inr room ↦ (4, ground arith)
    ]

opened-Admits : (now : ℕ) (cb : CircuitBreaker) → cb.state ≡ opened → Admits now cb
unfolding move admit
opened-Admits now cb h = elim (Option-cases cb.last_failure_time) [
  | inl e ↦ (3, ground arith)
  | inr (t, e) ↦ elim (Bool-cases (leb cb.config.timeout (now - t))) [
    | inl over ↦ (8, ground arith)
    | inr wait ↦ (3, ground arith)
  ]
]

admit-Admits : (now : ℕ) (cb : CircuitBreaker) → Admits now cb
unfolding move admit
admit-Admits now cb = go cb.state refl
  where
    go : (state : CircuitState) → cb.state ≡ state → Admits now cb
    go closed h = (2, ground arith)
    go half_open h = half_open-Admits now cb h
    go opened h = opened-Admits now cb h

-- Ten accesses of it from the end of the operation on do what `settle` says.
run_moves-settle :
    {T : Type 0} (now : ℕ) (result : Result T) (cb : CircuitBreaker)
    → run_moves 10 now result (cb, running) ≡ (settle now result cb, done)
unfolding move settle
run_moves-settle now result cb = ground arith
