-- ===== src/CircuitBreaker/Trip.antt =====
-- When a breaker opens, what an open one does, and when it closes again, for calls of `execute`
-- that follow one another.
use limiteron.Common.{
  ℕ, suc, ◌+◌, ◌-◌, ◌≤◌, ◌<◌, max, ◌≡◌, ◌≢◌, refl, ap, List, [], ◌∷◌, none, some, arith, length,
  ltb, if◌then◌else◌, Bool-cases, inl, inr,
}
use limiteron.Errors.{FlowGuardError, closed, opened, half_open, Result, ok, err}
use limiteron.CircuitBreaker.{CircuitBreaker, execute}
use limiteron.CircuitBreaker.Invariant.{ConfigFits}

-- One call: when it starts, when its operation ends, and with what.
pub record Call : Type 0 where
  pub begin : ℕ
  pub end : ℕ
  pub result : Result (Unit {0})

abbrev pub called : Call → CircuitBreaker → CircuitBreaker
called c cb = (execute c.begin c.end c.result cb).0

abbrev pub run : List Call → CircuitBreaker → CircuitBreaker
run [] cb = cb
run (c ∷ cs) cb = run cs (called c cb)

abbrev pub failure : ℕ → ℕ → FlowGuardError → Call
failure begin end e = record { begin = begin; end = end; result = err e }

-- Calls that all fail, given by their times and errors.
abbrev pub failures : List (ℕ × ℕ × FlowGuardError) → List Call
failures [] = []
failures ((b, d, e) ∷ cs) = failure b d e ∷ failures cs

abbrev pub success : ℕ → ℕ → Call
success begin end = record { begin = begin; end = end; result = ok tt }

abbrev pub successes : List (ℕ × ℕ) → List Call
successes [] = []
successes ((b, d) ∷ cs) = success b d ∷ successes cs

execute_failure_closed :
    (b d : ℕ) (e : FlowGuardError) (cb : CircuitBreaker)
    → ConfigFits cb.config
    → cb.state ≡ closed
    → cb.failure_count + 1 < cb.config.failure_threshold
    → let q = called (failure b d e) cb in
      (q.state ≡ closed) × (q.failure_count ≡ cb.failure_count + 1) × (q.config ≡ cb.config)
unfolding execute
execute_failure_closed b d e cb f h k = ground arith

execute_failure_trips :
    (b d : ℕ) (e : FlowGuardError) (cb : CircuitBreaker)
    → ConfigFits cb.config
    → cb.state ≡ closed
    → cb.failure_count + 1 ≡ cb.config.failure_threshold
    → (called (failure b d e) cb).state ≡ opened
unfolding execute
execute_failure_trips b d e cb f h k = ground arith

run-failures_short :
    (cs : List (ℕ × ℕ × FlowGuardError)) (cb : CircuitBreaker)
    → ConfigFits cb.config
    → cb.state ≡ closed
    → cb.failure_count + length cs < cb.config.failure_threshold
    → (run (failures cs) cb).state ≡ closed
run-failures_short [] cb f h k = h
run-failures_short ((b, d, e) ∷ cs) cb f h k =
    let s = execute_failure_closed b d e cb f h (omega arith) in
    run-failures_short cs (called (failure b d e) cb) (ground (arith, s)) s.0 (ground (arith, s))

run-failures_trips :
    (cs : List (ℕ × ℕ × FlowGuardError)) (cb : CircuitBreaker)
    → ConfigFits cb.config
    → cb.state ≡ closed
    → cs ≢ []
    → cb.failure_count + length cs ≡ cb.config.failure_threshold
    → (run (failures cs) cb).state ≡ opened
run-failures_trips [] cb f h n k = absurd (n refl)
run-failures_trips ((b, d, e) ∷ []) cb f h n k = execute_failure_trips b d e cb f h (omega arith)
run-failures_trips ((b, d, e) ∷ c ∷ cs) cb f h n k =
    let s = execute_failure_closed b d e cb f h (omega arith) in
    run-failures_trips (c ∷ cs) (called (failure b d e) cb) (ground (arith, s)) s.0 (λ q. cc)
      (ground (arith, s))

-- A closed breaker without failures stays closed for fewer than `failure_threshold` failures in a
-- row, and the failure that reaches that number opens it, whatever the times and the errors.
pub opens_exactly_at_threshold :
    (cs : List (ℕ × ℕ × FlowGuardError)) (cb : CircuitBreaker)
    → ConfigFits cb.config
    → cb.state ≡ closed
    → cb.failure_count ≡ 0
    → 1 ≤ cb.config.failure_threshold
    → length cs ≤ cb.config.failure_threshold
    → (run (failures cs) cb).state
      ≡ (if ltb (length cs) cb.config.failure_threshold then closed else opened)
opens_exactly_at_threshold cs cb f h z p most =
    elim (Bool-cases (ltb (length cs) cb.config.failure_threshold)) [
      | inl fewer ↦ rw fewer (run-failures_short cs cb f h (ground arith))
      | inr reached ↦
          let all_of_them : length cs ≡ cb.config.failure_threshold = ground arith in
          rw reached (
            run-failures_trips cs cb f h (λ q. absurd (omega (arith, ap length q, all_of_them)))
              (omega (arith, all_of_them)))
    ]

execute_success_probe :
    (b d : ℕ) (cb : CircuitBreaker)
    → ConfigFits cb.config
    → cb.state ≡ half_open
    → cb.half_open_calls < cb.config.half_open_max_calls
    → cb.success_count + 1 < cb.config.success_threshold
    → let q = called (success b d) cb in
      (q.state ≡ half_open)
      × (q.half_open_calls ≡ cb.half_open_calls + 1)
      × (q.success_count ≡ cb.success_count + 1)
      × (q.config ≡ cb.config)
unfolding execute
execute_success_probe b d cb f h c k = ground arith

execute_success_closes :
    (b d : ℕ) (cb : CircuitBreaker)
    → ConfigFits cb.config
    → cb.state ≡ half_open
    → cb.half_open_calls < cb.config.half_open_max_calls
    → cb.success_count + 1 ≡ cb.config.success_threshold
    → (called (success b d) cb).state ≡ closed
unfolding execute
execute_success_closes b d cb f h c k = ground arith

run-successes_closes :
    (cs : List (ℕ × ℕ)) (cb : CircuitBreaker)
    → ConfigFits cb.config
    → cb.state ≡ half_open
    → cs ≢ []
    → cb.half_open_calls + length cs ≤ cb.config.half_open_max_calls
    → cb.success_count + length cs ≡ cb.config.success_threshold
    → (run (successes cs) cb).state ≡ closed
run-successes_closes [] cb f h n c k = absurd (n refl)
run-successes_closes ((b, d) ∷ []) cb f h n c k =
    execute_success_closes b d cb f h (omega arith) (omega arith)
run-successes_closes ((b, d) ∷ r ∷ cs) cb f h n c k =
    let s = execute_success_probe b d cb f h (omega arith) (omega arith) in
    run-successes_closes (r ∷ cs) (called (success b d) cb) (ground (arith, s)) s.0 (λ q. cc)
      (ground (arith, s)) (ground (arith, s))

execute_first_probe :
    (b d failed : ℕ) (cb : CircuitBreaker)
    → ConfigFits cb.config
    → cb.state ≡ opened
    → cb.last_failure_time ≡ some failed
    → cb.config.timeout ≤ b - failed
    → 1 ≤ cb.config.success_threshold
    → let q = called (success b d) cb in
      (cb.config.success_threshold ≡ 1 → q.state ≡ closed)
      × (1 < cb.config.success_threshold
          → (q.state ≡ half_open)
            × (q.half_open_calls ≡ 1)
            × (q.success_count ≡ 1)
            × (q.config ≡ cb.config))
unfolding execute
execute_first_probe b d failed cb f h l t p = ground arith

-- Once the timeout is over, `success_threshold` successful calls in a row close an open breaker,
-- if the half-open state admits that many calls.
pub recovers :
    (b d failed : ℕ) (cs : List (ℕ × ℕ)) (cb : CircuitBreaker)
    → ConfigFits cb.config
    → cb.state ≡ opened
    → cb.last_failure_time ≡ some failed
    → cb.config.timeout ≤ b - failed
    → suc (length cs) ≡ cb.config.success_threshold
    → cb.config.success_threshold ≤ cb.config.half_open_max_calls
    → (run (successes ((b, d) ∷ cs)) cb).state ≡ closed
recovers b d failed [] cb f h l t k c =
    (execute_first_probe b d failed cb f h l t (omega arith)).0 (omega arith)
recovers b d failed (r ∷ cs) cb f h l t k c =
    let s = (execute_first_probe b d failed cb f h l t (omega arith)).1 (omega arith) in
    run-successes_closes (r ∷ cs) (called (success b d) cb) (ground (arith, s)) s.0 (λ q. cc)
      (ground (arith, s)) (ground (arith, s))

-- The state of a breaker whose calls run out before its successes can close it.
record Starved (cb : CircuitBreaker) : Type 0 where
  fits : ConfigFits cb.config
  few : max 1 cb.config.half_open_max_calls < cb.config.success_threshold
  away : cb.state ≢ closed
  known : cb.last_failure_time ≢ none
  spent : cb.state ≡ half_open → cb.success_count ≤ cb.half_open_calls
  capped : cb.state ≡ half_open → cb.half_open_calls ≤ max 1 cb.config.half_open_max_calls

execute-Starved :
    (b d : ℕ) (result : Result (Unit {0})) (cb : CircuitBreaker)
    → Starved cb
    → Starved (called (record { begin = b; end = d; result = result }) cb)
unfolding execute
execute-Starved b d result cb v = ground arith

-- Where `success_threshold` is above `half_open_max_calls` (and above 1), an open breaker never
-- closes again by calls that follow one another, each after the last has ended, at whatever times and
-- with whatever results.
pub never_recovers :
    (failed : ℕ) (cs : List Call) (cb : CircuitBreaker)
    → ConfigFits cb.config
    → cb.state ≡ opened
    → cb.last_failure_time ≡ some failed
    → max 1 cb.config.half_open_max_calls < cb.config.success_threshold
    → (run cs cb).state ≢ closed
never_recovers failed cs cb f h l few = (run-Starved cs cb start).away
  where
    start : Starved cb
    start = ground arith

    run-Starved : (cs : List Call) (cb : CircuitBreaker) → Starved cb → Starved (run cs cb)
    run-Starved [] cb v = v
    run-Starved (c ∷ cs) cb v = run-Starved cs _ (execute-Starved c.begin c.end c.result cb v)
