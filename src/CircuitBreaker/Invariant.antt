-- ===== src/CircuitBreaker/Invariant.antt =====
-- What holds of a breaker between calls that follow one another.
use limiteron.Common.{refl, List, [], ◌∷◌, ℕ, ◌≤◌, ◌<◌, max, ◌≡◌, ◌⊎◌, none, arith, u64_mod}
use limiteron.Errors.{closed, opened, half_open, Result, ok, err, panic}
use limiteron.CircuitBreaker.{
  CircuitBreakerConfig, CircuitBreaker, new, admit, on_success, on_failure, settle, reset, execute,
  Admission, proceed, reject,
}

-- The configured numbers are `u64`.
pub record ConfigFits (c : CircuitBreakerConfig) : Type 0 where
  pub failure_fits : c.failure_threshold < u64_mod
  pub success_fits : c.success_threshold < u64_mod
  pub calls_fit : c.half_open_max_calls < u64_mod

-- A closed breaker is short of its failures, a half-open one short of its successes and within its
-- calls; and a breaker that is not closed remembers a failure.
pub record Inv (cb : CircuitBreaker) : Type 0 where
  pub fits : ConfigFits cb.config
  pub remembers : cb.last_failure_time ≡ none → cb.state ≡ closed
  pub closed_short : cb.state ≡ closed → cb.failure_count < max 1 cb.config.failure_threshold
  pub no_probes : (cb.state ≡ closed) ⊎ (cb.state ≡ opened) → cb.half_open_calls ≡ 0
  pub probes_capped :
      cb.state ≡ half_open → cb.half_open_calls ≤ max 1 cb.config.half_open_max_calls
  pub half_open_short : cb.state ≡ half_open → cb.success_count < max 1 cb.config.success_threshold

pub new-Inv : (c : CircuitBreakerConfig) (now : ℕ) → ConfigFits c → Inv (new c now)
unfolding new
new-Inv c now f = ground arith

pub admit-Inv : (now : ℕ) (cb : CircuitBreaker) → Inv cb → Inv (admit now cb).0
unfolding admit
admit-Inv now cb v = ground arith

pub on_success-Inv : (now : ℕ) (cb : CircuitBreaker) → Inv cb → Inv (on_success now cb)
unfolding on_success
on_success-Inv now cb v = ground arith

pub on_failure-Inv : (now : ℕ) (cb : CircuitBreaker) → Inv cb → Inv (on_failure now cb)
unfolding on_failure
on_failure-Inv now cb v = ground arith

pub settle-Inv {ℓ} :
    {T : Type ℓ} (now : ℕ) (result : Result T) (cb : CircuitBreaker)
    → Inv cb
    → Inv (settle now result cb)
unfolding settle
settle-Inv now (ok value) cb v = on_success-Inv now cb v
settle-Inv now (err e) cb v = on_failure-Inv now cb v
settle-Inv now panic cb v = v

pub reset-Inv : (now : ℕ) (cb : CircuitBreaker) → Inv cb → Inv (reset now cb)
unfolding reset
reset-Inv now cb v = ground arith

-- A call of `execute` or of `reset`, with the times and the answer of the operation.
pub data Operation : Type 0 where
  execute_at : (begin end : ℕ) (result : Result (Unit {0})) → Operation
  reset_at : (now : ℕ) → Operation

abbrev pub operate : Operation → CircuitBreaker → CircuitBreaker
operate (execute_at begin end result) cb = (execute begin end result cb).0
operate (reset_at now) cb = reset now cb

abbrev pub operations : List Operation → CircuitBreaker → CircuitBreaker
operations [] cb = cb
operations (o ∷ rest) cb = operations rest (operate o cb)

operate-Inv : (o : Operation) (cb : CircuitBreaker) → Inv cb → Inv (operate o cb)
unfolding execute
operate-Inv (reset_at now) cb v = reset-Inv now cb v
operate-Inv (execute_at begin end result) cb v = go (admit begin cb).1 refl
  where
    go : (a : Admission) → (admit begin cb).1 ≡ a → Inv (operate (execute_at begin end result) cb)
    go proceed e =
        rw (e, operate, execute) (settle-Inv end result (admit begin cb).0 (admit-Inv begin cb v))
    go (reject x) e = rw (e, operate, execute) (admit-Inv begin cb v)

-- The invariant holds of a new breaker after any calls and resets that follow one another.
pub operations-Inv :
    (os : List Operation) (c : CircuitBreakerConfig) (now : ℕ)
    → ConfigFits c
    → Inv (operations os (new c now))
operations-Inv os c now f = after os (new c now) (new-Inv c now f)
  where
    after : (os : List Operation) (cb : CircuitBreaker) → Inv cb → Inv (operations os cb)
    after [] cb v = v
    after (o ∷ rest) cb v = after rest (operate o cb) (operate-Inv o cb v)
