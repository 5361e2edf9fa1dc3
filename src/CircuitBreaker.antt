-- ===== src/CircuitBreaker.antt =====
-- src/circuit_breaker.rs: a breaker with three states round a fallible operation.
-- A method takes the time that `Instant::now` returns, in nanoseconds. What a call does before the
-- operation (`admit`) and after it (`settle`) are whole functions of the state here, for a thread that
-- no other interrupts meanwhile; `Threads` has the same code access by access.
pub mod Invariant
pub mod Trip
pub mod Reopen
pub mod Threads
pub mod Probes
pub mod Overlap
mod Tests
use limiteron.Common.{
  ℕ, ◌+◌, ◌-◌, ◌*◌, Bool, true, false, Option, none, some, ltb, leb, if◌then◌else◌, add_u64,
}
use limiteron.Errors.{
  Message, literal, FlowGuardError, limit_error, CircuitState, closed, opened, half_open, Result,
  ok, err, panic,
}

abbrev pub default_failure_threshold : ℕ
default_failure_threshold = 5

abbrev pub default_success_threshold : ℕ
default_success_threshold = 2

abbrev pub default_timeout_secs : ℕ
default_timeout_secs = 60

abbrev pub default_half_open_max_calls : ℕ
default_half_open_max_calls = 3

-- `Duration::from_secs`, in nanoseconds.
abbrev pub secs : ℕ → ℕ
secs n = n * 1000000000

pub record CircuitBreakerConfig : Type 0 where
  pub failure_threshold : ℕ
  pub success_threshold : ℕ
  pub timeout : ℕ
  pub half_open_max_calls : ℕ

abbrev pub default_config : CircuitBreakerConfig
default_config = record {
  failure_threshold = default_failure_threshold;
  success_threshold = default_success_threshold;
  timeout = secs default_timeout_secs;
  half_open_max_calls = default_half_open_max_calls;
}

abbrev pub new_config : ℕ → ℕ → ℕ → CircuitBreakerConfig
new_config failure_threshold success_threshold timeout = record {
  failure_threshold = failure_threshold;
  success_threshold = success_threshold;
  timeout = timeout;
  half_open_max_calls = 3;
}

abbrev pub with_half_open_max_calls : CircuitBreakerConfig → ℕ → CircuitBreakerConfig
with_half_open_max_calls c max_calls = record c { half_open_max_calls = max_calls }

pub record CircuitBreaker : Type 0 where
  pub state : CircuitState
  pub failure_count : ℕ
  pub success_count : ℕ
  pub total_calls : ℕ
  pub last_failure_time : Option ℕ
  pub last_state_change : Option ℕ
  pub half_open_calls : ℕ
  pub config : CircuitBreakerConfig

unfoldable pub new : CircuitBreakerConfig → ℕ → CircuitBreaker
new config now = record {
  state = closed;
  failure_count = 0;
  success_count = 0;
  total_calls = 0;
  last_failure_time = none;
  last_state_change = some now;
  half_open_calls = 0;
  config = config;
}

-- `*state == CircuitState::…`
abbrev pub is_closed_state : CircuitState → Bool
is_closed_state closed = true
is_closed_state _ = false

abbrev pub is_open_state : CircuitState → Bool
is_open_state opened = true
is_open_state _ = false

abbrev pub is_half_open_state : CircuitState → Bool
is_half_open_state half_open = true
is_half_open_state _ = false

unfoldable pub transition_to_open : ℕ → CircuitBreaker → CircuitBreaker
transition_to_open now cb = if is_open_state cb.state then cb else record cb {
  state = opened;
  last_state_change = some now;
  success_count = 0;
  half_open_calls = 0;
}

-- The call that finds the timeout over is the first probe, so the count starts at 1.
unfoldable pub transition_to_half_open : ℕ → CircuitBreaker → CircuitBreaker
transition_to_half_open now cb = if is_half_open_state cb.state then cb else record cb {
  state = half_open;
  last_state_change = some now;
  success_count = 0;
  half_open_calls = 1;
}

unfoldable pub transition_to_closed : ℕ → CircuitBreaker → CircuitBreaker
transition_to_closed now cb = if is_closed_state cb.state then cb else record cb {
  state = closed;
  last_state_change = some now;
  failure_count = 0;
  success_count = 0;
  half_open_calls = 0;
}

abbrev pub open_message : Message
open_message = literal "熔断器打开，请求被拒绝"

abbrev pub half_open_message : Message
half_open_message = literal "半开状态调用次数已达上限"

-- What the checks before the operation decide.
pub data Admission : Type 0 where
  proceed : Admission
  reject : FlowGuardError → Admission

-- `match *state` of `execute`. An open breaker with no failure time lets the call through.
admit_in : CircuitState → ℕ → CircuitBreaker → CircuitBreaker × Admission
unfolding transition_to_half_open
admit_in opened now cb = elim cb.last_failure_time [
  | none ↦ (cb, proceed)
  | some last_failure ↦
      if leb cb.config.timeout (now - last_failure)
      then (transition_to_half_open now cb, proceed)
      else (cb, reject (limit_error open_message))
]
admit_in half_open now cb =
    if leb cb.config.half_open_max_calls cb.half_open_calls
    then (cb, reject (limit_error half_open_message))
    else (record cb { half_open_calls = add_u64 cb.half_open_calls 1 }, proceed)
admit_in closed now cb = (cb, proceed)

-- `execute` up to `operation().await`.
unfoldable pub admit : ℕ → CircuitBreaker → CircuitBreaker × Admission
unfolding admit_in
admit now cb = admit_in cb.state now (record cb { total_calls = add_u64 cb.total_calls 1 })

on_success_in : CircuitState → ℕ → CircuitBreaker → CircuitBreaker
unfolding transition_to_closed
on_success_in closed now cb = record cb {
  failure_count = 0;
  success_count = add_u64 cb.success_count 1;
}
on_success_in half_open now cb =
    let success_count : ℕ = add_u64 cb.success_count 1 in
    let counted = record cb { success_count = success_count } in
    if leb cb.config.success_threshold success_count
    then transition_to_closed now counted
    else counted
on_success_in opened now cb = cb

unfoldable pub on_success : ℕ → CircuitBreaker → CircuitBreaker
unfolding on_success_in
on_success now cb = on_success_in cb.state now cb

on_failure_in : CircuitState → ℕ → CircuitBreaker → CircuitBreaker
unfolding transition_to_open
on_failure_in closed now cb =
    let failure_count : ℕ = add_u64 cb.failure_count 1 in
    let counted = record cb { failure_count = failure_count; last_failure_time = some now } in
    if leb cb.config.failure_threshold failure_count
    then transition_to_open now counted
    else counted
on_failure_in half_open now cb = transition_to_open now cb
on_failure_in opened now cb = cb

unfoldable pub on_failure : ℕ → CircuitBreaker → CircuitBreaker
unfolding on_failure_in
on_failure now cb = on_failure_in cb.state now cb

-- `execute` from the operation's result on. A panic unwinds past the bookkeeping.
unfoldable pub settle {ℓ} : {T : Type ℓ} → ℕ → Result T → CircuitBreaker → CircuitBreaker
unfolding on_success on_failure
settle now (ok value) cb = on_success now cb
settle now (err e) cb = on_failure now cb
settle now panic cb = cb

-- `execute` with no other call between: the operation answers `result` and ends at `done`.
unfoldable pub execute {ℓ} :
    {T : Type ℓ} → ℕ → ℕ → Result T → CircuitBreaker → CircuitBreaker × Result T
unfolding admit settle
execute now done result cb =
    let (admitted, answer) = admit now cb in
    elim answer [ proceed ↦ (settle done result admitted, result) | reject e ↦ (admitted, err e) ]

unfoldable pub is_open : CircuitBreaker → Bool
is_open cb = is_open_state cb.state

unfoldable pub is_half_open : CircuitBreaker → Bool
is_half_open cb = is_half_open_state cb.state

unfoldable pub is_closed : CircuitBreaker → Bool
is_closed cb = is_closed_state cb.state

unfoldable pub reset : ℕ → CircuitBreaker → CircuitBreaker
reset now cb = record cb {
  state = closed;
  failure_count = 0;
  success_count = 0;
  total_calls = 0;
  last_failure_time = none;
  last_state_change = some now;
  half_open_calls = 0;
}
