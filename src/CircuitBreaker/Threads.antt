-- ===== src/CircuitBreaker/Threads.antt =====
-- src/circuit_breaker.rs: `execute` and `reset` access by access. The atomics and the locks round the
-- state and the times are separate, so other threads may run between any two accesses. The guards that
-- keep writers of the state out for a while are left out: the model has every order of accesses that
-- the program has, and more.
use limiteron.Common.{
  ℕ, suc, ◌-◌, ◌≡◌, Bool, true, false, List, Option, none, some, leb, if◌then◌else◌, add_u64,
  get_elem?, set, replicate,
}
use limiteron.Errors.{
  FlowGuardError, limit_error, CircuitState, closed, opened, half_open, Result, ok, err, panic,
}
use limiteron.CircuitBreaker.{
  CircuitBreakerConfig, CircuitBreaker, new, open_message, half_open_message, is_closed_state,
  is_open_state, is_half_open_state,
}

-- The next access of a thread.
pub data Pc : Type 0 where
  count_call : Pc
  read_state : Pc
  read_failure_time : Pc
  load_calls : Pc
  add_call : Pc
  rejected : FlowGuardError → Pc
  running : Pc
  success_state : Pc
  clear_failures : Pc
  add_success : Pc
  add_probe_success : Pc
  failure_state : Pc
  add_failure : Pc
  set_failure_time : (failure_count : ℕ) → Pc
  half_open_check : Pc
  half_open_state : Pc
  half_open_change : Pc
  half_open_successes : Pc
  half_open_store : Pc
  closed_check : Pc
  closed_state : Pc
  closed_change : Pc
  closed_failures : Pc
  closed_successes : Pc
  closed_store : Pc
  open_check : Pc
  open_state : Pc
  open_change : Pc
  open_successes : Pc
  open_store : Pc
  reset_state : Pc
  reset_failures : Pc
  reset_successes : Pc
  reset_total : Pc
  reset_failure_time : Pc
  reset_change : Pc
  reset_store : Pc
  done : Pc

abbrev pub admission : CircuitState → Pc
admission opened = read_failure_time
admission half_open = load_calls
admission closed = running

abbrev pub on_success_pc : CircuitState → Pc
on_success_pc closed = clear_failures
on_success_pc half_open = add_probe_success
on_success_pc opened = done

abbrev pub on_failure_pc : CircuitState → Pc
on_failure_pc closed = add_failure
on_failure_pc half_open = open_check
on_failure_pc opened = done

-- A panic of the operation unwinds past the bookkeeping.
abbrev pub bookkeeping {ℓ} : {T : Type ℓ} → Result T → Pc
bookkeeping (ok value) = success_state
bookkeeping (err e) = failure_state
bookkeeping panic = done

-- An open breaker with no failure time lets the call through.
abbrev pub after_time : ℕ → ℕ → Option ℕ → Pc
after_time timeout now none = running
after_time timeout now (some last_failure) =
    if leb timeout (now - last_failure)
    then half_open_check
    else rejected (limit_error open_message)

-- One access. `now` is the clock where the access reads it, `result` what the operation answers.
unfoldable pub move {ℓ} : {T : Type ℓ} → ℕ → Result T → CircuitBreaker → Pc → CircuitBreaker × Pc
move now result cb count_call = (record cb { total_calls = add_u64 cb.total_calls 1 }, read_state)
move now result cb read_state = (cb, admission cb.state)
move now result cb read_failure_time = (cb, after_time cb.config.timeout now cb.last_failure_time)
move now result cb load_calls =
    if leb cb.config.half_open_max_calls cb.half_open_calls
    then (cb, rejected (limit_error half_open_message))
    else (cb, add_call)
move now result cb add_call =
    (record cb { half_open_calls = add_u64 cb.half_open_calls 1 }, running)
move now result cb (rejected e) = (cb, rejected e)
move now result cb running = (cb, bookkeeping result)
move now result cb success_state = (cb, on_success_pc cb.state)
move now result cb clear_failures = (record cb { failure_count = 0 }, add_success)
move now result cb add_success = (record cb { success_count = add_u64 cb.success_count 1 }, done)
move now result cb add_probe_success = (
  record cb { success_count = add_u64 cb.success_count 1 },
  (if leb cb.config.success_threshold (add_u64 cb.success_count 1) then closed_check else done),
)
move now result cb failure_state = (cb, on_failure_pc cb.state)
move now result cb add_failure = (
  record cb { failure_count = add_u64 cb.failure_count 1 },
  set_failure_time (add_u64 cb.failure_count 1),
)
move now result cb (set_failure_time failure_count) = (
  record cb { last_failure_time = some now },
  (if leb cb.config.failure_threshold failure_count then open_check else done),
)
move now result cb half_open_check =
    (cb, (if is_half_open_state cb.state then running else half_open_state))
move now result cb half_open_state = (record cb { state = half_open }, half_open_change)
move now result cb half_open_change =
    (record cb { last_state_change = some now }, half_open_successes)
move now result cb half_open_successes = (record cb { success_count = 0 }, half_open_store)
move now result cb half_open_store = (record cb { half_open_calls = 1 }, running)
move now result cb closed_check = (cb, (if is_closed_state cb.state then done else closed_state))
move now result cb closed_state = (record cb { state = closed }, closed_change)
move now result cb closed_change = (record cb { last_state_change = some now }, closed_failures)
move now result cb closed_failures = (record cb { failure_count = 0 }, closed_successes)
move now result cb closed_successes = (record cb { success_count = 0 }, closed_store)
move now result cb closed_store = (record cb { half_open_calls = 0 }, done)
move now result cb open_check = (cb, (if is_open_state cb.state then done else open_state))
move now result cb open_state = (record cb { state = opened }, open_change)
move now result cb open_change = (record cb { last_state_change = some now }, open_successes)
move now result cb open_successes = (record cb { success_count = 0 }, open_store)
move now result cb open_store = (record cb { half_open_calls = 0 }, done)
move now result cb reset_state = (record cb { state = closed }, reset_failures)
move now result cb reset_failures = (record cb { failure_count = 0 }, reset_successes)
move now result cb reset_successes = (record cb { success_count = 0 }, reset_total)
move now result cb reset_total = (record cb { total_calls = 0 }, reset_failure_time)
move now result cb reset_failure_time = (record cb { last_failure_time = none }, reset_change)
move now result cb reset_change = (record cb { last_state_change = some now }, reset_store)
move now result cb reset_store = (record cb { half_open_calls = 0 }, done)
move now result cb done = (cb, done)

-- Beside the breaker and its threads: how many calls the check of `half_open_max_calls` let through
-- since the count of half-open calls was last set, and with them the call that set it to 1. A call that
-- saw the breaker open and the timeout over, and then finds it half open already, runs uncounted.
pub record System : Type 0 where
  pub breaker : CircuitBreaker
  pub threads : List Pc
  pub admitted : ℕ

abbrev pub admitted_after : Pc → ℕ → ℕ
admitted_after add_call n = suc n
admitted_after half_open_store n = 1
admitted_after closed_store n = 0
admitted_after open_store n = 0
admitted_after reset_store n = 0
admitted_after _ n = n

abbrev pub moved : ℕ → Pc → ℕ → Result (Unit {0}) → System → System
moved i pc now result s =
    let (cb, pc') = move now result s.breaker pc in
    record { breaker = cb; threads = set s.threads i pc'; admitted = admitted_after pc s.admitted }

abbrev pub start : ℕ → CircuitBreakerConfig → ℕ → System
start n c now = record { breaker = new c now; threads = replicate n done; admitted = 0 }

-- Where a thread is that is outside of every call.
abbrev pub is_idle : Pc → Bool
is_idle done = true
is_idle (rejected e) = true
is_idle _ = false

-- A thread makes its next access, or one that is idle starts a call of `execute` or of `reset`.
pub data Step : System → System → Type 0 where
  moves :
      {s : System} (i : ℕ) (pc : Pc) (now : ℕ) (result : Result (Unit {0}))
      → get_elem? s.threads i ≡ some pc
      → Step s (moved i pc now result s)
  executes :
      {s : System} (i : ℕ) (pc : Pc)
      → get_elem? s.threads i ≡ some pc
      → is_idle pc ≡ true
      → Step s (record s { threads = set s.threads i count_call })
  resets :
      {s : System} (i : ℕ) (pc : Pc)
      → get_elem? s.threads i ≡ some pc
      → is_idle pc ≡ true
      → Step s (record s { threads = set s.threads i reset_state })

pub data Reach (n : ℕ) (c : CircuitBreakerConfig) (t : ℕ) : System → Type 0 where
  here : Reach n c t (start n c t)
  next : {s u : System} → Reach n c t s → Step s u → Reach n c t u
