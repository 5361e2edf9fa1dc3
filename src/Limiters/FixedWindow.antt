-- ===== src/Limiters/FixedWindow.antt =====
-- src/limiters.rs: `FixedWindowLimiter`. Times are nanoseconds since the epoch, as `u64`.
pub mod Window
pub mod Budget
pub mod Race
mod Tests
use limiteron.Common.{
  ℕ, ◌+◌, ◌-◌, ◌*◌, ◌/◌, ◌<◌, Bool, true, false, ltb, nat_beq, if◌then◌else◌, add_u64, mul_u64,
  saturating_add, saturating_sub,
}
use limiteron.Errors.{FlowGuardError, err, Result, ok, panic, ◌>>=◌}
use limiteron.Limiters.Cost.{validate_cost}

pub record FixedWindowLimiter : Type 0 where
  pub window_size : ℕ
  pub max_requests : ℕ
  pub count : ℕ
  pub window_start : ℕ

unfoldable pub new : ℕ → ℕ → ℕ → FixedWindowLimiter
new window_size max_requests now = record {
  window_size = window_size;
  max_requests = max_requests;
  count = 0;
  window_start = now;
}

-- The aligned start of the window that `now` lies in.
abbrev pub aligned : ℕ → ℕ → ℕ → ℕ
aligned now current_start window_size =
    saturating_add current_start
      (mul_u64 (saturating_sub now current_start / window_size) window_size)

-- What is left of one call of `allow` by a thread: the next atomic access and the values read.
pub data Pc : Type 0 where
  begin : Pc
  start_load : Pc
  start_cas : (current_start new_start : ℕ) → Pc
  count_reset : Pc
  count_load : Pc
  count_cas : (current : ℕ) → Pc
  done : Bool → Pc
  failed : FlowGuardError → Pc
  panicked : Pc

-- A call whose cost is refused accesses nothing.
abbrev pub after_validation : Result ℕ → Pc
after_validation (ok cost) = start_load
after_validation (err e) = failed e
after_validation panic = panicked

-- One access, or the check of the cost before the first. A window of size 0 divides by zero.
unfoldable pub move : ℕ → ℕ → FixedWindowLimiter → Pc → FixedWindowLimiter × Pc
unfolding validate_cost
move now cost l begin = (l, after_validation (validate_cost cost))
move now cost l start_load =
    if ltb now (saturating_add l.window_start l.window_size)
    then (l, count_load)
    else if nat_beq l.window_size 0
    then (l, panicked)
    else (l, start_cas l.window_start (aligned now l.window_start l.window_size))
move now cost l (start_cas current_start new_start) =
    if nat_beq l.window_start current_start
    then (record l { window_start = new_start }, count_reset)
    else (l, start_load)
move now cost l count_reset = (record l { count = 0 }, count_load)
move now cost l count_load =
    if ltb l.max_requests (add_u64 l.count cost) then (l, done false) else (l, count_cas l.count)
move now cost l (count_cas current) =
    if nat_beq l.count current
    then (record l { count = add_u64 current cost }, done true)
    else (l, count_load)
move now cost l (done answer) = (l, done answer)
move now cost l (failed e) = (l, failed e)
move now cost l panicked = (l, panicked)

-- `check_and_reset_window` where no other thread runs.
unfoldable pub check_and_reset_window : ℕ → FixedWindowLimiter → Result FixedWindowLimiter
check_and_reset_window now l =
    if ltb now (saturating_add l.window_start l.window_size)
    then ok l
    else if nat_beq l.window_size 0
    then panic
    else ok (record l { window_start = aligned now l.window_start l.window_size; count = 0 })

-- The loop of `allow` where no other thread runs: its `compare_exchange` succeeds at once.
unfoldable pub count_request : ℕ → FixedWindowLimiter → FixedWindowLimiter × Bool
count_request cost l =
    if ltb l.max_requests (add_u64 l.count cost)
    then (l, false)
    else (record l { count = add_u64 l.count cost }, true)

unfoldable pub allow : ℕ → ℕ → FixedWindowLimiter → Result (FixedWindowLimiter × Bool)
allow now cost l = do
  cost ← validate_cost cost
  l ← check_and_reset_window now l
  ok (count_request cost l)
