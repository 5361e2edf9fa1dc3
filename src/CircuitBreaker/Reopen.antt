-- ===== src/CircuitBreaker/Reopen.antt =====
-- What a failed probe does to the timeout.
use limiteron.Common.{ℕ, ◌-◌, ◌≤◌, ◌≡◌, some, arith}
use limiteron.Errors.{FlowGuardError, opened, half_open}
use limiteron.CircuitBreaker.{CircuitBreaker, proceed, admit, execute}
use limiteron.CircuitBreaker.Trip.{failure, called}

-- A probe that fails opens the breaker again but leaves the time of the last failure as it was, so
-- the very next call, at any later time, is admitted as a probe: the timeout is not waited for.
pub reopened_admits_at_once :
    (begin end later failed : ℕ) (e : FlowGuardError) (cb : CircuitBreaker)
    → cb.state ≡ opened
    → cb.last_failure_time ≡ some failed
    → cb.config.timeout ≤ begin - failed
    → begin ≤ later
    → let reopened = called (failure begin end e) cb in
      (reopened.state ≡ opened)
      × ((admit later reopened).1 ≡ proceed)
      × ((admit later reopened).0.state ≡ half_open)
unfolding execute
reopened_admits_at_once begin end later failed e cb h l t m = ground arith
