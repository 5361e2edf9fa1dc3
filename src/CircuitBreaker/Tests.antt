-- ===== src/CircuitBreaker/Tests.antt =====
-- Runs of a breaker that opens after two failures, waits 100 ns and closes after two successes.
use limiteron.Common.{
  ℕ, zero, suc, ap, get_elem?, set, ◌+◌, ◌<◌, max, ◌≡◌, ◌≢◌, refl, List, [], ◌∷◌, arith, true,
}
use limiteron.Errors.{literal, FlowGuardError, other, closed, opened, half_open, Result, ok, err}
use limiteron.CircuitBreaker.{
  CircuitBreakerConfig, CircuitBreaker, new_config, new, proceed, admit, execute, reset, is_open,
  is_half_open, is_closed,
}
use limiteron.CircuitBreaker.Invariant.{ConfigFits}
use limiteron.CircuitBreaker.Threads.{
  Pc, count_call, add_call, running, failure_state, open_check, done, System, moved, start, Reach,
  here, next, moves, executes, move,
}
use limiteron.CircuitBreaker.Probes.{probes_bounded}
use limiteron.CircuitBreaker.Overlap.{run_moves, both_admitted, reset_before_opening}
use limiteron.CircuitBreaker.Trip.{
  run, called, failure, failures, success, successes, opens_exactly_at_threshold, recovers,
  never_recovers,
}
use limiteron.CircuitBreaker.Reopen.{reopened_admits_at_once}

abbrev two : CircuitBreakerConfig
two = new_config 2 2 100

abbrev fresh : CircuitBreaker
unfolding new
fresh = new two 0

two_fits : ConfigFits two
two_fits = omega arith

abbrev broken : FlowGuardError
broken = other (literal "broken")

abbrev two_failures : List (ℕ × ℕ × FlowGuardError)
two_failures = (1, 2, broken) ∷ (3, 4, broken) ∷ []

abbrev tripped : CircuitBreaker
unfolding execute
tripped = run (failures two_failures) (new two 0)

trips : (is_open tripped ≡ true) × (is_closed (new two 0) ≡ true)
unfolding execute new is_open is_closed
trips = (refl, refl)

probing : is_half_open (called (success 200 201) tripped) ≡ true
unfolding execute new is_half_open
probing = refl

reset_closes : is_closed (reset 300 tripped) ≡ true
unfolding reset is_closed
reset_closes = refl

-- One of two threads at work: it makes its next access.
abbrev first_moves : ℕ → Result (Unit {0}) → System → List Pc → System
first_moves now result s [] = s
first_moves now result s (pc ∷ rest) = moved 0 pc now result s

abbrev work : ℕ → ℕ → Result (Unit {0}) → System → System
work zero now result s = s
work (suc n) now result s = work n now result (first_moves now result s s.threads)

module _ {n : ℕ} {c : CircuitBreakerConfig} {t : ℕ} where
  first_moves-Reach :
      (now : ℕ) (result : Result (Unit {0})) (s : System) (threads : List Pc)
      → s.threads ≡ threads
      → Reach n c t s
      → Reach n c t (first_moves now result s threads)
  first_moves-Reach now result s [] e r = r
  first_moves-Reach now result s (pc ∷ rest) e r =
      next r (moves 0 pc now result (ap (λ (l : List Pc). get_elem? l 0) e))

  work-Reach :
      (k now : ℕ) (result : Result (Unit {0})) (s : System)
      → Reach n c t s
      → Reach n c t (work k now result s)
  work-Reach zero now result s r = r
  work-Reach (suc k) now result s r =
      work-Reach k now result _ (first_moves-Reach now result s s.threads refl r)

-- A call that fails opens a breaker with one allowed failure, and one that starts after the timeout is
-- let through as a probe.
abbrev one : CircuitBreakerConfig
one = new_config 1 2 100

abbrev called_again : System → System
called_again s = record s { threads = set s.threads 0 count_call }

abbrev failed_once : System
failed_once = work 11 6 (err broken) (called_again (start 2 one 0))

abbrev probed : System
probed = work 8 200 (ok tt) (called_again failed_once)

probed_reached : Reach 2 one 0 probed
unfolding new move
probed_reached = work-Reach 8 200 (ok tt) (called_again failed_once) (
    next
      (work-Reach 11 6 (err broken) (called_again (start 2 one 0))
        (next here (executes 0 done refl refl)))
      (executes 0 done refl refl))

probed_running : (probed.admitted ≡ 1) × (probed.threads ≡ running ∷ done ∷ [])
unfolding new move
probed_running = (refl, refl)

probes_bounded_example :
    (probed.admitted ≡ probed.breaker.half_open_calls) × (probed.admitted < max 1 3 + 2)
unfolding new move
probes_bounded_example =
    probes_bounded {n = 2} {c = one} {t = 0} {s = probed} (omega arith) (omega arith) probed_reached

abbrev seven : Result ℕ
seven = ok 7

abbrev fails : Result (Unit {0})
fails = err broken

-- Two of three calls are taken.
abbrev half : CircuitBreaker
unfolding new
half = record (new two 0) { state = half_open; half_open_calls = 2 }

both_admitted_example :
    (first second full over : CircuitBreaker) × (run_moves 3 9 seven (half, count_call)
      ≡ (first, add_call))
    × (run_moves 3 9 seven (first, count_call) ≡ (second, add_call))
    × (run_moves 1 9 seven (second, add_call) ≡ (full, running))
    × (run_moves 1 9 seven (full, add_call) ≡ (over, running))
    × (over.half_open_calls ≡ over.config.half_open_max_calls + 1)
unfolding new
both_admitted_example = both_admitted 9 seven half refl refl (omega arith)

reset_before_opening_example :
    (counted after : CircuitBreaker) × (run_moves 3 6 fails (new one 0, failure_state)
      ≡ (counted, open_check))
    × (run_moves 5 8 fails (reset 7 counted, open_check) ≡ (after, done))
    × ((run (failures two_failures) after).state ≡ opened)
    × ((begin end : ℕ) (result : Result (Unit {0}))
        → (execute begin end result (run (failures two_failures) after)).1 ≡ result)
unfolding new
reset_before_opening_example =
    reset_before_opening 6 7 8 fails (new one 0) (failures two_failures) refl refl (omega arith)

opens_exactly_at_threshold_example : (run (failures two_failures) (new two 0)).state ≡ opened
unfolding new
opens_exactly_at_threshold_example =
    opens_exactly_at_threshold two_failures (new two 0) (omega arith) refl refl (omega arith)
      (omega arith)

recovers_example : (run (successes ((104, 105) ∷ (106, 107) ∷ [])) tripped).state ≡ closed
unfolding execute new
recovers_example =
    recovers 104 105 4 ((106, 107) ∷ []) tripped (omega arith) refl refl (omega arith) refl
      (omega arith)

-- Five successes wanted, and three calls admitted.
abbrev greedy : CircuitBreaker
unfolding execute
greedy = called (failure 1 2 broken) (new (new_config 1 5 100) 0)

never_recovers_example :
    (run
      (successes ((200, 201) ∷ (202, 203) ∷ (204, 205) ∷ (206, 207) ∷ (208, 209) ∷ []))
      greedy).state
    ≢ closed
unfolding execute new
never_recovers_example =
    never_recovers 2
      (successes ((200, 201) ∷ (202, 203) ∷ (204, 205) ∷ (206, 207) ∷ (208, 209) ∷ [])) greedy
      (omega arith) refl refl (omega arith)

reopened_admits_at_once_example :
    let reopened = called (failure 150 151 broken) tripped in
    (reopened.state ≡ opened)
    × ((admit 152 reopened).1 ≡ proceed)
    × ((admit 152 reopened).0.state ≡ half_open)
unfolding execute new
reopened_admits_at_once_example =
    reopened_admits_at_once 150 151 152 4 broken tripped refl refl (omega arith) (omega arith)
