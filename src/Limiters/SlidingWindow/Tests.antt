-- ===== src/Limiters/SlidingWindow/Tests.antt =====
-- A window of 100 ns and three requests.
use limiteron.Common.{ℕ, ◌+◌, ◌≤◌, ◌≡◌, ◌↔◌, Bool, true, false, List, [], ◌∷◌, arith, total}
use limiteron.Errors.{ok}
use limiteron.Limiters.SlidingWindow.{SlidingWindowLimiter, cleanup_expired_requests, allow}
use limiteron.Limiters.SlidingWindow.Queue.{live}
use limiteron.Limiters.SlidingWindow.Invariant.{Call, run, inside}
use limiteron.Limiters.SlidingWindow.Budget.{fresh, granted_within_any_window}
use limiteron.Limiters.SlidingWindow.Exact.{allow-answers}

abbrev at : ℕ → ℕ → Call
at t cost = record { cleaned = t; now = t; cost = cost }

abbrev calls : List Call
calls = at 10 2 ∷ at 50 2 ∷ at 60 1 ∷ at 120 2 ∷ []

granted_within_any_window_example : total (inside 100 130) (run calls (fresh 100 3)).log ≤ 3
granted_within_any_window_example =
    granted_within_any_window 100 3 0 calls 130 (omega arith) (omega arith)

allow-answers_example :
    let r = run calls (fresh 100 3) in
    (after : SlidingWindowLimiter) × (answer : Bool) × (allow 150 150 1 r.limiter
      ≡ ok (after, answer))
    × ((answer ≡ true) ↔ (total (live 100 150) r.log + 1 ≤ 3))
    × (answer ≡ false → after ≡ cleanup_expired_requests 150 r.limiter)
allow-answers_example =
    allow-answers 100 3 0 calls (at 150 1) (omega arith) (omega arith) (omega arith) (omega arith)
      (omega arith)
