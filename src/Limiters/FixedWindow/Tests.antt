-- ===== src/Limiters/FixedWindow/Tests.antt =====
-- A window of 100 ns and ten requests.
use limiteron.Common.{◌+◌, ◌*◌, ◌≤◌, ◌<◌, ◌≡◌, true, [], ◌∷◌, arith}
use limiteron.Limiters.FixedWindow.{FixedWindowLimiter, begin, count_reset, done, new}
use limiteron.Limiters.FixedWindow.Window.{moves}
use limiteron.Limiters.FixedWindow.Budget.{spent, run, granted_within_window}
use limiteron.Limiters.FixedWindow.Race.{reset_loses_a_grant}

abbrev ten : FixedWindowLimiter
unfolding new
ten = record (new 100 10 1000) { count = 4 }

granted_within_window_example :
    spent
      (1000 + 1 * 100)
      100
      (run
        ((1000, 6) ∷ (1050, 6) ∷ (1110, 4) ∷ (1190, 7) ∷ [])
        (record { limiter = new 100 10 1000; log = [] })).log
    ≤ 10
granted_within_window_example =
    granted_within_window 100 10 1000 ((1000, 6) ∷ (1050, 6) ∷ (1110, 4) ∷ (1190, 7) ∷ []) 1
      (omega arith) (omega arith) (omega arith)

reset_loses_a_grant_example :
    (turned counted reset : FixedWindowLimiter) × (moves 3 1250 10 (ten, begin)
      ≡ (turned, count_reset))
    × (moves 4 1250 6 (turned, begin) ≡ (counted, done true))
    × (moves 3 1250 10 (counted, count_reset) ≡ (reset, done true))
    × (counted.window_start ≡ turned.window_start)
    × (reset.window_start ≡ turned.window_start)
    × (reset.count ≡ 10)
    × (reset.max_requests < 10 + 6)
unfolding new
reset_loses_a_grant_example =
    reset_loses_a_grant 1250 10 6 ten (omega arith) (omega arith) (omega arith) (omega arith)
      (omega arith) (omega arith) (omega arith) (omega arith) (omega arith) (omega arith)
      (omega arith)
