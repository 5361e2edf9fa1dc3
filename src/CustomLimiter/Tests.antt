-- ===== src/CustomLimiter/Tests.antt =====
-- A leaky bucket of two requests and a leak in 100 nanoseconds, and a registry of one limiter.
use limiteron.Common.{ℕ, Bool, zero, suc, [], ◌∷◌, ◌≡◌, refl, arith}
use limiteron.Errors.{Result, ok, panic}
use limiteron.Limiters.SlidingWindow as SlidingWindow
use limiteron.CustomLimiter.{new_stats}
use limiteron.CustomLimiter.LeakyBucket.{LeakyBucketLimiter, allow}
use limiteron.CustomLimiter.LeakyBucket.Sliding.{window_of, IsCounted, allow-sliding}

-- No rate leaks nothing; every other one a request in 100 nanoseconds.
abbrev interval : ℕ → Result ℕ
interval zero = panic
interval (suc n) = ok 100

abbrev full : LeakyBucketLimiter
full = record { capacity = 2; leak_rate = 7; current = 2; queue = 5 ∷ 6 ∷ []; stats = new_stats }

allow-sliding_example :
    (after : LeakyBucketLimiter) × (verdict : Bool) × (allow interval 106 107 2 full
      ≡ ok (after, verdict))
    × (SlidingWindow.allow 106 107 2 (window_of 99 full) ≡ ok (window_of 99 after, verdict))
    × IsCounted after
allow-sliding_example =
    allow-sliding interval 106 107 99 2 full refl refl (omega arith) (omega arith) (omega arith)
