-- ===== src/Limiters/TokenBucket/Tests.antt =====
-- A bucket of ten tokens, refilled at ten a second, and two threads.
use limiteron.Common.{◌+◌, ◌≤◌, ◌≡◌, refl, false, arith, sum}
use limiteron.Common.Float.{exact}
use limiteron.Limiters.TokenBucket.{
  TokenBucketLimiter, refill_load, done, new, tokens_to_add, move, refill_tokens,
}
use limiteron.Limiters.TokenBucket.Threads.{
  Thread, System, moved, begun, moves as move_of, begins, start, Reach, here, next,
}
use limiteron.Limiters.TokenBucket.Conservation.{earned, grants_bounded}

abbrev ten : TokenBucketLimiter
unfolding new
ten = new 10 10 1000

half_second :
    refill_tokens exact 500001000 (record ten { tokens = 1 })
    ≡ record ten { tokens = 6; last_refill = 500001000 }
unfolding refill_tokens tokens_to_add new
half_second = refl

-- Both threads start, and each reads the clock in turn; the bucket has 7 tokens for one of them.
abbrev asking : Thread
asking = record { now = 500001000; cost = 7; pc = refill_load }

abbrev both : System
both = begun 1 500001000 7 (begun 0 500001000 7 (start 2 10 10 1000))

abbrev raced : System
unfolding move tokens_to_add new
raced = moved exact 1 asking (moved exact 0 asking both)

both_reached : Reach exact 2 10 10 1000 both
both_reached =
    next
      (next here (
        begins 0 500001000 7 (record { now = 0; cost = 0; pc = done false }) false refl refl
          (omega arith)))
      (begins 1 500001000 7 (record { now = 0; cost = 0; pc = done false }) false refl refl
        (omega arith))

raced_reached : Reach exact 2 10 10 1000 raced
unfolding move tokens_to_add new
raced_reached = next (next both_reached (move_of 0 asking refl)) (move_of 1 asking refl)

grants_bounded_example :
    (raced.bucket.tokens ≤ 10)
    × (raced.bucket.tokens + raced.granted ≤ 10 + earned exact 10 raced.spans)
    × (1000 + sum raced.spans ≡ raced.bucket.last_refill)
unfolding move tokens_to_add new
grants_bounded_example = grants_bounded exact raced_reached
