-- ===== src/Limiters/TokenBucket/Alone.antt =====
-- A thread that runs with no other, against the whole functions; and what an answer means.
use limiteron.Common.{ℕ, zero, suc, ◌-◌, ◌≤◌, ◌≡◌, ◌↔◌, Bool, true, false, arith}
use limiteron.Common.Float.{Float}
use limiteron.Errors.{ok}
use limiteron.Limiters.Cost.{validate_cost_valid, max_cost}
use limiteron.Limiters.TokenBucket.{
  TokenBucketLimiter, Pc, refill_load, done, move, refill_tokens, try_consume, allow,
}

module _ (fl : Float) where
  -- `n` accesses of one thread in a row.
  abbrev pub moves : ℕ → ℕ → ℕ → TokenBucketLimiter × Pc → TokenBucketLimiter × Pc
  moves zero now cost s = s
  moves (suc n) now cost s = moves n now cost (move fl now cost s.0 s.1)

  -- Six accesses of a thread that nothing interrupts finish its call, and do what the whole
  -- functions say: refill by the time that passed, then take the cost or refuse.
  moves-try_consume :
      (now cost : ℕ) (b : TokenBucketLimiter)
      → let (after, answer) = try_consume fl cost (refill_tokens fl now b) in
        moves 6 now cost (b, refill_load) ≡ (after, done answer)
  unfolding move refill_tokens try_consume
  moves-try_consume now cost b = ground arith

  -- A valid request is granted exactly if the refilled bucket holds its cost; it then takes just
  -- that many tokens, and a refused request takes none.
  pub allow-grants_iff :
      (now cost : ℕ) (b : TokenBucketLimiter)
      → 1 ≤ cost
      → cost ≤ max_cost
      → let full = refill_tokens fl now b in
        (after : TokenBucketLimiter) × (answer : Bool) × (allow fl now cost b ≡ ok (after, answer))
        × ((answer ≡ true) ↔ (cost ≤ full.tokens))
        × (answer ≡ true → after ≡ record full { tokens = full.tokens - cost })
        × (answer ≡ false → after ≡ full)
  unfolding allow
  allow-grants_iff now cost b lo hi =
      let r = try_consume fl cost (refill_tokens fl now b) in
      (
        r.0,
        r.1,
        ground (arith, validate_cost_valid cost lo hi),
        ground arith,
        ground arith,
        ground arith,
      )
