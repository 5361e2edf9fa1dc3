-- ===== src/CustomLimiter/Tokens.antt =====
-- src/custom_limiter.rs: `TokenBucketLimiter` there, one call after the other: a compare-and-swap
-- that nobody disturbs succeeds, so the retry loops run once.
use limiteron.Common.{
  ℕ, ◌-◌, ◌≤◌, ◌≡◌, ◌↔◌, Bool, true, false, Bool-cases, inl, inr, Option, Text, ltb, nat_beq,
  if◌then◌else◌, saturating_add, saturating_sub, min, arith,
}
use limiteron.Common.Float.{Float}
use limiteron.Errors.{Result, ok, err, panic}
use limiteron.CustomLimiter.{LimiterStats, new_stats, count_granted, count_refused, settings}

pub record TokenBucketLimiter : Type 0 where
  pub capacity : ℕ
  pub refill_rate : ℕ
  pub tokens : ℕ
  pub last_refill : ℕ
  pub stats : LimiterStats

unfoldable pub new : ℕ → ℕ → ℕ → TokenBucketLimiter
new now capacity refill_rate = record {
  capacity = capacity;
  refill_rate = refill_rate;
  tokens = capacity;
  last_refill = now;
  stats = new_stats;
}

-- What a stretch of nanoseconds brings.
unfoldable pub tokens_to_add : Float → ℕ → ℕ → ℕ
tokens_to_add float elapsed_nanos refill_rate = float.to_u64 (
    float.mul (float.div (float.of_u64 elapsed_nanos) (float.of_u64 1000000000))
      (float.of_u64 refill_rate))

unfoldable pub refill_tokens : Float → ℕ → TokenBucketLimiter → TokenBucketLimiter
unfolding tokens_to_add
refill_tokens float now l =
    let elapsed_nanos = saturating_sub now l.last_refill in
    let added = tokens_to_add float elapsed_nanos l.refill_rate in
    if ltb elapsed_nanos 1000000
    then l
    else (if nat_beq added 0 then l else record l {
      tokens = min (saturating_add l.tokens added) l.capacity;
      last_refill = now;
    })

unfoldable pub take : ℕ → TokenBucketLimiter → TokenBucketLimiter × Bool
unfolding count_granted count_refused
take cost l =
    if ltb l.tokens cost
    then (record l { stats = count_refused l.stats }, false)
    else (record l { tokens = l.tokens - cost; stats = count_granted l.stats }, true)

unfoldable pub allow : Float → ℕ → ℕ → TokenBucketLimiter → TokenBucketLimiter × Bool
unfolding refill_tokens take
allow float now cost l = take cost (refill_tokens float now l)

unfoldable pub loaded : TokenBucketLimiter → Result (ℕ × ℕ) → TokenBucketLimiter × Result (Unit {0})
loaded l (ok (capacity, refill_rate)) =
    (record l { capacity = capacity; refill_rate = refill_rate; tokens = capacity }, ok tt)
loaded l (err e) = (l, err e)
loaded l panic = (l, panic)

unfoldable pub load_config :
    (Text → Option ℕ) → TokenBucketLimiter → TokenBucketLimiter × Result (Unit {0})
unfolding loaded settings
load_config config l =
    loaded l (settings "refill_rate" "缺少 refill_rate 配置" "refill_rate 必须大于 0" config)

refill_tokens-capped :
    (float : Float) (now : ℕ) (l : TokenBucketLimiter)
    → l.tokens ≤ l.capacity
    → (refill_tokens float now l).tokens ≤ l.capacity
unfolding refill_tokens
refill_tokens-capped float now l h = ground arith

refill_tokens-capacity :
    (float : Float) (now : ℕ) (l : TokenBucketLimiter)
    → (refill_tokens float now l).capacity ≡ l.capacity
unfolding refill_tokens
refill_tokens-capacity float now l = ground arith

-- A request is granted exactly if the refilled bucket holds its cost, and takes just that; a refused
-- one takes nothing, and the bucket never holds more than its capacity.
pub custom_allow-grants_iff :
    (float : Float) (now cost : ℕ) (l : TokenBucketLimiter)
    → l.tokens ≤ l.capacity
    → let filled = refill_tokens float now l in
      let (after, answer) = allow float now cost l in
      ((answer ≡ true) ↔ (cost ≤ filled.tokens))
      × (answer ≡ true → after.tokens ≡ filled.tokens - cost)
      × (answer ≡ false → after.tokens ≡ filled.tokens)
      × (after.tokens ≤ after.capacity)
unfolding allow take
custom_allow-grants_iff float now cost l h =
    let filled = refill_tokens float now l in
    let capped = refill_tokens-capped float now l h in
    let kept = refill_tokens-capacity float now l in
    elim (Bool-cases (ltb filled.tokens cost)) [
      | inl short ↦ rw short (ground arith)
      | inr room ↦ rw room (ground arith)
    ]
