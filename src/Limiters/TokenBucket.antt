-- ===== src/Limiters/TokenBucket.antt =====
-- src/limiters.rs: `TokenBucketLimiter`. Times are nanoseconds since the epoch, as `u64`.
pub mod Alone
pub mod Threads
pub mod Conservation
mod Tests
use limiteron.Common.{
  ℕ, ◌+◌, ◌-◌, ◌<◌, min, Bool, true, false, ltb, leb, nat_beq, if◌then◌else◌, saturating_add,
  saturating_sub,
}
use limiteron.Common.Float.{Float}
use limiteron.Errors.{Result, ok, ◌>>=◌}
use limiteron.Limiters.Cost.{validate_cost}

pub record TokenBucketLimiter : Type 0 where
  pub capacity : ℕ
  pub tokens : ℕ
  pub refill_rate : ℕ
  pub last_refill : ℕ

unfoldable pub new : ℕ → ℕ → ℕ → TokenBucketLimiter
new capacity refill_rate now = record {
  capacity = capacity;
  tokens = capacity;
  refill_rate = refill_rate;
  last_refill = now;
}

abbrev pub min_refill_nanos : ℕ
min_refill_nanos = 1000000

abbrev pub max_retry : ℕ
max_retry = 3

-- What is left of one call of `allow` by a thread: the next atomic access and the values read.
pub data Pc : Type 0 where
  refill_load : Pc
  refill_cas : (last tokens_to_add : ℕ) → Pc
  tokens_load : (tokens_to_add : ℕ) → Pc
  tokens_cas : (tokens_to_add current : ℕ) → Pc
  consume_load : (retry_count : ℕ) → Pc
  consume_cas : (retry_count current : ℕ) → Pc
  done : Bool → Pc

module _ (fl : Float) where
  open fl use {of_u64, div, mul, to_u64}

  -- `(elapsed_nanos as f64 / 1e9 * refill_rate as f64) as u64`
  unfoldable pub tokens_to_add : ℕ → ℕ → ℕ
  tokens_to_add elapsed_nanos refill_rate =
      to_u64 (mul (div (of_u64 elapsed_nanos) (of_u64 1000000000)) (of_u64 refill_rate))

  -- One access of a thread that read the clock as `now` and asks for `cost` tokens. A
  -- `compare_exchange` fails only where the value has changed.
  unfoldable pub move : ℕ → ℕ → TokenBucketLimiter → Pc → TokenBucketLimiter × Pc
  move now cost b refill_load =
      let elapsed_nanos = saturating_sub now b.last_refill in
      let add = tokens_to_add elapsed_nanos b.refill_rate in
      if ltb elapsed_nanos min_refill_nanos
      then (b, consume_load 0)
      else if nat_beq add 0
      then (b, consume_load 0)
      else (b, refill_cas b.last_refill add)
  move now cost b (refill_cas last add) =
      if nat_beq b.last_refill last
      then (record b { last_refill = now }, tokens_load add)
      else (b, refill_load)
  move now cost b (tokens_load add) = (b, tokens_cas add b.tokens)
  move now cost b (tokens_cas add current) =
      if nat_beq b.tokens current
      then (record b { tokens = min (saturating_add current add) b.capacity }, consume_load 0)
      else (b, tokens_load add)
  move now cost b (consume_load retry_count) =
      if ltb b.tokens cost then (b, done false) else (b, consume_cas retry_count b.tokens)
  move now cost b (consume_cas retry_count current) =
      if nat_beq b.tokens current
      then (record b { tokens = current - cost }, done true)
      else if leb max_retry (retry_count + 1)
      then (b, done false)
      else (b, consume_load (retry_count + 1))
  move now cost b (done answer) = (b, done answer)

  -- `refill_tokens` where no other thread runs: each `compare_exchange` succeeds.
  unfoldable pub refill_tokens : ℕ → TokenBucketLimiter → TokenBucketLimiter
  refill_tokens now b =
      let elapsed_nanos = saturating_sub now b.last_refill in
      let add = tokens_to_add elapsed_nanos b.refill_rate in
      if ltb elapsed_nanos min_refill_nanos
      then b
      else if nat_beq add 0
      then b
      else record b { last_refill = now; tokens = min (saturating_add b.tokens add) b.capacity }

  unfoldable pub try_consume : ℕ → TokenBucketLimiter → TokenBucketLimiter × Bool
  try_consume cost b =
      if ltb b.tokens cost then (b, false) else (record b { tokens = b.tokens - cost }, true)

  unfoldable pub allow : ℕ → ℕ → TokenBucketLimiter → Result (TokenBucketLimiter × Bool)
  unfolding refill_tokens try_consume
  allow now cost b = do cost ← validate_cost cost; ok (try_consume cost (refill_tokens now b))
