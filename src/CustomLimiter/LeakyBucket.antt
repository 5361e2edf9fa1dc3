-- ===== src/CustomLimiter/LeakyBucket.antt =====
-- src/custom_limiter.rs: `LeakyBucketLimiter`, one call after the other. The length of the leak
-- interval, `Duration::from_secs(1).div_f64(leak_rate as f64)`, is a parameter, which panics where
-- the division does.
pub mod Sliding
use limiteron.Common.{
  ℕ, ◌+◌, ◌-◌, ◌%◌, Bool, true, false, List, [], ◌∷◌, ◌++◌, Option, Text, codes, ltb, leb, nat_beq,
  if◌then◌else◌, add_u64, u64_mod, length, replicate,
}
use limiteron.Errors.{literal, config_error, Result, ok, err, panic, ◌>>=◌}
use limiteron.CustomLimiter.{LimiterStats, new_stats, count_granted, count_refused, settings}

pub record LeakyBucketLimiter : Type 0 where
  pub capacity : ℕ
  pub leak_rate : ℕ
  pub current : ℕ
  pub queue : List ℕ
  pub stats : LimiterStats

unfoldable pub new : ℕ → ℕ → LeakyBucketLimiter
new capacity leak_rate = record {
  capacity = capacity;
  leak_rate = leak_rate;
  current = 0;
  queue = [];
  stats = new_stats;
}

-- `fetch_sub(1)`, which wraps.
abbrev pub less_one : ℕ → ℕ
less_one n = (n + (u64_mod - 1)) % u64_mod

-- The `while let` loop of `leak`.
unfoldable pub leaked : ℕ → ℕ → ℕ → List ℕ → ℕ × List ℕ
leaked now leak_interval current [] = (current, [])
leaked now leak_interval current (front ∷ rest) =
    let further = leaked now leak_interval (less_one current) rest in
    if leb leak_interval (now - front) then further else (current, front ∷ rest)

-- The part after the leak.
unfoldable pub pour : ℕ → ℕ → LeakyBucketLimiter → LeakyBucketLimiter × Bool
unfolding count_granted count_refused
pour now cost l =
    if ltb l.capacity (add_u64 l.current cost)
    then (record l { stats = count_refused l.stats }, false)
    else (
      record l {
        current = add_u64 l.current cost;
        queue = l.queue ++ replicate cost now;
        stats = count_granted l.stats;
      },
      true,
    )

module _ (leak_interval : ℕ → Result ℕ) where
  unfoldable pub leak : ℕ → LeakyBucketLimiter → Result LeakyBucketLimiter
  unfolding leaked
  leak now l = leak_interval l.leak_rate >>= λ interval.
      let (current, queue) = leaked now interval l.current l.queue in
      ok (record l { current = current; queue = queue })

  -- The clock is read twice: for the leak, and for the new requests.
  unfoldable pub allow : ℕ → ℕ → ℕ → LeakyBucketLimiter → Result (LeakyBucketLimiter × Bool)
  unfolding leak pour
  allow leaking now cost l = leak leaking l >>= λ after. ok (pour now cost after)

unfoldable pub loaded : LeakyBucketLimiter → Result (ℕ × ℕ) → LeakyBucketLimiter × Result (Unit {0})
loaded l (ok (capacity, leak_rate)) =
    (record l { capacity = capacity; leak_rate = leak_rate }, ok tt)
loaded l (err e) = (l, err e)
loaded l panic = (l, panic)

unfoldable pub load_config :
    (Text → Option ℕ) → LeakyBucketLimiter → LeakyBucketLimiter × Result (Unit {0})
unfolding loaded settings
load_config config l = loaded l (settings "leak_rate" "缺少 leak_rate 配置" "leak_rate 必须大于 0" config)
