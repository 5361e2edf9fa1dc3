-- ===== src/CustomLimiter.antt =====
-- src/custom_limiter.rs: custom limiters and their registry. A registered limiter is the record of
-- its operations on a state that the limiters keep together. A configuration is what
-- `config[key].as_u64()` answers for each key.
pub mod LeakyBucket
pub mod Tokens
pub mod Registry
mod Tests
use limiteron.Common.{ℕ, Text, Option, none, some, String, add_u64, codes, nat_beq, if◌then◌else◌}
use limiteron.Errors.{literal, config_error, Result, ok, err, ◌>>=◌}

pub record LimiterStats : Type 0 where
  pub total_requests : ℕ
  pub allowed_requests : ℕ
  pub rejected_requests : ℕ

-- `LimiterStats::new`
abbrev pub new_stats : LimiterStats
new_stats = record { total_requests = 0; allowed_requests = 0; rejected_requests = 0 }

unfoldable pub count_granted : LimiterStats → LimiterStats
count_granted stats = record stats {
  total_requests = add_u64 stats.total_requests 1;
  allowed_requests = add_u64 stats.allowed_requests 1;
}

unfoldable pub count_refused : LimiterStats → LimiterStats
count_refused stats = record stats {
  total_requests = add_u64 stats.total_requests 1;
  rejected_requests = add_u64 stats.rejected_requests 1;
}

-- A setting that has to be there.
abbrev pub required : Option ℕ → String → Result ℕ
required none message = err (config_error (literal message))
required (some n) message = ok n

-- The checks of `load_config`, for the name of the rate and the messages that name it.
unfoldable pub settings : String → String → String → (Text → Option ℕ) → Result (ℕ × ℕ)
settings rate missing zero_rate config =
    required (config (codes "capacity")) "缺少 capacity 配置" >>= λ capacity.
    required (config (codes rate)) missing >>= λ refill.
    (if nat_beq capacity 0
      then err (config_error (literal "capacity 必须大于 0"))
      else (if nat_beq refill 0
          then err (config_error (literal zero_rate))
          else ok (capacity, refill)))
