-- ===== src/Limiters/Quota.antt =====
-- src/limiters/quota_limiter.rs: a quota for each key, in windows that start with a request.
-- A call holds the lock of the key's entry, so it is one step.
pub mod Budget
mod Tests
use limiteron.Common.{
  ℕ, ◌-◌, ◌*◌, ◌/◌, Bool, true, false, List, [], ◌∷◌, Option, none, some, ltb, leb, if◌then◌else◌,
  add_u64, mul_u64, unwrap_or, Text, Text_key, lookup, insert,
}
use limiteron.Errors.{Result, ok, err, FlowGuardError, quota_exceeded, format, chars, num}
use limiteron.QuotaController.{QuotaConfig}

pub record QuotaRecord : Type 0 where
  pub usage : ℕ
  pub window_start : ℕ

pub record QuotaLimiter : Type 0 where
  pub config : QuotaConfig
  pub usage : List (Text × QuotaRecord)

unfoldable pub new : QuotaConfig → QuotaLimiter
new config = record { config = config; usage = [] }

-- `Duration::from_secs`, in nanoseconds.
abbrev pub window_duration : QuotaConfig → ℕ
window_duration config = config.window_size * 1000000000

-- Products and sums wrap.
unfoldable pub max_usage : QuotaConfig → ℕ
max_usage config =
    if config.allow_overdraft
    then add_u64 config.limit (mul_u64 config.limit config.overdraft_limit_percent / 100)
    else config.limit

-- The record after `or_insert_with` and the check of its window.
unfoldable pub current_record : ℕ → QuotaConfig → Option QuotaRecord → QuotaRecord
current_record now config found =
    let r = unwrap_or found (record { usage = 0; window_start = now }) in
    if leb (window_duration config) (now - r.window_start)
    then record { usage = 0; window_start = now }
    else r

unfoldable pub check_and_consume : ℕ → Text → QuotaLimiter → QuotaLimiter × Result Bool
unfolding max_usage
check_and_consume now key l =
    let r = current_record now l.config (lookup key l.usage) in
    let max = max_usage l.config in
    if leb max r.usage
    then (
      record l { usage = insert key r l.usage },
      err (
          quota_exceeded (
            format "Quota exceeded for key '{}': used {}/{}"
              (chars key ∷ num r.usage ∷ num max ∷ []))),
    )
    else (
      record l {
        usage =
            insert key (record { usage = add_u64 r.usage 1; window_start = r.window_start })
              l.usage;
      },
      ok true,
    )

-- `allow` knows no key.
unfoldable pub allow : ℕ → QuotaLimiter → QuotaLimiter × Result Bool
allow cost l = (l, ok true)
