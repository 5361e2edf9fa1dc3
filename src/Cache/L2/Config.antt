-- ===== src/Cache/L2/Config.antt =====
-- src/cache/l2.rs: `L2CacheConfig`. Durations are nanoseconds; the test of the threshold against the
-- range from 0.0 to 1.0 is a parameter.
use limiteron.Common.{
  ℕ, ◌*◌, ◌/◌, Bool, not, Option, none, some, nat_beq, ltb, if◌then◌else◌, String,
}

abbrev pub default_cache_capacity : ℕ
default_cache_capacity = 10000

abbrev pub default_ttl_secs : ℕ
default_ttl_secs = 300

abbrev pub default_cleanup_interval_secs : ℕ
default_cleanup_interval_secs = 60

abbrev pub nanos : ℕ → ℕ
nanos secs = secs * 1000000000

-- `as_secs`
abbrev pub as_secs : ℕ → ℕ
as_secs d = d / 1000000000

-- `F` is f64.
pub record L2CacheConfig (F : Type 0) : Type 0 where
  pub capacity : ℕ
  pub default_ttl : Option ℕ
  pub cleanup_interval : ℕ
  pub eviction_threshold : F

module _ {F : Type 0} where
  abbrev pub default_config : F → L2CacheConfig F
  default_config threshold = record {
    capacity = default_cache_capacity;
    default_ttl = some (nanos default_ttl_secs);
    cleanup_interval = nanos default_cleanup_interval_secs;
    eviction_threshold = threshold;
  }

  unfoldable pub with_capacity : ℕ → L2CacheConfig F → L2CacheConfig F
  with_capacity capacity config = record config {
    capacity = if nat_beq capacity 0 then 1 else capacity;
  }

  unfoldable pub with_default_ttl : ℕ → L2CacheConfig F → L2CacheConfig F
  with_default_ttl ttl config = record config {
    default_ttl = if nat_beq (as_secs ttl) 0 then some (nanos default_ttl_secs) else some ttl;
  }

  unfoldable pub with_cleanup_interval : ℕ → L2CacheConfig F → L2CacheConfig F
  with_cleanup_interval interval config = record config {
    cleanup_interval =
        if ltb (as_secs interval) 10
        then nanos 10
        else (if ltb 3600 (as_secs interval) then nanos 3600 else interval);
  }

  -- The threshold outside of the range is replaced by the default.
  unfoldable pub with_eviction_threshold : (F → Bool) → F → F → L2CacheConfig F → L2CacheConfig F
  with_eviction_threshold in_unit default_threshold threshold config = record config {
    eviction_threshold = if not (in_unit threshold) then default_threshold else threshold;
  }

  -- The message of the first check that fails.
  unfoldable pub validate : (F → Bool) → L2CacheConfig F → Option String
  validate in_unit config =
      if nat_beq config.capacity 0
      then some "缓存容量不能为0"
      else if not (in_unit config.eviction_threshold)
      then some "淘汰阈值必须在[0.0, 1.0]范围内"
      else (elim config.default_ttl [
        | some ttl ↦ if nat_beq (as_secs ttl) 0 then some "默认TTL不能为0" else none
        | none ↦ none
      ])
