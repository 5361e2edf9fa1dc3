-- ===== src/QuotaController/Limits.antt =====
-- The limit with its overdraft, and the reset of a window.
use native.Mathlib.Decide.{dec_lt}
use limiteron.Common.{
  ℕ, ◌+◌, ◌-◌, ◌*◌, ◌/◌, ◌≤◌, ◌<◌, min, ◌≡◌, refl, arith, if◌then◌else◌, u64_max,
}
use limiteron.Common.Float.{Float}
use limiteron.Errors.{ok}
use limiteron.QuotaController.{
  QuotaConfig, QuotaState, total_limit, seconds, num_seconds, i32_max, check_and_reset_window,
}

-- Where nothing overflows, the total limit is the limit and the percentage of it that may be
-- overdrawn; the factor does not count where overdraft is off.
pub total_limit-eq :
    (config : QuotaConfig)
    → config.limit * config.overdraft_limit_percent ≤ u64_max
    → config.limit + config.limit * config.overdraft_limit_percent / 100 ≤ u64_max
    → total_limit config ≡ (
        if config.allow_overdraft
        then config.limit + config.limit * config.overdraft_limit_percent / 100
        else config.limit)
unfolding total_limit
total_limit-eq config h k = ground arith

windows_passed-eq :
    (d ws : ℕ) → 0 < ws → num_seconds d / num_seconds (seconds ws) ≡ num_seconds d / ws
windows_passed-eq d ws p = let e : seconds ws / 1000000000 ≡ ws = omega arith in rw e

passed_bounds :
    (d ws : ℕ)
    → 0 < ws
    → (seconds ws * (num_seconds d / ws) ≤ d) × (d < seconds ws * (num_seconds d / ws) + seconds ws)
passed_bounds d ws p = (grind arith, grind arith)

mul_min_le : (a b c : ℕ) → a * min b c ≤ a * b
mul_min_le a b c = elim (dec_lt b c) [
  | yes p ↦ let e : min b c ≡ b = omega arith in rw e (omega arith)
  | no p ↦ let e : min b c ≡ c = omega arith in rw e (grind arith)
]

module _ (fl : Float) where
  pub window_reset :
      (now : ℕ) (config : QuotaConfig) (state : QuotaState)
      → 0 < config.window_size
      → state.window_end ≡ state.window_start + seconds config.window_size
      → state.window_end ≤ now
      → (after : QuotaState) × (k : ℕ) × (check_and_reset_window fl now config state ≡ ok after)
        × (after.consumed ≡ 0)
        × (after.window_start ≡ state.window_start + seconds config.window_size * k)
        × (1 ≤ k)
        × (after.window_end ≡ after.window_start + seconds config.window_size)
        × (after.window_start ≤ now)
        × (num_seconds (now - state.window_start) / config.window_size ≤ i32_max
            → now < after.window_end)
  unfolding check_and_reset_window
  window_reset now config state p e over =
      let d = now - state.window_start in
      let passed = num_seconds d / config.window_size in
      let same = windows_passed-eq d config.window_size p in
      let bounds = passed_bounds d config.window_size p in
      let some_passed : 1 ≤ passed = grind (arith, bounds) in
      let start = state.window_start + seconds config.window_size * min passed i32_max in
      let kept : seconds config.window_size * min passed i32_max
          ≤ seconds config.window_size * passed =
        mul_min_le (seconds config.window_size) passed i32_max in
      (
        record {
          consumed = 0;
          window_start = start;
          window_end = start + seconds config.window_size;
        },
        min passed i32_max,
        rw same (ground (arith, some_passed)),
        refl,
        refl,
        omega (arith, some_passed),
        refl,
        omega (arith, bounds, kept),
        λ few.
            let whole : min passed i32_max ≡ passed = omega arith in
            rw whole (omega (arith, bounds)),
      )
