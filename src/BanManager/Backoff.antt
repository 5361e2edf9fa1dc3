-- ===== src/BanManager/Backoff.antt =====
-- The duration of an automatic ban.
use limiteron.Common.{ℕ, ◌*◌, ◌≤◌, arith}
use limiteron.BanManager.{BackoffConfig, calculate_ban_duration}

-- A configuration whose steps do not shrink.
abbrev pub Grows : BackoffConfig → Type 0
Grows b =
    (b.first_duration ≤ b.second_duration)
    × (b.second_duration ≤ b.third_duration)
    × (b.third_duration ≤ b.fourth_duration)

-- Where the configured steps do not shrink, a later ban is never shorter than an earlier one, and none
-- is longer than the configured maximum.
pub calculate_ban_duration-Grows :
    (backoff : BackoffConfig) (m n : ℕ)
    → Grows backoff
    → 1 ≤ m
    → m ≤ n
    → (calculate_ban_duration backoff m ≤ calculate_ban_duration backoff n)
      × (calculate_ban_duration backoff n ≤ backoff.max_duration * 1000000000)
unfolding calculate_ban_duration
calculate_ban_duration-Grows backoff m n g p h = ground arith
