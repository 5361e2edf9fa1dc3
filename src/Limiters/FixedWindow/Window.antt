-- ===== src/Limiters/FixedWindow/Window.antt =====
-- Which window a call falls into.
use native.Mathlib.Decide.{dec_lt}
use limiteron.Common.{ℕ, zero, suc, ◌+◌, ◌-◌, ◌*◌, ◌/◌, ◌≤◌, ◌<◌, ◌≡◌, refl, arith, u64_max}
use limiteron.Errors.{Result, ok}
use limiteron.Limiters.FixedWindow.{
  FixedWindowLimiter, Pc, start_load, done, panicked, aligned, move, check_and_reset_window,
  count_request,
}

pub div-le : (d s : ℕ) → 0 < s → (d / s * s ≤ d) × (d < d / s * s + s)
div-le d s h = (grind arith, grind arith)

pub aligned-eq :
    (now start size : ℕ)
    → start ≤ now
    → now < u64_max
    → 0 < size
    → aligned now start size ≡ start + (now - start) / size * size
aligned-eq now start size h k p = omega (arith, div-le (now - start) size p)

abbrev CheckResult : ℕ → FixedWindowLimiter → Type 0
CheckResult now l =
    (after : FixedWindowLimiter) × (k : ℕ) × (check_and_reset_window now l ≡ ok after)
    × (after.window_start ≡ l.window_start + k * l.window_size)
    × (after.window_start ≤ now)
    × (now < after.window_start + l.window_size)
    × (k ≡ 0 → after ≡ l)
    × (1 ≤ k → after ≡ record l { window_start = after.window_start; count = 0 })

check-stays :
    (now : ℕ) (l : FixedWindowLimiter)
    → l.window_start ≤ now
    → now < u64_max
    → now < l.window_start + l.window_size
    → CheckResult now l
unfolding check_and_reset_window
check-stays now l h k w =
    (l, 0, ground arith, omega arith, h, w, λ _. refl, λ q. absurd (omega arith))

check-moves :
    (now : ℕ) (l : FixedWindowLimiter)
    → l.window_start ≤ now
    → now < u64_max
    → 0 < l.window_size
    → l.window_start + l.window_size ≤ now
    → CheckResult now l
unfolding check_and_reset_window
check-moves now l h k p w =
    let passed = (now - l.window_start) / l.window_size in
    let bounds = div-le (now - l.window_start) l.window_size p in
    let e = aligned-eq now l.window_start l.window_size h k p in
    let start = aligned now l.window_start l.window_size in
    let some_passed : 1 ≤ passed = grind (arith, bounds) in
    (
      record l { window_start = start; count = 0 },
      passed,
      ground arith,
      e,
      omega (arith, e, bounds),
      omega (arith, e, bounds),
      λ q. absurd (omega (arith, some_passed)),
      λ _. refl,
    )

-- After the check a call lies in the limiter's window, which moved on by whole windows, and never
-- back. The count is 0 if the window moved, and is otherwise untouched; nothing else changes.
pub check_and_reset_window_lem :
    (now : ℕ) (l : FixedWindowLimiter)
    → l.window_start ≤ now
    → now < u64_max
    → 0 < l.window_size
    → (after : FixedWindowLimiter) × (k : ℕ) × (check_and_reset_window now l ≡ ok after)
      × (after.window_start ≡ l.window_start + k * l.window_size)
      × (after.window_start ≤ now)
      × (now < after.window_start + l.window_size)
      × (k ≡ 0 → after ≡ l)
      × (1 ≤ k → after ≡ record l { window_start = after.window_start; count = 0 })
check_and_reset_window_lem now l h k p = elim (dec_lt now (l.window_start + l.window_size)) [
  | yes w ↦ check-stays now l h k w
  | no w ↦ check-moves now l h k p (omega arith)
]

-- `n` accesses of one thread in a row.
abbrev pub moves : ℕ → ℕ → ℕ → FixedWindowLimiter × Pc → FixedWindowLimiter × Pc
moves zero now cost s = s
moves (suc n) now cost s = moves n now cost (move now cost s.0 s.1)

abbrev pub answer_of : Result FixedWindowLimiter → ℕ → FixedWindowLimiter → FixedWindowLimiter × Pc
answer_of (ok l') cost l = let (after, answer) = count_request cost l' in (after, done answer)
answer_of _ cost l = (l, panicked)

-- Five accesses of a thread that nothing interrupts finish a call whose cost is valid, and do what the
-- whole functions say; a window of size 0 panics there too.
pub moves-answer_of :
    (now cost : ℕ) (l : FixedWindowLimiter)
    → moves 5 now cost (l, start_load) ≡ answer_of (check_and_reset_window now l) cost l
unfolding move check_and_reset_window count_request
moves-answer_of now cost l = ground arith
