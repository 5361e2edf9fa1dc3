-- ===== src/Limiters/FixedWindow/Race.antt =====
-- Two threads at the turn of a window.
use limiteron.Common.{ℕ, suc, ◌+◌, ◌-◌, ◌≤◌, ◌<◌, ◌≡◌, ◌∙◌, ap, refl, true, arith, u64_max, u64_mod}
use limiteron.Limiters.Cost.{max_cost, validate_cost}
use limiteron.Limiters.FixedWindow.{
  FixedWindowLimiter, begin, start_load, count_reset, done, aligned, move,
}
use limiteron.Limiters.FixedWindow.Window.{moves, aligned-eq, div-le}

turns :
    (now a : ℕ) (l : FixedWindowLimiter)
    → l.window_start + l.window_size ≤ now
    → now < u64_max
    → 0 < l.window_size
    → moves 2 now a (l, start_load)
      ≡ (record l { window_start = aligned now l.window_start l.window_size }, count_reset)
unfolding move
turns now a l h k p = ground arith

counts :
    (now b : ℕ) (l : FixedWindowLimiter)
    → now < l.window_start + l.window_size
    → now < u64_max
    → l.count + b ≤ l.max_requests
    → l.max_requests < u64_mod
    → moves 3 now b (l, start_load) ≡ (record l { count = l.count + b }, done true)
unfolding move
counts now b l h k p f = ground arith

resets :
    (now a : ℕ) (l : FixedWindowLimiter)
    → a ≤ l.max_requests
    → l.max_requests < u64_mod
    → moves 3 now a (l, count_reset) ≡ (record l { count = a }, done true)
unfolding move
resets now a l p f = ground arith

entered :
    (now cost : ℕ) (l : FixedWindowLimiter)
    → 1 ≤ cost
    → cost ≤ max_cost
    → move now cost l begin ≡ (l, start_load)
unfolding move validate_cost
entered now cost l lo hi = ground arith

enters :
    (n now cost : ℕ) (l : FixedWindowLimiter)
    → 1 ≤ cost
    → cost ≤ max_cost
    → moves (suc n) now cost (l, begin) ≡ moves n now cost (l, start_load)
enters n now cost l lo hi = ap (moves n now cost) (entered now cost l lo hi)

-- The count is set to 0 after the new window is published, not with it. So a thread with a valid cost
-- `b` that asks between the two is granted, if the old count leaves room, and its cost is then
-- forgotten: the first thread is granted its cost `a` in the same window, though both together ask for
-- more than `max_requests`, and the count is `a` alone.
pub reset_loses_a_grant :
    (now a b : ℕ) (l : FixedWindowLimiter)
    → l.window_start + l.window_size ≤ now
    → now < u64_max
    → 0 < l.window_size
    → l.max_requests < u64_mod
    → 1 ≤ a
    → a ≤ max_cost
    → 1 ≤ b
    → b ≤ max_cost
    → a ≤ l.max_requests
    → l.count + b ≤ l.max_requests
    → l.max_requests < a + b
    → (turned counted reset : FixedWindowLimiter) × (moves 3 now a (l, begin)
        ≡ (turned, count_reset))
      × (moves 4 now b (turned, begin) ≡ (counted, done true))
      × (moves 3 now a (counted, count_reset) ≡ (reset, done true))
      × (counted.window_start ≡ turned.window_start)
      × (reset.window_start ≡ turned.window_start)
      × (reset.count ≡ a)
      × (reset.max_requests < a + b)
reset_loses_a_grant now a b l h k p f a_lo a_hi b_lo b_hi fits room over =
    let start = aligned now l.window_start l.window_size in
    let turned : FixedWindowLimiter = record l { window_start = start } in
    let counted : FixedWindowLimiter = record turned { count = l.count + b } in
    let e = aligned-eq now l.window_start l.window_size (omega arith) k p in
    let inside : now < start + l.window_size =
      omega (arith, e, div-le (now - l.window_start) l.window_size p) in
    (
      turned,
      counted,
      record counted { count = a },
      enters 2 now a l a_lo a_hi ∙ turns now a l h k p,
      enters 3 now b turned b_lo b_hi ∙ counts now b turned inside k room f,
      resets now a counted fits f,
      refl,
      refl,
      refl,
      over,
    )
