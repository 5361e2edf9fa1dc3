-- ===== src/Limiters/SlidingWindow/Exact.antt =====
-- A call's answer, in terms of all that was granted before it.
use limiteron.Common.{
  ℕ, ◌+◌, ◌≤◌, ◌<◌, ◌≡◌, ◌↔◌, ap, Bool, true, false, List, arith, u64_mod, length, total,
  total-append,
}
use limiteron.Errors.{ok}
use limiteron.Limiters.Cost.{max_cost, validate_cost_valid}
use limiteron.Limiters.SlidingWindow.{
  SlidingWindowLimiter, drop_expired, cleanup_expired_requests, push_requests, allow,
}
use limiteron.Limiters.SlidingWindow.Queue.{live, length-drop_expired, total-live_none}
use limiteron.Limiters.SlidingWindow.Invariant.{Run, Call, run, Ordered, Inv, All-mono, cleaned-Inv}
use limiteron.Limiters.SlidingWindow.Budget.{fresh, last, run-Inv, fresh-Inv}

-- What is live of all that was granted is what the cleanup leaves in the deque.
live-cleaned :
    (w max_requests t now : ℕ) (r : Run) (v : Inv w max_requests t r)
    → t ≤ now
    → total (live w now) r.log ≡ length (cleanup_expired_requests now r.limiter).requests
unfolding cleanup_expired_requests
live-cleaned w max_requests t now r v h = omega (
  arith,
  ap (total (live w now)) v.split,
  total-append (live w now) v.dropped r.limiter.requests,
  total-live_none w now v.dropped
      (All-mono (λ u. u + w < t) (λ u. u + w < now) v.dropped (λ x p. omega arith) v.gone),
  length-drop_expired now w r.limiter.requests v.sorted,
  ap (λ z. length (drop_expired now z r.limiter.requests)) v.sized,
)

pushed-answer :
    (now cost : ℕ) (l : SlidingWindowLimiter)
    → length l.requests + cost < u64_mod
    → let (after, answer) = push_requests now cost l in
      ((answer ≡ true) ↔ (length l.requests + cost ≤ l.max_requests)) × (answer ≡ false → after ≡ l)
unfolding push_requests
pushed-answer now cost l h = ground arith

-- A valid request is granted exactly if, of all that was ever granted, what lies within the window
-- before the cleanup leaves room for its cost; a refused one changes nothing but by the cleanup.
pub allow-answers :
    (w max_requests t : ℕ) (cs : List Call) (c : Call)
    → max_requests + max_cost < u64_mod
    → Ordered t cs
    → last t cs ≤ c.cleaned
    → 1 ≤ c.cost
    → c.cost ≤ max_cost
    → let r = run cs (fresh w max_requests) in
      (after : SlidingWindowLimiter) × (answer : Bool) × (allow c.cleaned c.now c.cost r.limiter
        ≡ ok (after, answer))
      × ((answer ≡ true) ↔ (total (live w c.cleaned) r.log + c.cost ≤ max_requests))
      × (answer ≡ false → after ≡ cleanup_expired_requests c.cleaned r.limiter)
unfolding allow
allow-answers w max_requests t cs c f o h lo hi =
    let r = run cs (fresh w max_requests) in
    let v = run-Inv w max_requests t cs _ f o (fresh-Inv w max_requests t) in
    let u = cleaned-Inv w max_requests (last t cs) c.cleaned r h v in
    let l = cleanup_expired_requests c.cleaned r.limiter in
    let live = live-cleaned w max_requests (last t cs) c.cleaned r v h in
    let q = pushed-answer c.now c.cost l (omega (arith, u.short)) in
    let p = push_requests c.now c.cost l in
    (
      p.0,
      p.1,
      rw (validate_cost_valid c.cost lo hi),
      (λ e. omega (arith, q.0.0 e, live, u.capped), λ e. q.0.1 (omega (arith, live, u.capped))),
      q.1,
    )
