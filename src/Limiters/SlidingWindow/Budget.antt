-- ===== src/Limiters/SlidingWindow/Budget.antt =====
-- A new limiter under calls that follow one another, against the record of all that it granted.
use native.Mathlib.Decide.{dec_le}
use limiteron.Common.{
  ℕ, ◌+◌, ◌≤◌, ◌<◌, ◌≡◌, inl, inr, refl, true, false, List, [], ◌∷◌, ◌++◌, arith, u64_mod, length,
  replicate, total,
}
use limiteron.Errors.{ok}
use limiteron.Limiters.Cost.{max_cost, validate_cost-cases}
use limiteron.Limiters.SlidingWindow.{
  SlidingWindowLimiter, new, cleanup_expired_requests, push_requests, allow,
}
use limiteron.Limiters.SlidingWindow.Invariant.{
  Run, logged, Call, called, run, Ordered, inside, Inv, cleaned-Inv, granted-Inv, later-Inv,
}

pushed_grants :
    (now cost : ℕ) (l : SlidingWindowLimiter)
    → length l.requests + cost ≤ l.max_requests
    → length l.requests + cost < u64_mod
    → push_requests now cost l ≡ (record l { requests = l.requests ++ replicate cost now }, true)
unfolding push_requests
pushed_grants now cost l h k = ground arith

pushed_refuses :
    (now cost : ℕ) (l : SlidingWindowLimiter)
    → l.max_requests < length l.requests + cost
    → length l.requests + cost < u64_mod
    → push_requests now cost l ≡ (l, false)
unfolding push_requests
pushed_refuses now cost l h k = ground arith

pushed-Inv :
    (w max_requests t cost : ℕ) (r : Run)
    → max_requests + max_cost < u64_mod
    → cost ≤ max_cost
    → Inv w max_requests t r
    → Inv w max_requests t (logged t cost r (ok (push_requests t cost r.limiter)))
pushed-Inv w max_requests t cost r f c v =
    let n = length r.limiter.requests in
    elim (dec_le (n + cost) max_requests) [
      | yes fits ↦
          rw (pushed_grants t cost r.limiter (omega (arith, v.capped)) (omega (arith, v.short)))
            (granted-Inv w max_requests t cost r v fits)
      | no over ↦
          rw (pushed_refuses t cost r.limiter (omega (arith, v.capped)) (omega (arith, v.short))) v
    ]

called-Inv :
    (w max_requests t : ℕ) (c : Call) (r : Run)
    → max_requests + max_cost < u64_mod
    → t ≤ c.cleaned
    → c.cleaned ≤ c.now
    → Inv w max_requests t r
    → Inv w max_requests c.now (called c r)
unfolding allow
called-Inv w max_requests t c r f h k v = elim (validate_cost-cases c.cost) [
  | inr (m, refused) ↦ rw refused (later-Inv w max_requests t c.now r (omega arith) v)
  | inl (lo, hi, valid) ↦ rw valid (
      pushed-Inv w max_requests c.now c.cost
        (record r { limiter = cleanup_expired_requests c.cleaned r.limiter }) f hi
        (later-Inv w max_requests c.cleaned c.now _ k
          (cleaned-Inv w max_requests t c.cleaned r h v)))
]

-- The end of the last call.
abbrev pub last : ℕ → List Call → ℕ
last t [] = t
last t (c ∷ cs) = last c.now cs

pub run-Inv :
    (w max_requests t : ℕ) (cs : List Call) (r : Run)
    → max_requests + max_cost < u64_mod
    → Ordered t cs
    → Inv w max_requests t r
    → Inv w max_requests (last t cs) (run cs r)
unfolding run
run-Inv w max_requests t [] r f o v = v
run-Inv w max_requests t (c ∷ cs) r f o v =
    run-Inv w max_requests c.now cs (called c r) f o.2 (called-Inv w max_requests t c r f o.0 o.1 v)

abbrev pub fresh : ℕ → ℕ → Run
fresh w max_requests = record { limiter = new w max_requests; log = [] }

pub fresh-Inv : (w max_requests t : ℕ) → Inv w max_requests t (fresh w max_requests)
unfolding new
fresh-Inv w max_requests t = record {
  sized = refl;
  capped = refl;
  dropped = [];
  split = refl;
  gone = tt;
  known = tt;
  sorted = tt;
  short = omega arith;
  bounded = λ s. omega arith;
}

-- Whatever calls follow one another on a new limiter, every stretch of `window_size`, wherever it
-- ends, holds at most `max_requests` granted requests, unless that number is so near to 2^64 that
-- adding a cost to it wraps.
pub granted_within_any_window :
    (w max_requests t : ℕ) (cs : List Call) (s : ℕ)
    → max_requests + max_cost < u64_mod
    → Ordered t cs
    → total (inside w s) (run cs (fresh w max_requests)).log ≤ max_requests
granted_within_any_window w max_requests t cs s f o =
    (run-Inv w max_requests t cs _ f o (fresh-Inv w max_requests t)).bounded s
