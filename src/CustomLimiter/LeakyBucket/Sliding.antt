-- ===== src/CustomLimiter/LeakyBucket/Sliding.antt =====
-- src/custom_limiter.rs: the leaky bucket beside the sliding window.
use limiteron.Common.{
  Bool-cases, inl, inr, ℕ, suc, ◌+◌, ◌-◌, ◌<◌, ◌≤◌, ◌≡◌, refl, ap, sym, Bool, true, false, List, [],
  ◌∷◌, ltb, leb, add_u64, u64_mod, length, replicate, arith, length-append, length-replicate,
}
use limiteron.Errors.{Result, ok}
use limiteron.Limiters.Cost.{max_cost, validate_cost_valid}
use limiteron.Limiters.SlidingWindow as SlidingWindow
use limiteron.Limiters.SlidingWindow.{
  SlidingWindowLimiter, drop_expired, cleanup_expired_requests, push_requests,
}
use limiteron.Limiters.SlidingWindow.Queue.{length-drop-le}
use limiteron.CustomLimiter.LeakyBucket.{LeakyBucketLimiter, leaked, less_one, leak, pour, allow}

-- The leak is the cleanup of a window that is one nanosecond shorter than the interval, and it keeps
-- the count of the queue.
leaked-drop :
    (now w current : ℕ) (queue : List ℕ)
    → current ≡ length queue
    → length queue < u64_mod
    → leaked now (suc w) current queue
      ≡ (length (drop_expired now w queue), drop_expired now w queue)
unfolding leaked drop_expired
leaked-drop now w current [] e h = ap (λ (n : ℕ). (n, [])) e
leaked-drop now w current (t ∷ ts) e h =
    let less : less_one current ≡ length ts = omega (arith, e) in
    let ih = leaked-drop now w (less_one current) ts less (omega arith) in
    elim (Bool-cases (ltb w (now - t))) [
      | inl gone ↦ let f : leb (suc w) (now - t) ≡ true = ground arith in rw (gone, f) ih
      | inr stays ↦
          let f : leb (suc w) (now - t) ≡ false = ground arith in
          rw (stays, f) (ap (λ (n : ℕ). (n, t ∷ ts)) e)
    ]

-- A sliding window over the queue of a bucket.
abbrev pub window_of : ℕ → LeakyBucketLimiter → SlidingWindowLimiter
window_of w l = record { window_size = w; max_requests = l.capacity; requests = l.queue }

-- The count of a bucket is that of its queue.
abbrev pub IsCounted : LeakyBucketLimiter → Type 0
IsCounted l = l.current ≡ length l.queue

poured :
    (now w cost : ℕ) (l : LeakyBucketLimiter)
    → IsCounted l
    → length l.queue + cost < u64_mod
    → let (after, answer) = pour now cost l in
      let (window, verdict) = push_requests now cost (window_of w l) in
      (answer ≡ verdict) × (window_of w after ≡ window) × IsCounted after
unfolding pour push_requests
poured now w cost l e h =
    let sum : add_u64 l.current cost ≡ length l.queue + cost = omega (arith, e) in
    let same : add_u64 (length l.queue) cost ≡ length l.queue + cost = omega arith in
    let kept = length-append l.queue (replicate cost now) in
    let added = length-replicate cost now in
    elim (Bool-cases (ltb l.capacity (length l.queue + cost))) [
      | inl full ↦ rw (sum, same, full) (refl, refl, e)
      | inr room ↦ rw (sum, same, room) (refl, refl, omega (arith, kept, added))
    ]

allow-pushed :
    (leak_interval : ℕ → Result ℕ) (leaking now w cost : ℕ) (l : LeakyBucketLimiter)
    → leak_interval l.leak_rate ≡ ok (suc w)
    → IsCounted l
    → length l.queue + cost < u64_mod
    → let (window, verdict) =
        push_requests now cost (cleanup_expired_requests leaking (window_of w l)) in
      (after : LeakyBucketLimiter) × (allow leak_interval leaking now cost l ≡ ok (after, verdict))
      × (window_of w after ≡ window)
      × IsCounted after
unfolding allow leak cleanup_expired_requests
allow-pushed leak_interval leaking now w cost l e counted h =
    let queue = drop_expired leaking w l.queue in
    let shorter = length-drop-le leaking w l.queue in
    let d = leaked-drop leaking w l.current l.queue counted (omega arith) in
    let m : LeakyBucketLimiter = record l { current = length queue; queue = queue } in
    let p = poured now w cost m refl (omega (arith, shorter)) in
    ((pour now cost m).0, rw (e, d) (ap (λ (b : Bool). ok ((pour now cost m).0, b)) p.0), p.1, p.2)

-- A leaky bucket is the sliding window of its interval: on a cost that the sliding window limiter
-- accepts, it gives the answer that a sliding window limiter of the same capacity gives at the same two
-- times, and keeps the same requests. The window is a nanosecond shorter than the interval in which one
-- request leaks.
pub allow-sliding :
    (leak_interval : ℕ → Result ℕ) (leaking now w cost : ℕ) (l : LeakyBucketLimiter)
    → leak_interval l.leak_rate ≡ ok (suc w)
    → IsCounted l
    → length l.queue + cost < u64_mod
    → 1 ≤ cost
    → cost ≤ max_cost
    → (after : LeakyBucketLimiter) × (verdict : Bool) × (allow leak_interval leaking now cost l
        ≡ ok (after, verdict))
      × (SlidingWindow.allow leaking now cost (window_of w l) ≡ ok (window_of w after, verdict))
      × IsCounted after
unfolding SlidingWindow.allow
allow-sliding leak_interval leaking now w cost l e counted h lo hi =
    let (after, answered, same, kept) =
      allow-pushed leak_interval leaking now w cost l e counted h in
    let (window, verdict) =
      push_requests now cost (cleanup_expired_requests leaking (window_of w l)) in
    (
      after,
      verdict,
      answered,
      rw (validate_cost_valid cost lo hi)
          (ap (λ (s : SlidingWindowLimiter). ok (s, verdict)) (sym same)),
      kept,
    )
