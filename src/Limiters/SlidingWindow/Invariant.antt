-- ===== src/Limiters/SlidingWindow/Invariant.antt =====
-- A limiter under calls that follow one another, against the record of all that it granted.
use native.Mathlib.Decide.{dec_le}
use limiteron.Common.{
  ℕ, zero, suc, ◌+◌, ◌≤◌, ◌<◌, ◌≡◌, refl, sym, ◌∙◌, ap, Bool, true, false, List, [], ◌∷◌, ◌++◌,
  arith, leb, if◌then◌else◌, length, length-append, length-replicate, replicate, All, All-append,
  total, total-append,
}
use mathlib.Core.List.{append_assoc}
use limiteron.Errors.{Result, ok}
use limiteron.Limiters.SlidingWindow.{
  SlidingWindowLimiter, drop_expired, cleanup_expired_requests, allow,
}
use limiteron.Limiters.SlidingWindow.Queue.{
  Sorted, expired, expired-append-drop, All-expired, Sorted-drop, All-drop, length-drop-le,
  Sorted-append, All-replicate,
}

-- The limiter, and the instant of each request that it granted, oldest first.
pub record Run : Type 0 where
  pub limiter : SlidingWindowLimiter
  pub log : List ℕ

abbrev pub logged : ℕ → ℕ → Run → Result (SlidingWindowLimiter × Bool) → Run
logged now cost r (ok (l, true)) = record { limiter = l; log = r.log ++ replicate cost now }
logged now cost r (ok (l, false)) = record r { limiter = l }
logged now cost r _ = r

-- A call: the instant of its cleanup, that of its requests, and its cost.
pub record Call : Type 0 where
  pub cleaned : ℕ
  pub now : ℕ
  pub cost : ℕ

abbrev pub called : Call → Run → Run
called c r = logged c.now c.cost r (allow c.cleaned c.now c.cost r.limiter)

unfoldable pub run : List Call → Run → Run
run [] r = r
run (c ∷ cs) r = run cs (called c r)

-- The clock does not go back.
abbrev pub Ordered : ℕ → List Call → Type 0
Ordered t [] = Unit
Ordered t (c ∷ cs) = (t ≤ c.cleaned) × (c.cleaned ≤ c.now) × Ordered c.now cs

-- 1 for an instant in the stretch of `w` up to `t`, ends included.
abbrev pub inside : ℕ → ℕ → ℕ → ℕ
inside w t u = if leb u t then (if leb t (u + w) then 1 else 0) else 0

pub record Inv (w max_requests t : ℕ) (r : Run) : Type 0 where
  pub sized : r.limiter.window_size ≡ w
  pub capped : r.limiter.max_requests ≡ max_requests
  pub dropped : List ℕ
  pub split : r.log ≡ dropped ++ r.limiter.requests
  pub gone : All (λ u. u + w < t) dropped
  pub known : All (λ u. u ≤ t) r.limiter.requests
  pub sorted : Sorted r.limiter.requests
  pub short : length r.limiter.requests ≤ max_requests
  pub bounded : (s : ℕ) → total (inside w s) r.log ≤ max_requests

pub All-mono {κ} : (P Q : ℕ → Type κ) (xs : List ℕ) → ((x : ℕ) → P x → Q x) → All P xs → All Q xs
All-mono P Q [] f h = tt
All-mono P Q (x ∷ xs) f h = (f x h.0, All-mono P Q xs f h.1)

pub cleaned-Inv :
    (w max_requests t now : ℕ) (r : Run)
    → t ≤ now
    → Inv w max_requests t r
    → Inv w max_requests now (record r { limiter = cleanup_expired_requests now r.limiter })
unfolding cleanup_expired_requests
cleaned-Inv w max_requests t now r h v =
    let ts = r.limiter.requests in
    rw v.sized (record {
      sized = refl;
      capped = v.capped;
      dropped = v.dropped ++ expired now w ts;
      split =
          v.split
          ∙ ap (◌++◌ v.dropped) (sym (expired-append-drop now w ts))
          ∙ sym (append_assoc v.dropped (expired now w ts) (drop_expired now w ts));
      gone =
          All-append (λ u. u + w < now) v.dropped (expired now w ts)
            (All-mono (λ u. u + w < t) (λ u. u + w < now) v.dropped (λ x p. omega arith) v.gone)
            (All-expired now w ts);
      known =
          All-drop (λ u. u ≤ now) now w ts
            (All-mono (λ u. u ≤ t) (λ u. u ≤ now) ts (λ x p. omega arith) v.known);
      sorted = Sorted-drop now w ts v.sorted;
      short = omega (arith, length-drop-le now w ts, v.short);
      bounded = v.bounded;
    })

total-inside-le : (w s : ℕ) (xs : List ℕ) → total (inside w s) xs ≤ length xs
total-inside-le w s [] = omega arith
total-inside-le w s (x ∷ xs) = ground (arith, total-inside-le w s xs)

total-inside_gone :
    (w t s : ℕ) (xs : List ℕ) → t ≤ s → All (λ u. u + w < t) xs → total (inside w s) xs ≡ 0
total-inside_gone w t s [] h a = refl
total-inside_gone w t s (x ∷ xs) h a = ground (arith, total-inside_gone w t s xs h a.1)

total-inside_ahead : (w s now n : ℕ) → s < now → total (inside w s) (replicate n now) ≡ 0
total-inside_ahead w s now zero h = refl
total-inside_ahead w s now (suc n) h = ground (arith, total-inside_ahead w s now n h)

-- The stretch up to `s`, after `n` requests at `t`.
granted-bounded :
    (w max_requests t n : ℕ) (r : Run) (v : Inv w max_requests t r)
    → length r.limiter.requests + n ≤ max_requests
    → (s : ℕ) → total (inside w s) (r.log ++ replicate n t) ≤ max_requests
granted-bounded w max_requests t n r v h s = elim (dec_le t s) [
  | no ahead ↦ omega (
    arith,
    v.bounded s,
    total-append (inside w s) r.log (replicate n t),
    total-inside_ahead w s t n (omega arith),
  )
  | yes past ↦ omega (
    arith,
    ap (total (inside w s)) v.split,
    total-append (inside w s) r.log (replicate n t),
    total-append (inside w s) v.dropped r.limiter.requests,
    total-inside_gone w t s v.dropped past v.gone,
    total-inside-le w s r.limiter.requests,
    total-inside-le w s (replicate n t),
    length-replicate n t,
  )
]

pub granted-Inv :
    (w max_requests t n : ℕ) (r : Run)
    → Inv w max_requests t r
    → length r.limiter.requests + n ≤ max_requests
    → Inv w max_requests t (record {
      limiter = record (r.limiter) { requests = r.limiter.requests ++ replicate n t };
      log = r.log ++ replicate n t;
    })
granted-Inv w max_requests t n r v h = record {
  sized = v.sized;
  capped = v.capped;
  dropped = v.dropped;
  split =
      ap (λ l. l ++ replicate n t) v.split
      ∙ append_assoc v.dropped r.limiter.requests (replicate n t);
  gone = v.gone;
  known =
      All-append (λ u. u ≤ t) r.limiter.requests (replicate n t) v.known
        (All-replicate (λ u. u ≤ t) n t (omega arith));
  sorted = Sorted-append t n r.limiter.requests v.known v.sorted;
  short = omega (arith, length-append r.limiter.requests (replicate n t), length-replicate n t, h);
  bounded = granted-bounded w max_requests t n r v h;
}

pub later-Inv :
    (w max_requests t now : ℕ) (r : Run)
    → t ≤ now
    → Inv w max_requests t r
    → Inv w max_requests now r
later-Inv w max_requests t now r h v = record {
  sized = v.sized;
  capped = v.capped;
  dropped = v.dropped;
  split = v.split;
  gone = All-mono (λ u. u + w < t) (λ u. u + w < now) v.dropped (λ x p. omega arith) v.gone;
  known = All-mono (λ u. u ≤ t) (λ u. u ≤ now) r.limiter.requests (λ x p. omega arith) v.known;
  sorted = v.sorted;
  short = v.short;
  bounded = v.bounded;
}
