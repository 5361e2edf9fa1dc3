-- ===== src/Limiters/FixedWindow/Budget.antt =====
-- Calls that follow one another never pass `max_requests` within one window.
use limiteron.Common.{
  ℕ, zero, suc, ◌+◌, ◌*◌, ◌≤◌, ◌<◌, ◌≡◌, refl, Bool, true, false, List, [], ◌∷◌, arith, inl, inr,
  u64_max, u64_mod, if◌then◌else◌, ltb, leb, ◌&&◌, ◌∙◌, Bool-cases, All,
}
use native.Mathlib.Decide.{dec_le}
use native.Mathlib.Nat.{add-zero}
use limiteron.Errors.{Result, ok}
use limiteron.Limiters.Cost.{max_cost, validate_cost-cases}
use limiteron.Limiters.FixedWindow.{FixedWindowLimiter, new, count_request, allow}
use limiteron.Limiters.FixedWindow.Window.{check_and_reset_window_lem}

-- A granted call, as its time and its cost.
abbrev pub Log : Type 0
Log = List (ℕ × ℕ)

-- What was granted from `start` on, for as long as `size`.
abbrev pub spent : ℕ → ℕ → Log → ℕ
spent start size [] = 0
spent start size ((at, cost) ∷ log) =
    (if leb start at && ltb at (start + size) then cost else 0) + spent start size log

pub record Run : Type 0 where
  pub limiter : FixedWindowLimiter
  pub log : Log

abbrev pub logged : ℕ → ℕ → Run → Result (FixedWindowLimiter × Bool) → Run
logged now cost r (ok (l, true)) = record { limiter = l; log = (now, cost) ∷ r.log }
logged now cost r (ok (l, false)) = record r { limiter = l }
logged now cost r _ = r

-- Calls given by their times and costs.
pub run : List (ℕ × ℕ) → Run → Run
run [] r = r
run ((now, cost) ∷ calls) r = run calls (logged now cost r (allow now cost r.limiter))

-- Times do not fall, and lie below the largest `u64`.
abbrev pub Ordered : ℕ → List (ℕ × ℕ) → Type 0
Ordered t [] = Unit
Ordered t ((now, cost) ∷ calls) = (t ≤ now) × (now < u64_max) × Ordered now calls

-- All that was granted lies before an instant.
abbrev Past : ℕ → Log → Type 0
Past end = All (λ e. e.0 < end)

-- `origin` is the time that the limiter was made at, and `k` the number of its window.
record Inv (origin size max_requests k t : ℕ) (r : Run) : Type 0 where
  sized : r.limiter.window_size ≡ size
  capped : r.limiter.max_requests ≡ max_requests
  on_grid : r.limiter.window_start ≡ origin + k * size
  begun : r.limiter.window_start ≤ t
  counted : spent (origin + k * size) size r.log ≡ r.limiter.count
  within : (j : ℕ) → spent (origin + j * size) size r.log ≤ max_requests
  past : Past (origin + k * size + size) r.log

spent-future :
    (end start size : ℕ) (log : Log) → Past end log → end ≤ start → spent start size log ≡ 0
spent-future end start size [] p h = refl
spent-future end start size ((at, cost) ∷ log) p h =
    ground (arith, spent-future end start size log p.1 h)

Past-mono : (s s' : ℕ) (log : Log) → s ≤ s' → Past s log → Past s' log
Past-mono s s' [] h p = tt
Past-mono s s' (e ∷ log) h p = (omega arith, Past-mono s s' log h p.1)

-- Windows with different numbers do not overlap.
windows-apart : (j k size : ℕ) → j < k → j * size + size ≤ k * size
windows-apart j k size h = grind arith

one_window :
    (origin size j k now : ℕ)
    → origin + j * size ≤ now
    → now < origin + j * size + size
    → origin + k * size ≤ now
    → now < origin + k * size + size
    → j ≡ k
one_window origin size j k now a b c d = elim (dec_le j k) [
  | no above ↦ absurd (omega (arith, windows-apart k j size (omega arith)))
  | yes le ↦ elim (dec_le k j) [
    | yes ge ↦ omega arith
    | no below ↦ absurd (omega (arith, windows-apart j k size (omega arith)))
  ]
]

-- The next window, `m` windows on, is a new one: nothing was granted in it.
moved-Inv :
    (origin size max_requests k m t now start : ℕ) (r : Run)
    → Inv origin size max_requests k t r
    → start ≡ origin + (k + suc m) * size
    → start ≤ now
    → Inv origin size max_requests
        (k + suc m)
        now
        (record r { limiter = record (r.limiter) { window_start = start; count = 0 } })
moved-Inv origin size max_requests k m t now start r v e le =
    let apart = windows-apart k (k + suc m) size (omega arith) in
    record {
      sized = v.sized;
      capped = v.capped;
      on_grid = e;
      begun = le;
      counted =
          spent-future (origin + k * size + size) (origin + (k + suc m) * size) size r.log v.past
            (omega arith);
      within = v.within;
      past =
          Past-mono (origin + k * size + size) (origin + (k + suc m) * size + size) r.log
            (omega arith) v.past;
    }

later-Inv :
    (origin size max_requests k t now : ℕ) (r : Run)
    → t ≤ now
    → Inv origin size max_requests k t r
    → Inv origin size max_requests k now r
later-Inv origin size max_requests k t now r h v = record {
  sized = v.sized;
  capped = v.capped;
  on_grid = v.on_grid;
  begun = omega (arith, v.begun);
  counted = v.counted;
  within = v.within;
  past = v.past;
}

later_start : (origin size k m : ℕ) → origin + k * size + suc m * size ≡ origin + (k + suc m) * size
later_start origin size k m = grind arith

checked-Inv :
    (origin size max_requests k t now passed : ℕ) (r : Run) (after : FixedWindowLimiter)
    → t ≤ now
    → Inv origin size max_requests k t r
    → after.window_start ≡ r.limiter.window_start + passed * r.limiter.window_size
    → after.window_start ≤ now
    → (passed ≡ 0 → after ≡ r.limiter)
    → (1 ≤ passed → after ≡ record (r.limiter) { window_start = after.window_start; count = 0 })
    → Inv origin size max_requests (k + passed) now (record r { limiter = after })
checked-Inv origin size max_requests k t now zero r after h v e le same moved =
    rw (same refl, add-zero) (later-Inv origin size max_requests k t now r h v)
checked-Inv origin size max_requests k t now (suc m) r after h v e le same moved =
    let e' : after.window_start ≡ origin + k * size + suc m * size =
      rw (e, v.on_grid, v.sized) refl in
    rw (moved (omega arith)) (
      moved-Inv origin size max_requests k m t now after.window_start r v
        (e' ∙ later_start origin size k m) le)

granted-within :
    (origin size max_requests k t now cost j : ℕ) (r : Run)
    → Inv origin size max_requests k t r
    → origin + k * size ≤ now
    → now < origin + k * size + size
    → r.limiter.count + cost ≤ max_requests
    → spent (origin + j * size) size ((now, cost) ∷ r.log) ≤ max_requests
granted-within origin size max_requests k t now cost j r v lo hi h =
    elim (Bool-cases (leb (origin + j * size) now && ltb now (origin + j * size + size))) [
      | inr out ↦ rw out (omega (arith, v.within j))
      | inl inside ↦
          let same : j ≡ k = one_window origin size j k now (ground arith) (ground arith) lo hi in
          let bound : cost + spent (origin + j * size) size r.log ≤ max_requests =
            rw same (omega (arith, v.counted)) in
          rw inside bound
    ]

granted-Inv :
    (origin size max_requests k t now cost : ℕ) (r : Run)
    → Inv origin size max_requests k t r
    → t ≤ now
    → now < r.limiter.window_start + r.limiter.window_size
    → r.limiter.count + cost ≤ max_requests
    → Inv origin size max_requests k now (record {
      limiter = record (r.limiter) { count = r.limiter.count + cost };
      log = (now, cost) ∷ r.log;
    })
granted-Inv origin size max_requests k t now cost r v le inside h =
    let lo : origin + k * size ≤ now = omega (arith, v.on_grid, v.begun) in
    let hi : now < origin + k * size + size = omega (arith, v.on_grid, v.sized) in
    record {
      sized = v.sized;
      capped = v.capped;
      on_grid = v.on_grid;
      begun = omega (arith, v.begun);
      counted = ground (arith, v.counted);
      within = λ j. granted-within origin size max_requests k t now cost j r v lo hi h;
      past = (hi, v.past);
    }

count_request_grants :
    (cost : ℕ) (l : FixedWindowLimiter)
    → l.count + cost ≤ l.max_requests
    → l.count + cost < u64_mod
    → count_request cost l ≡ (record l { count = l.count + cost }, true)
unfolding count_request
count_request_grants cost l h k = ground arith

count_request_refuses :
    (cost : ℕ) (l : FixedWindowLimiter)
    → l.max_requests < l.count + cost
    → l.count + cost < u64_mod
    → count_request cost l ≡ (l, false)
unfolding count_request
count_request_refuses cost l h k = ground arith

counted-Inv :
    (origin size max_requests k now cost : ℕ) (r : Run)
    → max_requests + max_cost < u64_mod
    → cost ≤ max_cost
    → now < r.limiter.window_start + r.limiter.window_size
    → Inv origin size max_requests k now r
    → Inv origin size max_requests k now (logged now cost r (ok (count_request cost r.limiter)))
counted-Inv origin size max_requests k now cost r f c inside v =
    let below : r.limiter.count ≤ max_requests = omega (arith, v.counted, v.within k) in
    elim (dec_le (r.limiter.count + cost) max_requests) [
      | yes fits ↦
          rw (count_request_grants cost r.limiter (omega (arith, v.capped)) (omega arith))
            (granted-Inv origin size max_requests k now now cost r v (omega arith) inside fits)
      | no over ↦
          rw (count_request_refuses cost r.limiter (omega (arith, v.capped)) (omega arith)) v
    ]

-- After a call the limiter is in some window of the same origin.
abbrev Later : ℕ → ℕ → ℕ → ℕ → Run → Type 0
Later origin size max_requests now r = (k : ℕ) × Inv origin size max_requests k now r

called-Inv :
    (origin size max_requests k t now cost : ℕ) (r : Run)
    → 0 < size
    → max_requests + max_cost < u64_mod
    → t ≤ now
    → now < u64_max
    → Inv origin size max_requests k t r
    → Later origin size max_requests now (logged now cost r (allow now cost r.limiter))
unfolding allow
called-Inv origin size max_requests k t now cost r p f h u v = elim (validate_cost-cases cost) [
  | inr (m, refused) ↦ rw refused (k, later-Inv origin size max_requests k t now r h v)
  | inl (lo, hi, valid) ↦
      let (after, passed, e, moved, began, inside, same, reset) =
        check_and_reset_window_lem now r.limiter (omega (arith, v.begun)) u
          (omega (arith, v.sized)) in
      let checked =
        checked-Inv origin size max_requests k t now passed r after h v moved began same reset in
      let still : now < after.window_start + after.window_size =
        omega (arith, v.sized, checked.sized) in
      rw (valid, e)
        (
          k + passed,
          counted-Inv origin size max_requests (k + passed) now cost (record r { limiter = after })
              f hi still checked,
        )
]

run-Inv :
    (origin size max_requests k t : ℕ) (calls : List (ℕ × ℕ)) (r : Run)
    → 0 < size
    → max_requests + max_cost < u64_mod
    → Ordered t calls
    → Inv origin size max_requests k t r
    → (j : ℕ) → spent (origin + j * size) size (run calls r).log ≤ max_requests
unfolding run
run-Inv origin size max_requests k t [] r p f o v j = v.within j
run-Inv origin size max_requests k t ((now, cost) ∷ calls) r p f o v j =
    let (k', v') = called-Inv origin size max_requests k t now cost r p f o.0 o.1 v in
    run-Inv origin size max_requests k' now calls (logged now cost r (allow now cost r.limiter)) p f
      o.2 v' j

-- Divide time, from the making of a limiter on, into stretches as long as its window. Whatever calls
-- follow one another on it, at times that do not fall, the costs granted in any one stretch add up to
-- `max_requests` at most. The windows are of length above 0, and `max_requests` is not so near to 2^64
-- that adding a cost to it wraps.
pub granted_within_window :
    (size max_requests t : ℕ) (calls : List (ℕ × ℕ)) (j : ℕ)
    → 0 < size
    → max_requests + max_cost < u64_mod
    → Ordered t calls
    → spent
        (t + j * size)
        size
        (run calls (record { limiter = new size max_requests t; log = [] })).log
      ≤ max_requests
unfolding new
granted_within_window size max_requests t calls j p f o =
    run-Inv t size max_requests 0 t calls _ p f o start j
  where
    start : Inv t size max_requests 0 t (record { limiter = new size max_requests t; log = [] })
    start = record {
      sized = refl;
      capped = refl;
      on_grid = omega arith;
      begun = omega arith;
      counted = refl;
      within = λ j. omega arith;
      past = tt;
    }
