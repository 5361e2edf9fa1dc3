-- ===== src/Limiters/SlidingWindow/Queue.antt =====
-- The deque of a limiter: in order of time, so that the cleanup drops all that has expired.
use limiteron.Common.{
  ℕ, zero, suc, ◌+◌, ◌-◌, ◌≤◌, ◌<◌, ◌≡◌, refl, List, [], ◌∷◌, ◌++◌, arith, ltb, leb, if◌then◌else◌,
  length, replicate, All, total,
}
use limiteron.Limiters.SlidingWindow.{drop_expired}

abbrev pub Sorted : List ℕ → Type 0
Sorted [] = Unit {0}
Sorted (t ∷ ts) = All (λ u. t ≤ u) ts × Sorted ts

-- 1 for a request that the window of `window_size` before `now` still holds.
abbrev pub live : ℕ → ℕ → ℕ → ℕ
live window_size now t = if leb now (t + window_size) then 1 else 0

pub expired : ℕ → ℕ → List ℕ → List ℕ
expired now w [] = []
expired now w (t ∷ ts) = let rest = expired now w ts in if ltb w (now - t) then t ∷ rest else []

pub expired-append-drop : (now w : ℕ) (ts : List ℕ) → expired now w ts ++ drop_expired now w ts ≡ ts
unfolding expired drop_expired
expired-append-drop now w [] = refl
expired-append-drop now w (t ∷ ts) = ground (arith, expired-append-drop now w ts)

pub All-expired : (now w : ℕ) (ts : List ℕ) → All (λ t. t + w < now) (expired now w ts)
unfolding expired
All-expired now w [] = tt
All-expired now w (t ∷ ts) = ground (arith, All-expired now w ts)

pub Sorted-drop : (now w : ℕ) (ts : List ℕ) → Sorted ts → Sorted (drop_expired now w ts)
unfolding drop_expired
Sorted-drop now w [] s = tt
Sorted-drop now w (t ∷ ts) s = ground (arith, Sorted-drop now w ts s.1)

pub All-drop {ℓ} :
    (P : ℕ → Type ℓ) (now w : ℕ) (ts : List ℕ) → All P ts → All P (drop_expired now w ts)
unfolding drop_expired
All-drop P now w [] s = tt
All-drop P now w (t ∷ ts) s = ground (arith, All-drop P now w ts s.1)

pub length-drop-le : (now w : ℕ) (ts : List ℕ) → length (drop_expired now w ts) ≤ length ts
unfolding drop_expired
length-drop-le now w [] = omega arith
length-drop-le now w (t ∷ ts) = ground (arith, length-drop-le now w ts)

total-live-eq-length :
    (w now t : ℕ) (ts : List ℕ)
    → now ≤ t + w
    → All (λ u. t ≤ u) ts
    → total (live w now) ts ≡ length ts
total-live-eq-length w now t [] h s = refl
total-live-eq-length w now t (u ∷ ts) h s = ground (arith, total-live-eq-length w now t ts h s.1)

-- What the cleanup keeps of an ordered deque is just the requests that are live.
pub length-drop_expired :
    (now w : ℕ) (ts : List ℕ) → Sorted ts → length (drop_expired now w ts) ≡ total (live w now) ts
unfolding drop_expired
length-drop_expired now w [] s = refl
length-drop_expired now w (t ∷ ts) s =
    ground (arith, length-drop_expired now w ts s.1, total-live-eq-length w now t ts)

pub total-live_none :
    (w now : ℕ) (ts : List ℕ) → All (λ t. t + w < now) ts → total (live w now) ts ≡ 0
total-live_none w now [] s = refl
total-live_none w now (t ∷ ts) s = ground (arith, total-live_none w now ts s.1)

All-le-append :
    (t now n : ℕ) (ts : List ℕ)
    → t ≤ now
    → All (λ u. t ≤ u) ts
    → All (λ u. t ≤ u) (ts ++ replicate n now)
All-le-append t now zero [] h s = tt
All-le-append t now (suc n) [] h s = (h, All-le-append t now n [] h tt)
All-le-append t now n (u ∷ ts) h s = (s.0, All-le-append t now n ts h s.1)

Sorted-replicate : (now n : ℕ) → Sorted (replicate n now)
Sorted-replicate now zero = tt
Sorted-replicate now (suc n) = (All-le-append now now n [] (omega arith) tt, Sorted-replicate now n)

-- New requests come last.
pub Sorted-append :
    (now n : ℕ) (ts : List ℕ) → All (λ u. u ≤ now) ts → Sorted ts → Sorted (ts ++ replicate n now)
Sorted-append now n [] a s = Sorted-replicate now n
Sorted-append now n (t ∷ ts) a s =
    (All-le-append t now n ts a.0 s.0, Sorted-append now n ts a.1 s.1)

pub All-replicate {ℓ} : (P : ℕ → Type ℓ) (n x : ℕ) → P x → All P (replicate n x)
All-replicate P zero x p = tt
All-replicate P (suc n) x p = (p, All-replicate P n x p)
