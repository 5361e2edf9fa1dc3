-- ===== src/Common/Search.antt =====
-- `slice::binary_search_by`: its documentation leaves open which of several equal elements it finds,
-- so the program's use of it is a parameter with the documented contract.
use Prim.Native.Nat.{ℕ, zero, suc, ◌<◌, compare, Ordering}
use mathlib.Core.Path.{◌≡◌, refl}
use mathlib.Core.Logic.{◌≢◌, ◌↔◌}
use mathlib.Core.List.{List, [], ◌∷◌}
use native.Mathlib.Omega.{arith}
use limiteron.Common.Lists.{All}

-- `Result<usize, usize>` of a search.
pub data Found : Type 0 where
  at : ℕ → Found
  absent : ℕ → Found

abbrev pub unwrap_or_else : Found → ℕ
unwrap_or_else (at i) = i
unwrap_or_else (absent i) = i

-- `a.cmp(&b).reverse()`
abbrev pub reverse_cmp : ℕ → ℕ → Ordering
reverse_cmp a b = compare b a

-- Three-way comparison.
pub compare_lem :
    (a b : ℕ)
    → ((compare a b ≡ Ordering.lt) ↔ (a < b))
      × ((compare a b ≡ Ordering.eq) ↔ (a ≡ b))
      × ((compare a b ≡ Ordering.gt) ↔ (b < a))
compare_lem zero zero = ground arith
compare_lem zero (suc b) = ground arith
compare_lem (suc a) zero = ground arith
compare_lem (suc a) (suc b) = ground (arith, compare_lem a b)

module _ {A : Type 0} (f : A → Ordering) where
  -- What `binary_search_by` asks of a slice: first what is `Less`, then `Equal`, then `Greater`.
  abbrev pub IsPartitioned : List A → Type 0
  IsPartitioned [] = Unit {0}
  IsPartitioned (x ∷ rest) =
      (f x ≡ Ordering.gt → All (λ y. f y ≡ Ordering.gt) rest)
      × (f x ≡ Ordering.eq → All (λ y. f y ≢ Ordering.lt) rest)
      × IsPartitioned rest

  -- What it answers: where an equal element is, or where one could be put.
  abbrev pub Answers : Found → List A → Type 0
  Answers (at zero) [] = ⊥
  Answers (at zero) (x ∷ rest) = f x ≡ Ordering.eq
  Answers (at (suc i)) [] = ⊥
  Answers (at (suc i)) (x ∷ rest) = Answers (at i) rest
  Answers (absent zero) xs = All (λ y. f y ≡ Ordering.gt) xs
  Answers (absent (suc i)) [] = ⊥
  Answers (absent (suc i)) (x ∷ rest) = (f x ≡ Ordering.lt) × Answers (absent i) rest

-- The documented contract of `binary_search_by`.
abbrev pub IsBinarySearch : {A : Type 0} → ((A → Ordering) → List A → Found) → Type 0
IsBinarySearch {A} search =
    (f : A → Ordering) (xs : List A) → IsPartitioned f xs → Answers f (search f xs) xs

-- A search from the front: a value that the parameter can take.
after_first : Found → Found
after_first (at i) = at (suc i)
after_first (absent i) = absent (suc i)

unfoldable pub first_from : {A : Type 0} → (A → Ordering) → List A → Found
unfolding after_first
first_from f [] = absent 0
first_from f (x ∷ rest) =
    let further = first_from f rest in
    elim (f x) [ Ordering.lt ↦ after_first further | Ordering.eq ↦ at 0 | Ordering.gt ↦ absent 0 ]

pub first_from-Answers :
    {A : Type 0}
    → (f : A → Ordering) (xs : List A) → IsPartitioned f xs
    → Answers f (first_from f xs) xs
unfolding first_from after_first
first_from-Answers f [] p = tt
first_from-Answers f (x ∷ rest) p =
    go (f x) refl (first_from f rest) (first_from-Answers f rest p.2)
  where
    go :
        (o : Ordering)
        → f x ≡ o
        → (further : Found) → Answers f further rest
        → Answers f
            (elim o as (λ z. Found) [
              | Ordering.lt ↦ after_first further
              | Ordering.eq ↦ at 0
              | Ordering.gt ↦ absent 0
            ])
            (x ∷ rest)
    go Ordering.lt e (at i) a = a
    go Ordering.lt e (absent i) a = (e, a)
    go Ordering.eq e further a = e
    go Ordering.gt e further a = (e, p.0 e)
