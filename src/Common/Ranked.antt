-- ===== src/Common/Ranked.antt =====
-- Lists that are kept from the highest rank down by `binary_search_by` and `Vec::insert`.
use Prim.Native.Nat.{ℕ, zero, suc, ◌≤◌, Ordering}
use mathlib.Core.Path.{◌≡◌, refl, ap}
use mathlib.Core.List.{List, [], ◌∷◌, ◌++◌}
use native.Mathlib.Omega.{arith}
use limiteron.Common.Lists.{All}
use limiteron.Common.Search.{
  Found, at, absent, unwrap_or_else, reverse_cmp, IsPartitioned, Answers, IsBinarySearch,
  compare_lem,
}

-- `Vec::insert`, for a position up to the length.
unfoldable pub insert_at {ℓ} : {A : Type ℓ} → ℕ → A → List A → List A
insert_at zero v xs = v ∷ xs
insert_at (suc i) v [] = v ∷ []
insert_at (suc i) v (x ∷ xs) = x ∷ insert_at i v xs

-- From the highest priority down.
abbrev pub IsSorted {ℓ} : {A : Type ℓ} → (A → ℕ) → List A → Type 0
IsSorted rank [] = Unit {0}
IsSorted rank (x ∷ rest) = All (λ y. rank y ≤ rank x) rest × IsSorted rank rest

-- `position` divides a list into elements of at least and of at most a priority.
abbrev pub Divides {ℓ} : {A : Type ℓ} → (A → ℕ) → ℕ → ℕ → List A → Type 0
Divides rank p zero xs = All (λ y. rank y ≤ p) xs
Divides rank p (suc i) [] = ⊥
Divides rank p (suc i) (x ∷ rest) = (p ≤ rank x) × Divides rank p i rest

module _ {A : Type 0} (rank : A → ℕ) where
  abbrev pub to : ℕ → A → Ordering
  to p n = reverse_cmp (rank n) p

  pub All-imp :
      (P Q : A → Type 0) (nodes : List A) → ((n : A) → P n → Q n) → All P nodes → All Q nodes
  All-imp P Q [] f a = tt
  All-imp P Q (n ∷ rest) f a = (f n a.0, All-imp P Q rest f a.1)

  sorted-IsPartitioned : (p : ℕ) (nodes : List A) → IsSorted rank nodes → IsPartitioned (to p) nodes
  sorted-IsPartitioned p [] s = tt
  sorted-IsPartitioned p (n ∷ rest) s = (
    λ h.
        All-imp (λ m. rank m ≤ rank n) _ rest
          (λ m le. ground (arith, compare_lem p (rank n), compare_lem p (rank m))) s.0,
    (λ h.
        All-imp (λ m. rank m ≤ rank n) _ rest
          (λ m le. ground (arith, compare_lem p (rank n), compare_lem p (rank m))) s.0),
    sorted-IsPartitioned p rest s.1,
  )

  -- An equal element stands among the rest of a sorted list only below the priorities before it.
  equal_below :
      (p q i : ℕ) (nodes : List A)
      → All (λ n. rank n ≤ q) nodes
      → Answers (to p) (at i) nodes
      → p ≤ q
  equal_below p q zero [] s a = elim a [ ]
  equal_below p q (suc i) [] s a = elim a [ ]
  equal_below p q zero (n ∷ rest) s a = ground (arith, compare_lem p (rank n))
  equal_below p q (suc i) (n ∷ rest) s a = equal_below p q i rest s.1 a

  found-Divides :
      (p : ℕ) (found : Found) (nodes : List A)
      → IsSorted rank nodes
      → Answers (to p) found nodes
      → Divides rank p (unwrap_or_else found) nodes
  found-Divides p (at zero) [] s a = elim a [ ]
  found-Divides p (at (suc i)) [] s a = elim a [ ]
  found-Divides p (absent (suc i)) [] s a = elim a [ ]
  found-Divides p (at zero) (n ∷ rest) s a = (
    ground (arith, compare_lem p (rank n)),
    All-imp (λ m. rank m ≤ rank n) _ rest (λ m le. ground (arith, compare_lem p (rank n))) s.0,
  )
  found-Divides p (at (suc i)) (n ∷ rest) s a =
      (equal_below p (rank n) i rest s.0 a, found-Divides p (at i) rest s.1 a)
  found-Divides p (absent zero) nodes s a =
      All-imp (λ m. to p m ≡ Ordering.gt) _ nodes (λ m g. ground (arith, compare_lem p (rank m))) a
  found-Divides p (absent (suc i)) (n ∷ rest) s a =
      (ground (arith, compare_lem p (rank n)), found-Divides p (absent i) rest s.1 a.1)

  pub insert_at-All :
      (P : A → Type 0) (i : ℕ) (node : A) (nodes : List A)
      → P node
      → All P nodes
      → All P (insert_at i node nodes)
  unfolding insert_at
  insert_at-All P zero node nodes p a = (p, a)
  insert_at-All P (suc i) node [] p a = (p, tt)
  insert_at-All P (suc i) node (m ∷ rest) p a = (a.0, insert_at-All P i node rest p a.1)

  -- What holds of every element after an insertion held of those before.
  pub All-insert_at :
      (P : A → Type 0) (i : ℕ) (node : A) (nodes : List A)
      → All P (insert_at i node nodes)
      → P node × All P nodes
  unfolding insert_at
  All-insert_at P zero node nodes a = a
  All-insert_at P (suc i) node [] a = a
  All-insert_at P (suc i) node (m ∷ rest) a =
      let (p, others) = All-insert_at P i node rest a.1 in (p, (a.0, others))

  insert_at-IsSorted :
      (i : ℕ) (node : A) (nodes : List A)
      → IsSorted rank nodes
      → Divides rank (rank node) i nodes
      → IsSorted rank (insert_at i node nodes)
  unfolding insert_at
  insert_at-IsSorted zero node nodes s d = (d, s)
  insert_at-IsSorted (suc i) node [] s d = (tt, tt)
  insert_at-IsSorted (suc i) node (m ∷ rest) s d = (
    insert_at-All (λ n. rank n ≤ rank m) i node rest d.0 s.0,
    insert_at-IsSorted i node rest s.1 d.1,
  )

  insert_at-splits :
      (i : ℕ) (node : A) (nodes : List A)
      → Divides rank (rank node) i nodes
      → (front : List A) × (back : List A) × (nodes ≡ front ++ back)
        × (insert_at i node nodes ≡ front ++ (node ∷ back))
  unfolding insert_at
  insert_at-splits zero node nodes d = ([], nodes, refl, refl)
  insert_at-splits (suc i) node [] d = elim d [ ]
  insert_at-splits (suc i) node (m ∷ rest) d =
      let (front, back, e, e') = insert_at-splits i node rest d.1 in
      (m ∷ front, back, ap (λ l. m ∷ l) e, ap (λ l. m ∷ l) e')

  -- One insertion by a search that meets its contract.
  pub insert_ranked :
      (search : (A → Ordering) → List A → Found) (x : A) (xs : List A)
      → IsBinarySearch search
      → IsSorted rank xs
      → let after = insert_at (unwrap_or_else (search (to (rank x)) xs)) x xs in
        IsSorted rank after
        × ((front : List A) × (back : List A) × (xs ≡ front ++ back)
            × (after ≡ front ++ (x ∷ back)))
  insert_ranked search x xs contract s =
      let found = search (to (rank x)) xs in
      let d =
        found-Divides (rank x) found xs s
          (contract (to (rank x)) xs (sorted-IsPartitioned (rank x) xs s)) in
      (insert_at-IsSorted _ x xs s d, insert_at-splits _ x xs d)
