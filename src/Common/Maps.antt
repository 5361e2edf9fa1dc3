-- ===== src/Common/Maps.antt =====
-- A hash map as an association list: one entry for each key, and no order that a client sees.
use mathlib.Core.Path.{◌≡◌, refl}
use mathlib.Core.Logic.{◌≢◌}
use mathlib.Core.List.{List, [], ◌∷◌}
use mathlib.Core.Option.{Option, none, some}
use native.Mathlib.Omega.{arith}
use limiteron.Common.Booleans.{if◌then◌else◌}
use limiteron.Common.Keys.{Key, ◌==◌}

module _ {ℓ κ} {K : Type ℓ} {V : Type κ} ⦃key : Key K⦄ where
  unfoldable pub lookup : K → List (K × V) → Option V
  lookup q [] = none
  lookup q (e ∷ rest) = let found = lookup q rest in if q == e.0 then some e.1 else found

  -- The first entry with the key is overwritten where it stands.
  unfoldable pub insert : K → V → List (K × V) → List (K × V)
  insert q v [] = (q, v) ∷ []
  insert q v (e ∷ rest) =
      let below = insert q v rest in if q == e.0 then (e.0, v) ∷ rest else e ∷ below

  unfoldable pub remove : K → List (K × V) → List (K × V)
  remove q [] = []
  remove q (e ∷ rest) = let below = remove q rest in if q == e.0 then below else e ∷ below

  pub lookup-insert :
      (p q : K) (v : V) (entries : List (K × V))
      → lookup q (insert p v entries) ≡ (if q == p then some v else lookup q entries)
  unfolding lookup insert
  lookup-insert p q v [] = refl
  lookup-insert p q v (e ∷ rest) =
      ground
        (arith, lookup-insert p q v rest, key.test_iff q p, key.test_iff q e.0, key.test_iff p e.0)

  pub lookup-remove :
      (p q : K) (entries : List (K × V))
      → lookup q (remove p entries) ≡ (if q == p then none else lookup q entries)
  unfolding lookup remove
  lookup-remove p q [] = ground arith
  lookup-remove p q (e ∷ rest) =
      ground
        (arith, lookup-remove p q rest, key.test_iff q p, key.test_iff q e.0, key.test_iff p e.0)

  pub lookup-insert_self :
      (q : K) (v : V) (entries : List (K × V)) → lookup q (insert q v entries) ≡ some v
  lookup-insert_self q v entries = ground (arith, lookup-insert q q v entries, key.test_iff q q)

  pub lookup-remove_self : (q : K) (entries : List (K × V)) → lookup q (remove q entries) ≡ none
  lookup-remove_self q entries = ground (arith, lookup-remove q q entries, key.test_iff q q)

  pub lookup-insert_ne :
      (p q : K) (v : V) (entries : List (K × V))
      → q ≢ p
      → lookup q (insert p v entries) ≡ lookup q entries
  lookup-insert_ne p q v entries h = ground (arith, lookup-insert p q v entries, key.test_iff q p)

  pub lookup-remove_ne :
      (p q : K) (entries : List (K × V)) → q ≢ p → lookup q (remove p entries) ≡ lookup q entries
  lookup-remove_ne p q entries h = ground (arith, lookup-remove p q entries, key.test_iff q p)

  -- No key stands twice.
  abbrev pub Distinct : List (K × V) → Type κ
  Distinct [] = Unit
  Distinct (e ∷ rest) = (lookup e.0 rest ≡ none) × Distinct rest

  pub Distinct-insert :
      (p : K) (v : V) (entries : List (K × V)) → Distinct entries → Distinct (insert p v entries)
  unfolding insert
  Distinct-insert p v [] d = (unfold lookup in refl, tt)
  Distinct-insert p v (e ∷ rest) d = ground (
    arith,
    Distinct-insert p v rest d.1,
    lookup-insert p e.0 v rest,
    key.test_iff p e.0,
    key.test_iff e.0 p,
  )

  pub Distinct-remove :
      (p : K) (entries : List (K × V)) → Distinct entries → Distinct (remove p entries)
  unfolding remove
  Distinct-remove p [] d = tt
  Distinct-remove p (e ∷ rest) d =
      ground (arith, Distinct-remove p rest d.1, lookup-remove p e.0 rest)
