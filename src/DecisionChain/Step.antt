-- ===== src/DecisionChain/Step.antt =====
-- Lemmas on a step of the loop of `check`.
use limiteron.Common.{
  ◌≡◌, ◌≢◌, ◌⊎◌, ◌∙◌, ap, sym, refl, Bool, true, false, List, [], ◌∷◌, Option, none, some, arith,
  Text, Bool-cases, inl, inr,
}
use limiteron.Errors.{Decision, allowed, Result, ok, err, panic}
use limiteron.DecisionChain.{
  DecisionNode, ChainStats, enabled_nodes, check_node, visit, visited, Visit, go_on, stop,
  check_from,
}

-- Every node grants its cost, asked one after the other.
abbrev pub Grants : {S : Type 0} → List (DecisionNode S) → S → Type 0
Grants [] s = Unit {0}
Grants (node ∷ rest) s = let (s', r) = node.limiter node.cost s in (r ≡ ok true) × Grants rest s'

-- The limiters after all nodes were asked.
abbrev pub asked : {S : Type 0} → List (DecisionNode S) → S → S
asked [] s = s
asked (node ∷ rest) s = asked rest (node.limiter node.cost s).0

module _ {S : Type 0} where
  pub enabled_nodes-on :
      (node : DecisionNode S) (rest : List (DecisionNode S))
      → node.enabled ≡ true
      → enabled_nodes (node ∷ rest) ≡ node ∷ enabled_nodes rest
  unfolding enabled_nodes
  enabled_nodes-on node rest on = rw on refl

  pub enabled_nodes-off :
      (node : DecisionNode S) (rest : List (DecisionNode S))
      → node.enabled ≡ false
      → enabled_nodes (node ∷ rest) ≡ enabled_nodes rest
  unfolding enabled_nodes
  enabled_nodes-off node rest off = rw off refl

  pub visit-off :
      (node : DecisionNode S) (reason : Option Text) (stats : ChainStats) (s : S)
      → node.enabled ≡ false
      → visit node reason stats s ≡ go_on reason stats s
  unfolding visit
  visit-off node reason stats s off = ground arith

  pub visit-granted :
      (node : DecisionNode S) (reason : Option Text) (stats : ChainStats) (s : S)
      → node.enabled ≡ true
      → (node.limiter node.cost s).1 ≡ ok true
      → visit node reason stats s ≡ go_on reason stats (node.limiter node.cost s).0
  unfolding visit visited check_node
  visit-granted node reason stats s on granted = ground arith

  unfoldable pub resume :
      List (DecisionNode S) → Visit (Option Text) S → (ChainStats × S) × Result Decision
  unfolding check_from
  resume rest v = elim v [
    | go_on reason stats s ↦ check_from rest reason stats s
    | stop stats s r ↦ ((stats, s), r)
  ]

  pub check_from-resume :
      (node : DecisionNode S) (rest : List (DecisionNode S)) (o : Option Text) (stats : ChainStats)
      (s : S)
      → check_from (node ∷ rest) o stats s ≡ resume rest (visit node o stats s)
  unfolding check_from resume
  check_from-resume node rest o stats s = refl

  pub check_from-go_on :
      (node : DecisionNode S) (rest : List (DecisionNode S)) (o p : Option Text)
      (stats st : ChainStats) (s t : S)
      → visit node o stats s ≡ go_on p st t
      → check_from (node ∷ rest) o stats s ≡ check_from rest p st t
  unfolding resume
  check_from-go_on node rest o p stats st s t e =
      check_from-resume node rest o stats s ∙ ap (resume rest) e

  pub check_from-stop :
      (node : DecisionNode S) (rest : List (DecisionNode S)) (o : Option Text)
      (stats st : ChainStats) (s t : S) (r : Result Decision)
      → visit node o stats s ≡ stop st t r
      → check_from (node ∷ rest) o stats s ≡ ((st, t), r)
  unfolding resume
  check_from-stop node rest o stats st s t r e =
      check_from-resume node rest o stats s ∙ ap (resume rest) e

  -- The loop cannot end in an admission any more.
  abbrev pub Denies : Visit (Option Text) S → Type 0
  Denies (go_on none stats s) = ⊥
  Denies (go_on (some reason) stats s) = Unit {0}
  Denies (stop stats s r) = r ≢ ok (allowed none)

  visited-Denies :
      (node : DecisionNode S) (reason : Text) (stats : ChainStats) (s : S) (r : Result Bool)
      → Denies (visited node (some reason) stats s r)
  unfolding visited
  visited-Denies node reason stats s (ok true) = tt
  visited-Denies node reason stats s (ok false) = elim (Bool-cases node.short_circuit) [
    | inl on ↦ rw on (λ e. cc)
    | inr off ↦ rw off tt
  ]
  visited-Denies node reason stats s (err e) = λ h. cc
  visited-Denies node reason stats s panic = λ h. cc

  visit-Denies :
      (node : DecisionNode S) (reason : Text) (stats : ChainStats) (s : S)
      → Denies (visit node (some reason) stats s)
  unfolding visit check_node visited
  visit-Denies node reason stats s = elim (Bool-cases node.enabled) [
    | inl on ↦ rw on (visited-Denies node reason stats _ _)
    | inr off ↦ rw off tt
  ]

  pub granted_or_Denies :
      (node : DecisionNode S) (stats : ChainStats) (s : S) (r : Result Bool)
      → (r ≡ ok true) ⊎ Denies (visited node none stats s r)
  unfolding visited
  granted_or_Denies node stats s (ok true) = inl refl
  granted_or_Denies node stats s (ok false) =
      inr (elim (Bool-cases node.short_circuit) [ inl on ↦ rw on (λ e. cc) | inr off ↦ rw off tt ])
  granted_or_Denies node stats s (err e) = inr (λ h. cc)
  granted_or_Denies node stats s panic = inr (λ h. cc)

  pub Denies-resume :
      (rest : List (DecisionNode S)) (v : Visit (Option Text) S)
      → Denies v
      → (resume rest v).1 ≢ ok (allowed none)
  unfolding resume
  Denies-resume rest (go_on none stats s) d h = d
  Denies-resume [] (go_on (some reason) stats s) d h = cc
  Denies-resume (node ∷ rest) (go_on (some reason) stats s) d h =
      Denies-resume rest (visit node (some reason) stats s) (visit-Denies node reason stats s)
        (ap (λ x. x.1) (sym (check_from-resume node rest (some reason) stats s)) ∙ h)
  Denies-resume rest (stop stats s r) d h = d h
