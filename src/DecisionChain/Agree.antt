-- ===== src/DecisionChain/Agree.antt =====
-- `check_all` beside `check`.
use limiteron.Common.{
  ◌≡◌, ap, refl, Bool, true, false, List, [], ◌∷◌, ◌++◌, Option, none, some, All, Text, codes,
  Bool-cases, inl, inr, unwrap_or, arith,
}
use limiteron.Errors.{Decision, allowed, rejected, banned, Result, ok, err, panic}
use limiteron.DecisionChain.{
  DecisionNode, DecisionChain, ChainStats, count_check, reason_of, check_node, Visit, go_on, stop,
  visit, visited, check_from, check, visit_all, visited_all, check_all_from, check_all,
}

-- An answer without its reason.
abbrev pub forget_reason : Result Decision → Result Decision
forget_reason (ok (rejected t)) = ok (rejected [])
forget_reason (ok (allowed t)) = ok (allowed t)
forget_reason (ok (banned b)) = ok (banned b)
forget_reason (err e) = err e
forget_reason panic = panic

-- Both loops have seen a refusal, or neither has.
abbrev SameReasons : Option Text → List Text → Type 0
SameReasons none [] = Unit {0}
SameReasons (some t) (u ∷ us) = Unit {0}
SameReasons none (u ∷ us) = ⊥
SameReasons (some t) [] = ⊥

added_reason :
    (o : Option Text) (os : List Text) (t u : Text)
    → SameReasons o os
    → SameReasons (some t) (os ++ (u ∷ []))
added_reason none [] t u h = tt
added_reason (some v) (w ∷ ws) t u h = tt
added_reason none (w ∷ ws) t u h = elim h [ ]
added_reason (some v) [] t u h = elim h [ ]

module _ {S : Type 0} where
  abbrev Matches : Visit (Option Text) S → Visit (List Text) S → Type 0
  Matches (go_on o st s) (go_on os st' s') = SameReasons o os × (st' ≡ st) × (s' ≡ s)
  Matches (stop st s r) (stop st' s' r') = (st' ≡ st) × (s' ≡ s) × (r' ≡ r)
  Matches (go_on o st s) (stop st' s' r') = ⊥
  Matches (stop st s r) (go_on os st' s') = ⊥

  -- The answers, and what the two loops leave behind.
  abbrev Agrees : (ChainStats × S) × Result Decision → (ChainStats × S) × Result Decision → Type 0
  Agrees x y = (y.0 ≡ x.0) × (forget_reason y.1 ≡ forget_reason x.1)

  visited-Matches :
      (node : DecisionNode S) (o : Option Text) (os : List Text) (stats : ChainStats) (s : S)
      (r : Result Bool)
      → node.short_circuit ≡ false
      → SameReasons o os
      → Matches (visited node o stats s r) (visited_all node os stats s r)
  unfolding visited visited_all
  visited-Matches node o os stats s (ok true) off h = (h, refl, refl)
  visited-Matches node o os stats s (ok false) off h = rw off (
    added_reason o os (unwrap_or o (reason_of node.name))
        (node.name ++ codes ": rate limit exceeded") h,
    refl,
    refl,
  )
  visited-Matches node o os stats s (err e) off h = (refl, refl, refl)
  visited-Matches node o os stats s panic off h = (refl, refl, refl)

  visit-Matches :
      (node : DecisionNode S) (o : Option Text) (os : List Text) (stats : ChainStats) (s : S)
      → node.short_circuit ≡ false
      → SameReasons o os
      → Matches (visit node o stats s) (visit_all node os stats s)
  unfolding visit visit_all check_node visited visited_all
  visit-Matches node o os stats s off h = elim (Bool-cases node.enabled) [
    | inl on ↦ rw on (visited-Matches node o os stats _ _ off h)
    | inr off ↦ rw off (h, refl, refl)
  ]

  loops-Agrees :
      (nodes : List (DecisionNode S)) (o : Option Text) (os : List Text) (stats : ChainStats)
      (s : S)
      → All (λ n. n.short_circuit ≡ false) nodes
      → SameReasons o os
      → Agrees (check_from nodes o stats s) (check_all_from nodes os stats s)
  unfolding check_from check_all_from
  loops-Agrees [] none [] stats s a h = (refl, refl)
  loops-Agrees [] (some t) (u ∷ us) stats s a h = (refl, refl)
  loops-Agrees [] none (u ∷ us) stats s a h = elim h [ ]
  loops-Agrees [] (some t) [] stats s a h = elim h [ ]
  loops-Agrees (node ∷ rest) o os stats s a h =
      go (λ p ps st t same. loops-Agrees rest p ps st t a.1 same) (visit node o stats s)
        (visit_all node os stats s) (visit-Matches node o os stats s a.0 h)
    where
      go :
          ((p : Option Text) (ps : List Text) (st : ChainStats) (t : S)
            → SameReasons p ps
            → Agrees (check_from rest p st t) (check_all_from rest ps st t))
          → (v : Visit (Option Text) S) (w : Visit (List Text) S) → Matches v w
          → Agrees
              (elim v as (λ x. (ChainStats × S) × Result Decision) [
                | go_on o st t ↦ check_from rest o st t
                | stop st t r ↦ ((st, t), r)
              ])
              (elim w as (λ x. (ChainStats × S) × Result Decision) [
                | go_on o st t ↦ check_all_from rest o st t
                | stop st t r ↦ ((st, t), r)
              ])
      go ih (go_on p st t) (go_on ps st' t') (same, e, e') = rw (e, e') (ih p ps st t same)
      go ih (stop st t r) (stop st' t' r') (e, e', e'') = ground arith
      go ih (go_on o st s) (stop st' s' r') h = elim h [ ]
      go ih (stop st s r) (go_on os st' s') h = elim h [ ]

  -- Where no node short-circuits, `check_all` asks the same limiters as `check`, counts the same, and
  -- gives the same answer up to the text of the reason.
  pub check_all-check :
      (chain : DecisionChain S) (s : S)
      → All (λ n. n.short_circuit ≡ false) chain.nodes
      → ((check_all chain s).0 ≡ (check chain s).0)
        × (forget_reason (check_all chain s).1 ≡ forget_reason (check chain s).1)
  unfolding check check_all
  check_all-check chain s a =
      let (same, answer) = loops-Agrees chain.nodes none [] (count_check chain.stats) s a tt in
      (ap (λ x. (record chain { stats = x.0 }, x.1)) same, answer)
