-- ===== src/DecisionChain/Check.antt =====
-- When `check` lets a request pass, and what a refusal does.
use limiteron.Common.{
  ◌≡◌, ◌↔◌, ◌⊎◌, ◌∙◌, ap, sym, refl, true, false, List, [], ◌∷◌, ◌++◌, none, arith, Bool-cases, inl,
  inr,
}
use mathlib.Core.Path.{subst}
use limiteron.Errors.{allowed, rejected, ok}
use limiteron.DecisionChain.{
  DecisionNode, DecisionChain, ChainStats, enabled_nodes, count_rejection, count_check,
  count_allowed, check_node, visit, visited, stop, check_from, check, reason_of,
}
use limiteron.DecisionChain.Step.{
  Grants, asked, Denies, enabled_nodes-on, enabled_nodes-off, visit-off, visit-granted,
  check_from-resume, check_from-go_on, check_from-stop, granted_or_Denies, Denies-resume,
}

module _ {S : Type 0} where
  check_from-Grants :
      (front back : List (DecisionNode S)) (stats : ChainStats) (s : S)
      → Grants (enabled_nodes front) s
      → check_from (front ++ back) none stats s
        ≡ check_from back none stats (asked (enabled_nodes front) s)
  unfolding enabled_nodes
  check_from-Grants [] back stats s g = refl
  check_from-Grants (node ∷ rest) back stats s g = elim (Bool-cases node.enabled) [
    | inl on ↦
        let shown = enabled_nodes-on node rest on in
        let (granted, g') = subst (λ l. Grants l s) shown g in
        check_from-go_on node (rest ++ back) none none stats stats s _
          (visit-granted node none stats s on granted)
        ∙ check_from-Grants rest back stats _ g'
        ∙ ap (λ l. check_from back none stats (asked l s)) (sym shown)
    | inr off ↦
        let shown = enabled_nodes-off node rest off in
        check_from-go_on node (rest ++ back) none none stats stats s s
          (visit-off node none stats s off)
        ∙ check_from-Grants rest back stats s (subst (λ l. Grants l s) shown g)
        ∙ ap (λ l. check_from back none stats (asked l s)) (sym shown)
  ]

  granted_visit :
      (node : DecisionNode S) (stats : ChainStats) (s : S)
      → node.enabled ≡ true
      → ((node.limiter node.cost s).1 ≡ ok true) ⊎ Denies (visit node none stats s)
  unfolding visit check_node visited
  granted_visit node stats s on = rw on (granted_or_Denies node stats _ _)

  allowed-Grants :
      (nodes : List (DecisionNode S)) (stats : ChainStats) (s : S)
      → (check_from nodes none stats s).1 ≡ ok (allowed none)
      → Grants (enabled_nodes nodes) s
  unfolding enabled_nodes
  allowed-Grants [] stats s h = tt
  allowed-Grants (node ∷ rest) stats s h = elim (Bool-cases node.enabled) [
    | inl on ↦
        let shown = enabled_nodes-on node rest on in
        elim (granted_visit node stats s on) [
          | inl granted ↦
              subst (λ l. Grants l s) (sym shown)
                (
                  granted,
                  allowed-Grants rest stats _ (
                      ap (λ x. x.1)
                        (sym (
                          check_from-go_on node rest none none stats stats s _
                            (visit-granted node none stats s on granted)))
                      ∙ h),
                )
          | inr denied ↦ absurd (
              Denies-resume rest (visit node none stats s) denied
                (ap (λ x. x.1) (sym (check_from-resume node rest none stats s)) ∙ h))
        ]
    | inr off ↦
        subst (λ l. Grants l s) (sym (enabled_nodes-off node rest off))
          (allowed-Grants rest stats s (
            ap (λ x. x.1)
              (sym (
                check_from-go_on node rest none none stats stats s s
                  (visit-off node none stats s off)))
            ∙ h))
  ]

  append_nil : (nodes : List (DecisionNode S)) → nodes ++ [] ≡ nodes
  append_nil [] = refl
  append_nil (node ∷ rest) = ap (λ l. node ∷ l) (append_nil rest)

  all_granted :
      (nodes : List (DecisionNode S)) (stats : ChainStats) (s : S)
      → Grants (enabled_nodes nodes) s
      → check_from nodes none stats s
        ≡ ((count_allowed stats, asked (enabled_nodes nodes) s), ok (allowed none))
  unfolding check_from
  all_granted nodes stats s g =
      ap (λ l. check_from l none stats s) (sym (append_nil nodes))
      ∙ check_from-Grants nodes [] stats s g

  -- A request passes exactly if every enabled node, asked in the chain's order and each in the state
  -- that the one before left, grants its cost. It is then counted, and each was asked once.
  pub check-allows_iff :
      (chain : DecisionChain S) (s : S)
      → (((check chain s).1 ≡ ok (allowed none)) ↔ Grants (enabled_nodes chain.nodes) s)
        × (Grants (enabled_nodes chain.nodes) s
            → (check chain s).0 ≡ (
              record chain { stats = count_allowed (count_check chain.stats) },
              asked (enabled_nodes chain.nodes) s,
            ))
  unfolding check
  check-allows_iff chain s =
      let stats = count_check chain.stats in
      (
        (
          λ h. allowed-Grants chain.nodes stats s h,
          λ g. ap (λ x. x.1) (all_granted chain.nodes stats s g),
        ),
        λ g. ap (λ x. (record chain { stats = x.0.0 }, x.0.1)) (all_granted chain.nodes stats s g),
      )

  visit-short_circuits :
      (node : DecisionNode S) (stats : ChainStats) (s : S)
      → node.enabled ≡ true
      → node.short_circuit ≡ true
      → (node.limiter node.cost s).1 ≡ ok false
      → visit node none stats s
        ≡ stop
            (count_rejection node.id stats)
            (node.limiter node.cost s).0
            (ok (rejected (reason_of node.name)))
  unfolding visit visited check_node
  visit-short_circuits node stats s on short refuses = ground arith

  -- The first node that refuses ends a call, if it short-circuits: its name is the reason, the call is
  -- counted for it, and no limiter behind it is asked.
  pub check-short_circuits :
      (chain : DecisionChain S) (front back : List (DecisionNode S)) (node : DecisionNode S) (s : S)
      → chain.nodes ≡ front ++ (node ∷ back)
      → Grants (enabled_nodes front) s
      → node.enabled ≡ true
      → node.short_circuit ≡ true
      → (node.limiter node.cost (asked (enabled_nodes front) s)).1 ≡ ok false
      → check chain s ≡ (
        (
          record chain { stats = count_rejection node.id (count_check chain.stats) },
          (node.limiter node.cost (asked (enabled_nodes front) s)).0,
        ),
        ok (rejected (reason_of node.name)),
      )
  unfolding check
  check-short_circuits chain front back node s e g on short refuses =
      let stats = count_check chain.stats in
      let t = asked (enabled_nodes front) s in
      let run : check_from chain.nodes none stats s ≡ (
        (count_rejection node.id stats, (node.limiter node.cost t).0),
        ok (rejected (reason_of node.name)),
      ) =
        ap (λ l. check_from l none stats s) e
        ∙ check_from-Grants front (node ∷ back) stats s g
        ∙ check_from-stop node back none stats _ t _ _
            (visit-short_circuits node stats t on short refuses) in
      ap (λ x. ((record chain { stats = x.0.0 }, x.0.1), x.1)) run
