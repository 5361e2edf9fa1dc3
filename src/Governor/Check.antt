-- ===== src/Governor/Check.antt =====
-- src/governor.rs: which requests pass.
use limiteron.Common.{
  List, [], ◌∷◌, Option, none, some, Text, Text_key, lookup, insert, ◌≡◌, ◌↔◌, refl, arith,
}
use limiteron.Errors.{Decision, allowed, rejected, banned, Result, ok, err, panic}
use limiteron.DecisionChain.{DecisionChain}
use limiteron.DecisionChain as Chain
use limiteron.Matchers.IpRanges.{Parsers}
use limiteron.Matchers.Context.{RequestContext}
use limiteron.Matchers.Rules.{Rule, match_all}
use limiteron.Matchers.Extractors.{Identifier, extract_composite}
use limiteron.Governor.{
  Governor, after_chain, ask, check_rules, check_matched, check_found, check_identified,
  count_request, check,
}

-- An allowed chain goes on to what comes later, any other answer ends the loop.
after-Grants :
    (G : Type 0) {A : Type 0} (here : A) (later : A × Result Decision) (r : Result Decision)
    → (later.1 ≡ ok (allowed none)) ↔ G
    → ((after_chain here later r).1 ≡ ok (allowed none))
      ↔ (((reason : Option Text) × (r ≡ ok (allowed reason))) × G)
unfolding after_chain
after-Grants G here later (ok (allowed reason)) i = ((λ e. ((reason, refl), i.0 e)), λ h. i.1 h.1)
after-Grants G here later (ok (rejected t)) i =
    ((λ e. absurd (ground arith)), λ h. absurd (ground arith))
after-Grants G here later (ok (banned b)) i =
    ((λ e. absurd (ground arith)), λ h. absurd (ground arith))
after-Grants G here later (err x) i = ((λ e. absurd (ground arith)), λ h. absurd (ground arith))
after-Grants G here later panic i = ((λ e. absurd (ground arith)), λ h. absurd (ground arith))

module _ {S : Type 0} where
  -- The chain of a rule, if there is one, grants, and so does what comes later; the chain keeps what
  -- the asking made of it, and the limiters keep their state.
  abbrev pub GrantedBy :
      (List (Text × DecisionChain S) → S → Type 0)
      → Text
      → List (Text × DecisionChain S)
      → S
      → Option (DecisionChain S)
      → Type 0
  GrantedBy Later id chains s none = Later chains s
  GrantedBy Later id chains s (some chain) =
      let ((chain', s'), r) = Chain.check chain s in
      ((reason : Option Text) × (r ≡ ok (allowed reason))) × Later (insert id chain' chains) s'

  -- Each rule that has a chain is granted by it, in order.
  abbrev pub Grants : List Rule → List (Text × DecisionChain S) → S → Type 0
  Grants [] chains s = Unit {0}
  Grants (rule ∷ rest) chains s = GrantedBy (Grants rest) rule.id chains s (lookup rule.id chains)

  ask-Grants :
      (G : List (Text × DecisionChain S) → S → Type 0)
      (later : List (Text × DecisionChain S)
        → S
        → (List (Text × DecisionChain S) × S) × Result Decision)
      (id : Text) (chains : List (Text × DecisionChain S)) (s : S) (o : Option (DecisionChain S))
      → ((c : List (Text × DecisionChain S)) (t : S) → ((later c t).1 ≡ ok (allowed none)) ↔ G c t)
      → ((ask later id chains s o).1 ≡ ok (allowed none)) ↔ GrantedBy G id chains s o
  unfolding ask
  ask-Grants G later id chains s none i = i chains s
  ask-Grants G later id chains s (some chain) i =
      let ((chain', s'), r) = Chain.check chain s in
      let chains' = insert id chain' chains in
      after-Grants (G chains' s') (chains', s') (later chains' s') r (i chains' s')

  -- The loop ends with a grant exactly where each rule's chain grants.
  check_rules-Grants :
      (rules : List Rule) (chains : List (Text × DecisionChain S)) (s : S)
      → ((check_rules rules chains s).1 ≡ ok (allowed none)) ↔ Grants rules chains s
  unfolding check_rules
  check_rules-Grants [] chains s = ((λ e. tt), λ t. refl)
  check_rules-Grants (rule ∷ rest) chains s =
      ask-Grants (Grants rest) (check_rules rest) rule.id chains s (lookup rule.id chains)
        (check_rules-Grants rest)

  -- A request that is identified and matches some rules passes exactly if the chains of the matched
  -- rules grant it in turn, in the order in which the rules matched.
  pub check-Grants :
      (to_lowercase : Text → Text) (std : Parsers) (context : RequestContext) (g : Governor S)
      (s : S) (identifier : Identifier) (first : Rule) (others : List Rule)
      → extract_composite to_lowercase std g.identifier_extractor context ≡ some identifier
      → match_all context g.rule_matcher.rules ≡ ok (first ∷ others)
      → ((check to_lowercase std context g s).1 ≡ ok (allowed none))
        ↔ Grants (first ∷ others) g.rule_chains s
  unfolding check check_identified check_found check_matched count_request
  check-Grants to_lowercase std context g s identifier first others e f =
      rw (e, f) (check_rules-Grants (first ∷ others) g.rule_chains s)
