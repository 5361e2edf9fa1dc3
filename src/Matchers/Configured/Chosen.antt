-- ===== src/Matchers/Configured/Chosen.antt =====
-- src/matchers/mod.rs: the rule that a matcher made of a configuration answers with.
use limiteron.Common.{
  ℕ, suc, List, [], ◌∷◌, ◌++◌, Option, none, some, Text, codes, to_decimal, ◌≡◌, refl, arith, ap,
  sym, ◌∙◌, ◌⊎◌, inl, inr, All, Ordering,
}
use limiteron.Common.Search.{Found, IsBinarySearch}
use limiteron.Common.Ranked.{All-imp}
use limiteron.Errors.{Result, ok, err, panic, Decides, ◌>>=◌, Ensures, Ensures-ok}
use limiteron.Config.{Values, Matcher}
use limiteron.Matchers.IpRanges.{Parsers}
use limiteron.Matchers.IpRanges.Parse.{IsParser}
use limiteron.Matchers.Context.{RequestContext}
use limiteron.Matchers.Conditions.{MatchCondition, evaluate}
use limiteron.Matchers.Rules.{Rule, RuleMatcher, new, add_each, first_match, matches}
use limiteron.Matchers.Rules.Order.{new_matcher-IsSorted}
use limiteron.Matchers.Rules.Best.{Applies, Best, first_match-Best}
use limiteron.Matchers.Configured.{
  condition_of, rule_of, rules_from, from_config, rules_from-answer,
}
use limiteron.Matchers.Configured.Asked.{ok_inj, AskedBy, condition_of-decides}
use limiteron.Matchers.Rules.Every.{
  add_each-All, All-add_each, Answers, OfFound, first_match-Answers,
}

module _ (to_lowercase : Text → Text) (std : Parsers) (V : Values) where
  abbrev Configures : ℕ → Matcher V → Rule → Type 0
  Configures index m rule =
      (condition : MatchCondition) × (condition_of to_lowercase std V m ≡ ok condition)
      × (rule ≡ rule_of to_lowercase std V index condition)

  -- Rule by rule what the configured matchers give.
  abbrev Relates : ℕ → List (Matcher V) → List Rule → Type 0
  Relates index [] [] = Unit
  Relates index (m ∷ rest) (rule ∷ rules) = Configures index m rule × Relates (suc index) rest rules
  Relates index _ _ = ⊥

  rules_from-Relates :
      (index : ℕ) (matchers : List (Matcher V))
      → Ensures (Relates index matchers) (rules_from to_lowercase std V index matchers)
  unfolding rules_from
  rules_from-Relates index [] = tt
  rules_from-Relates index (m ∷ rest) =
      go (condition_of to_lowercase std V m) refl (rules_from to_lowercase std V (suc index) rest)
        (rules_from-Relates (suc index) rest)
    where
      go :
          (c : Result MatchCondition)
          → condition_of to_lowercase std V m ≡ c
          → (later : Result (List Rule)) → Ensures (Relates (suc index) rest) later
          → Ensures (Relates index (m ∷ rest)) (
              c >>= λ condition.
              later >>= λ rules. ok (rule_of to_lowercase std V index condition ∷ rules))
      go (ok condition) e (ok rules) h = ((condition, e, refl), h)
      go (ok condition) e (err x) h = tt
      go (ok condition) e panic h = tt
      go (err x) e later h = tt
      go panic e later h = tt

  module _ (context : RequestContext) where
    -- The rule has the identifier of a configured matcher that asks for the request; the matchers are
    -- counted from `index` on.
    abbrev pub Chooses : ℕ → Rule → List (Matcher V) → Type 0
    Chooses index rule [] = ⊥
    Chooses index rule (m ∷ rest) =
        ((rule.id ≡ codes "rule_" ++ to_decimal index) × AskedBy to_lowercase std V context m)
        ⊎ Chooses (suc index) rule rest

    abbrev pub Chosen : List (Matcher V) → Option Rule → Type 0
    Chosen matchers none = All (λ m. ¬ AskedBy to_lowercase std V context m) matchers
    Chosen matchers (some rule) = Chooses 0 rule matchers

    decided :
        (m : Matcher V) (condition : MatchCondition)
        → IsParser std
        → condition_of to_lowercase std V m ≡ ok condition
        → Decides
            (evaluate to_lowercase std condition context)
            (AskedBy to_lowercase std V context m)
    decided m condition documented e =
        Ensures-ok
          (λ c.
            Decides (evaluate to_lowercase std c context) (AskedBy to_lowercase std V context m))
          (condition_of to_lowercase std V m) condition
          (condition_of-decides to_lowercase std V context m documented) e

    Relates-Chooses :
        (index : ℕ) (matchers : List (Matcher V)) (rules : List Rule)
        → IsParser std
        → Relates index matchers rules
        → All (λ r. Applies context r → Chooses index r matchers) rules
    unfolding rule_of
    Relates-Chooses index [] [] documented h = tt
    Relates-Chooses index [] (r ∷ rules) documented h = elim h [ ]
    Relates-Chooses index (m ∷ rest) [] documented h = elim h [ ]
    Relates-Chooses index (m ∷ rest) (r ∷ rules) documented ((condition, e, same), h) = (
      λ a.
          let (b, f, asked) = decided m condition documented e in
          let met = ap (λ (x : Rule). x.condition context) (sym same) ∙ a.1 in
          inl (ap (λ (x : Rule). x.id) same, asked.0 (ok_inj (sym f ∙ met))),
      All-imp (λ (x : Rule). x.priority) _ _ rules (λ x f a. inr (f a))
          (Relates-Chooses (suc index) rest rules documented h),
    )

    Relates-Fails :
        (index : ℕ) (matchers : List (Matcher V)) (rules : List Rule)
        → IsParser std
        → Relates index matchers rules
        → All (λ r. ¬ Applies context r) rules
        → All (λ m. ¬ AskedBy to_lowercase std V context m) matchers
    unfolding rule_of
    Relates-Fails index [] [] documented h n = tt
    Relates-Fails index [] (r ∷ rules) documented h n = elim h [ ]
    Relates-Fails index (m ∷ rest) [] documented h n = elim h [ ]
    Relates-Fails index (m ∷ rest) (r ∷ rules) documented ((condition, e, same), h) n = (
      λ p.
          let (b, f, asked) = decided m condition documented e in
          let met = f ∙ ap ok (asked.1 p) in
          n.0
            (ap (λ (x : Rule). x.enabled) same, ap (λ (x : Rule). x.condition context) same ∙ met),
      Relates-Fails (suc index) rest rules documented h n.1,
    )

-- A matcher made of a configuration answers on every request: with a rule that has the identifier of a
-- configured matcher which asks for the request, and with none only where no configured matcher asks
-- for it. The parsers of `std` give addresses of the width of their type, and the search meets its
-- contract.
pub from_config-matches :
    (to_lowercase : Text → Text) (std : Parsers) (V : Values)
    (search : (Rule → Ordering) → List Rule → Found) (config_matchers : List (Matcher V))
    (matcher : RuleMatcher) (elapsed now : ℕ) (context : RequestContext)
    → IsParser std
    → IsBinarySearch search
    → from_config to_lowercase std V search config_matchers ≡ ok matcher
    → (found : Option Rule) × ((matches elapsed now context matcher).1 ≡ ok found)
      × Chosen to_lowercase std V context config_matchers found
unfolding from_config matches new
from_config-matches to_lowercase std V find config matcher elapsed now context documented contract
      e =
    go (rules_from to_lowercase std V 0 config) refl e
  where
    go :
        (r : Result (List Rule))
        → rules_from to_lowercase std V 0 config ≡ r
        → (r >>= λ rules. ok (new find rules)) ≡ ok matcher
        → (found : Option Rule) × (first_match context matcher.rules ≡ ok found)
          × Chosen to_lowercase std V context config found
    go (err x) f h = absurd (ground arith)
    go panic f h = absurd (ground arith)
    go (ok rules) f h =
        let made : new find rules ≡ matcher = cc in
        let same : matcher.rules ≡ add_each find rules [] =
          ap (λ (m : RuleMatcher). m.rules) (sym made) in
        let relates =
          Ensures-ok (Relates to_lowercase std V 0 config) _ rules
            (rules_from-Relates to_lowercase std V 0 config) f in
        let answers =
          Ensures-ok (All (Answers context)) _ rules
            (rules_from-answer to_lowercase std V context 0 config documented) f in
        let Choosing =
          λ (r : Rule). Applies context r → Chooses to_lowercase std V context 0 r config in
        let (found, asked, chosen) =
          first_match-Answers context Choosing (add_each find rules [])
            (add_each-All (Answers context) find rules [] answers tt)
            (add_each-All Choosing find rules []
              (Relates-Chooses to_lowercase std V context 0 config rules documented relates) tt) in
        let best =
          Ensures-ok (Best context (add_each find rules [])) _ found
            (first_match-Best context (add_each find rules [])
              (new_matcher-IsSorted find contract rules))
            asked in
        (found, rw same asked, conclude found rules relates answers chosen best)
      where
        conclude :
            (found : Option Rule) (rules : List Rule)
            → Relates to_lowercase std V 0 config rules
            → All (Answers context) rules
            → OfFound context
                (λ r. Applies context r → Chooses to_lowercase std V context 0 r config)
                found
            → Best context (add_each find rules []) found
            → Chosen to_lowercase std V context config found
        conclude (some rule) rules relates answers chosen best = chosen best.0
        conclude none rules relates answers chosen best =
            Relates-Fails to_lowercase std V context 0 config rules documented relates
              (All-add_each (λ r. ¬ Applies context r) find rules [] best).0
