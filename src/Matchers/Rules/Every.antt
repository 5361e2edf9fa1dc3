-- ===== src/Matchers/Rules/Every.antt =====
-- src/matchers/mod.rs: what holds of every rule of a matcher holds of the one that is found.
use limiteron.Common.{
  Bool, true, false, List, [], ◌∷◌, Option, none, some, ◌≡◌, refl, All, Ordering, if◌then◌else◌,
}
use limiteron.Common.Search.{Found}
use limiteron.Common.Ranked.{insert_at-All, All-insert_at}
use limiteron.Errors.{Result, ok, ◌>>=◌}
use limiteron.Matchers.Context.{RequestContext}
use limiteron.Matchers.Conditions.Meaning.{Answering}
use limiteron.Matchers.Rules.{Rule, add_each, add_rule, first_match, applies}

module _ (P : Rule → Type 0) (search : (Rule → Ordering) → List Rule → Found) where
  pub add_each-All :
      (added rules : List Rule) → All P added → All P rules → All P (add_each search added rules)
  unfolding add_each add_rule
  add_each-All [] rules h f = f
  add_each-All (rule ∷ rest) rules h f =
      add_each-All rest (add_rule search rule rules) h.1
        (insert_at-All (λ (r : Rule). r.priority) P _ rule rules h.0 f)

  pub All-add_each :
      (added rules : List Rule) → All P (add_each search added rules) → All P added × All P rules
  unfolding add_each add_rule
  All-add_each [] rules h = (tt, h)
  All-add_each (rule ∷ rest) rules h =
      let (later, others) = All-add_each rest (add_rule search rule rules) h in
      let (first, kept) = All-insert_at (λ (r : Rule). r.priority) P _ rule rules others in
      ((first, later), kept)

module _ (context : RequestContext) where
  abbrev pub Answers : Rule → Type 0
  Answers r = Answering context r.condition

  -- A predicate of the rule that was found, if one was.
  abbrev pub OfFound : (Rule → Type 0) → Option Rule → Type 0
  OfFound P none = Unit
  OfFound P (some rule) = P rule

  pub first_match-Answers :
      (P : Rule → Type 0) (rules : List Rule)
      → All Answers rules
      → All P rules
      → (found : Option Rule) × (first_match context rules ≡ ok found) × OfFound P found
  unfolding first_match applies
  first_match-Answers P [] h p = (none, refl, tt)
  first_match-Answers P (rule ∷ rest) h p =
      step rule.enabled (h.0) (first_match context rest) (first_match-Answers P rest h.1 p.1)
    where
      step :
          (enabled : Bool)
          → (b : Bool) × (rule.condition context ≡ ok b)
          → (later : Result (Option Rule))
          → (found : Option Rule) × (later ≡ ok found) × OfFound P found
          → (found : Option Rule) × ((if enabled then rule.condition context else ok false) >>= λ b.
                if b then ok (some rule) else later)
              ≡ ok found
            × OfFound P found
      step true (true, e) later l = rw e (some rule, refl, p.0)
      step true (false, e) later l = rw e l
      step false b later l = l
