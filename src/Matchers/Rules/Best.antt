-- ===== src/Matchers/Rules/Best.antt =====
-- src/matchers/mod.rs: which rule `matches` answers with.
use limiteron.Common.{
  Bool-cases, inl, inr, ℕ, ◌≤◌, Bool, true, false, List, [], ◌∷◌, Option, none, some, ◌≡◌, refl,
  All, arith, if◌then◌else◌,
}
use limiteron.Errors.{Result, ok, err, panic, Ensures, ◌>>=◌}
use limiteron.Matchers.Context.{RequestContext}
use limiteron.Matchers.Rules.{Rule, RuleMatcher, applies, first_match, matches, match_all}
use limiteron.Matchers.Rules.Order.{IsSorted}

-- An enabled rule whose condition holds.
abbrev pub Applies : RequestContext → Rule → Type 0
Applies context rule = (rule.enabled ≡ true) × (rule.condition context ≡ ok true)

applies-Applies :
    (context : RequestContext) (rule : Rule)
    → (applies context rule ≡ ok true → Applies context rule)
      × (applies context rule ≡ ok false → ¬ Applies context rule)
unfolding applies
applies-Applies context rule = elim (Bool-cases rule.enabled) [
  | inl e ↦ rw e ((λ f. (refl, f)), λ f g. ground arith)
  | inr e ↦ rw e ((λ f. absurd (ground arith)), λ f g. ground arith)
]

-- A rule of `rules` that applies, and before which none does: no rule that applies has a higher
-- priority when they are sorted.
abbrev pub Best : RequestContext → List Rule → Option Rule → Type 0
Best context rules none = All (λ r. ¬ Applies context r) rules
Best context rules (some rule) =
    Applies context rule × All (λ r. Applies context r → r.priority ≤ rule.priority) rules

below :
    (context : RequestContext) (rule : Rule) (rules : List Rule)
    → All (λ r. r.priority ≤ rule.priority) rules
    → All (λ r. Applies context r → r.priority ≤ rule.priority) rules
below context rule [] h = tt
below context rule (r ∷ rest) h = ((λ _. h.0), below context rule rest h.1)

pub first_match-Best :
    (context : RequestContext) (rules : List Rule)
    → IsSorted rules
    → Ensures (Best context rules) (first_match context rules)
unfolding first_match
first_match-Best context [] sorted = tt
first_match-Best context (rule ∷ rest) sorted =
    go (applies context rule) refl (first_match context rest)
      (first_match-Best context rest sorted.1)
  where
    go :
        (r : Result Bool)
        → applies context rule ≡ r
        → (later : Result (Option Rule)) → Ensures (Best context rest) later
        → Ensures
            (Best context (rule ∷ rest))
            (r >>= λ found. if found then ok (some rule) else later)
    go (ok true) e later h =
        ((applies-Applies context rule).0 e, ((λ _. omega arith), below context rule rest sorted.0))
    go (ok false) e (ok none) h = ((applies-Applies context rule).1 e, h)
    go (ok false) e (ok (some best)) h =
        (h.0, ((λ f. absurd ((applies-Applies context rule).1 e f)), h.1))
    go (ok false) e (err x) h = tt
    go (ok false) e panic h = tt
    go (err x) e later h = tt
    go panic e later h = tt

-- With the rules sorted, `matches` answers with a rule that applies to the request and than which no
-- rule that applies has a higher priority, and with none only when no rule applies.
pub matches-Best :
    (elapsed now : ℕ) (context : RequestContext) (matcher : RuleMatcher)
    → IsSorted matcher.rules
    → Ensures (Best context matcher.rules) (matches elapsed now context matcher).1
unfolding matches
matches-Best elapsed now context matcher sorted = first_match-Best context matcher.rules sorted

-- The first of the rules.
abbrev pub head : List Rule → Option Rule
head [] = none
head (rule ∷ rest) = some rule

-- `matches` answers with the first of the rules that `match_all` answers with, on every request on
-- which `match_all` answers.
pub matches-match_all :
    (elapsed now : ℕ) (context : RequestContext) (matcher : RuleMatcher) (found : List Rule)
    → match_all context matcher.rules ≡ ok found
    → (matches elapsed now context matcher).1 ≡ ok (head found)
unfolding matches match_all first_match
matches-match_all elapsed now context matcher found e = same matcher.rules found e
  where
    same :
        (rules found : List Rule)
        → match_all context rules ≡ ok found
        → first_match context rules ≡ ok (head found)
    same [] found e = ground arith
    same (rule ∷ rest) found e =
        step (applies context rule) (match_all context rest) (first_match context rest) found
          (same rest) e
      where
        step :
            (r : Result Bool) (later : Result (List Rule)) (first : Result (Option Rule))
            (found : List Rule)
            → ((f : List Rule) → later ≡ ok f → first ≡ ok (head f))
            → (r >>= λ b. later >>= λ others. ok (if b then rule ∷ others else others)) ≡ ok found
            → (r >>= λ b. if b then ok (some rule) else first) ≡ ok (head found)
        step (ok true) (ok others) first found ih e = ground arith
        step (ok false) (ok others) first found ih e = ground (arith, ih others refl)
        step (ok true) (err x) first found ih e = absurd (ground arith)
        step (ok true) panic first found ih e = absurd (ground arith)
        step (ok false) (err x) first found ih e = absurd (ground arith)
        step (ok false) panic first found ih e = absurd (ground arith)
        step (err x) later first found ih e = absurd (ground arith)
        step panic later first found ih e = absurd (ground arith)
