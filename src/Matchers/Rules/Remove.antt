-- ===== src/Matchers/Rules/Remove.antt =====
-- src/matchers/mod.rs: the removal of a rule.
use limiteron.Common.{
  Bool, true, false, List, [], ◌∷◌, ◌++◌, Option, none, some, Text, Text_key, text_beq,
  text_beq_iff, ◌≡◌, ◌≢◌, refl, ap, All, arith, if◌then◌else◌,
}
use limiteron.Matchers.Rules.{Rule, remove_rule}

-- The rules without the first one of an identifier, which is answered; when there is none, the rules
-- as they are.
abbrev pub Removed : Text → List Rule → List Rule × Option Rule → Type 0
Removed rule_id rules (after, some rule) =
    (front : List Rule) × (back : List Rule) × (rules ≡ front ++ (rule ∷ back))
    × (after ≡ front ++ back)
    × (rule.id ≡ rule_id)
    × All (λ (r : Rule). r.id ≢ rule_id) front
Removed rule_id rules (after, none) = (after ≡ rules) × All (λ (r : Rule). r.id ≢ rule_id) rules

-- `remove_rule` takes the first rule of the identifier out and answers with it; it changes nothing and
-- answers with none exactly when no rule has the identifier.
pub remove_rule_lem :
    (rule_id : Text) (rules : List Rule) → Removed rule_id rules (remove_rule rule_id rules)
unfolding remove_rule
remove_rule_lem rule_id [] = (refl, tt)
remove_rule_lem rule_id (rule ∷ rest) =
    step (text_beq rule.id rule_id) (text_beq_iff rule.id rule_id) (remove_rule rule_id rest)
      (remove_rule_lem rule_id rest)
  where
    step :
        (b : Bool)
        → (b ≡ true → rule.id ≡ rule_id) × (rule.id ≡ rule_id → b ≡ true)
        → (further : List Rule × Option Rule) → Removed rule_id rest further
        → Removed rule_id
            (rule ∷ rest)
            (if b then (rest, some rule) else (rule ∷ further.0, further.1))
    step true i further h = ([], rest, refl, refl, i.0 refl, tt)
    step false i (after, some r) (front, back, e, f, g, a) = (
      rule ∷ front,
      back,
      ap (λ l. rule ∷ l) e,
      ap (λ l. rule ∷ l) f,
      g,
      ((λ t. ground arith), a),
    )
    step false i (after, none) (e, a) = (ap (λ l. rule ∷ l) e, ((λ t. ground arith), a))
