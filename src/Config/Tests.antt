-- ===== src/Config/Tests.antt =====
-- A configuration with one rule.
use limiteron.Common.{ℕ, false, [], ◌∷◌, codes, ◌≡◌, ◌↔◌}
use limiteron.Config.{
  Values, user, token_bucket, FlowControlConfig, Rule, default_global, default_action,
}
use limiteron.Config.Validate.{valid, validate}
use limiteron.Config.Valid.{IsValidConfig, validate_iff}

abbrev values : Values
values = record { Json = ℕ; is_null = λ j. false; F64 = ℕ; not_positive = λ x. false }

abbrev rule : Rule values
rule = record {
  id = codes "test_rule";
  name = codes "Test Rule";
  priority = 100;
  matchers = user (codes "*" ∷ []) ∷ [];
  limiters = token_bucket 1000 100 ∷ [];
  action = default_action values;
}

abbrev config : FlowControlConfig values
config = record { version = codes "1.0"; global = default_global; rules = rule ∷ [] }

validate_iff_example : (validate values config ≡ valid) ↔ IsValidConfig values config
validate_iff_example = validate_iff values config
