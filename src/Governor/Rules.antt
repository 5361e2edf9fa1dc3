-- ===== src/Governor/Rules.antt =====
-- src/governor.rs: the rules of the matcher and the durations of windows, from a configuration.
use limiteron.Common.{List, [], ◌∷◌, Option, none, some, true, Text, Text_key}
use limiteron.Errors.{Result, ok, ◌>>=◌}
use limiteron.Config.{Values, Matcher, FlowControlConfig}
use limiteron.Config as Config
use limiteron.Matchers.IpRanges.{Parsers}
use limiteron.Matchers.Conditions.{ConditionEvaluator, and, evaluate, evaluate_composite}
use limiteron.Matchers.Rules.{Rule}
use limiteron.Matchers.Configured.{condition_of}

module _ (to_lowercase : Text → Text) (std : Parsers) (V : Values) where
  -- The loop over the matchers of a rule.
  unfoldable pub conditions_of : List (Matcher V) → Result (List ConditionEvaluator)
  unfolding condition_of evaluate
  conditions_of [] = ok []
  conditions_of (matcher ∷ rest) =
      let later = conditions_of rest in
      condition_of to_lowercase std V matcher >>= λ condition.
      later >>= λ conditions. ok (evaluate to_lowercase std condition ∷ conditions)

  -- One condition stands alone, more of them under an `and`; a rule without any is left out.
  unfoldable pub final_condition : List ConditionEvaluator → Option ConditionEvaluator
  unfolding evaluate_composite
  final_condition [] = none
  final_condition (c ∷ []) = some c
  final_condition (c ∷ d ∷ rest) =
      some (evaluate_composite (record { conditions = c ∷ d ∷ rest; operator = and }))

  abbrev pub with_condition : Config.Rule V → Option ConditionEvaluator → List Rule → List Rule
  with_condition rule none later = later
  with_condition rule (some condition) later =
      record {
        id = rule.id;
        name = rule.name;
        priority = rule.priority;
        condition = condition;
        enabled = true;
      }
      ∷ later

  unfoldable pub build_from : List (Config.Rule V) → Result (List Rule)
  unfolding conditions_of final_condition
  build_from [] = ok []
  build_from (rule ∷ rest) =
      let later = build_from rest in
      conditions_of rule.matchers >>= λ conditions.
      later >>= λ rules. ok (with_condition rule (final_condition conditions) rules)

  unfoldable pub build_rules : FlowControlConfig V → Result (List Rule)
  unfolding build_from
  build_rules config = build_from config.rules
