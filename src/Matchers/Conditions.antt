-- ===== src/Matchers/Conditions.antt =====
-- src/matchers/mod.rs: conditions. A boxed `ConditionEvaluator` is its `evaluate`, a function that
-- answers or panics; a custom condition is its closure.
pub mod Meaning
use limiteron.Common.{
  ℕ, Bool, true, false, not, ◌||◌, List, [], ◌∷◌, Option, none, some, if◌then◌else◌, Text, Text_key,
  ◌==◌, codes, map,
}
use limiteron.Errors.{Result, ok, err, panic, ◌>>=◌}
use limiteron.Matchers.IpRanges.{IpAddr, IpRange, contains, Parsers}
use limiteron.Matchers.Context.{RequestContext, get_header}

abbrev pub ConditionEvaluator : Type 0
ConditionEvaluator = RequestContext → Result Bool

pub data MatchCondition : Type 0 where
  user : List Text → MatchCondition
  ip : List IpRange → MatchCondition
  geo : List Text → MatchCondition
  api_version : List Text → MatchCondition
  device : List Text → MatchCondition
  custom : (RequestContext → Result Bool) → MatchCondition

pub data LogicalOperator : Type 0 where
  and or negation : LogicalOperator

pub record CompositeCondition : Type 0 where
  pub conditions : List ConditionEvaluator
  pub operator : LogicalOperator

-- `contains` of a list of names.
unfoldable pub has_name : Text → List Text → Bool
has_name name [] = false
has_name name (n ∷ rest) = n == name || has_name name rest

-- The test of a header against a list that may hold `*`.
unfoldable pub listed : List Text → Option Text → Bool
unfolding has_name
listed names (some name) = has_name name names || has_name (codes "*") names
listed names none = has_name (codes "*") names

unfoldable pub any_range : IpAddr → List IpRange → Result Bool
unfolding contains
any_range addr [] = ok false
any_range addr (range ∷ rest) =
    let further = any_range addr rest in
    contains range addr >>= λ found. if found then ok true else further

unfoldable pub all_of : RequestContext → List ConditionEvaluator → Result Bool
all_of context [] = ok true
all_of context (c ∷ rest) =
    let further = all_of context rest in c context >>= λ holds. if holds then further else ok false

unfoldable pub any_of : RequestContext → List ConditionEvaluator → Result Bool
any_of context [] = ok false
any_of context (c ∷ rest) =
    let further = any_of context rest in c context >>= λ holds. if holds then ok true else further

unfoldable pub none_first : RequestContext → List ConditionEvaluator → Result Bool
none_first context [] = ok false
none_first context (c ∷ rest) = c context >>= λ holds. ok (not holds)

-- `CompositeCondition::evaluate`
unfoldable pub evaluate_composite : CompositeCondition → ConditionEvaluator
unfolding all_of any_of none_first
evaluate_composite condition context = elim condition.operator [
  | and ↦ all_of context condition.conditions
  | or ↦ any_of context condition.conditions
  | negation ↦ none_first context condition.conditions
]

-- The test of what the client's address parses to.
unfoldable pub any_range_of : Option IpAddr → List IpRange → Result Bool
unfolding any_range
any_range_of none ranges = ok false
any_range_of (some addr) ranges = any_range addr ranges

module _ (to_lowercase : Text → Text) (std : Parsers) where
  unfoldable pub in_ranges : List IpRange → Option Text → Result Bool
  unfolding any_range_of
  in_ranges ranges none = ok false
  in_ranges ranges (some client_ip) = any_range_of (std.parse_ip client_ip) ranges

  -- `MatchCondition::evaluate`
  unfoldable pub evaluate : MatchCondition → ConditionEvaluator
  unfolding get_header listed in_ranges
  evaluate (user names) context =
      ok (listed names (get_header to_lowercase (codes "X-User-Id") context))
  evaluate (ip ranges) context = in_ranges ranges context.client_ip
  evaluate (geo names) context =
      ok (listed names (get_header to_lowercase (codes "X-Country") context))
  evaluate (api_version names) context =
      ok (listed names (get_header to_lowercase (codes "X-API-Version") context))
  evaluate (device names) context =
      ok (listed names (get_header to_lowercase (codes "X-Device-Type") context))
  evaluate (custom f) context = f context

  -- `clone` puts a condition of no users where each boxed condition was.
  unfoldable pub clone_condition : CompositeCondition → CompositeCondition
  unfolding evaluate
  clone_condition condition = record {
    conditions = map (λ c. evaluate (user [])) condition.conditions;
    operator = condition.operator;
  }
