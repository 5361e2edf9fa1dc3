-- ===== src/Matchers/Rules.antt =====
-- src/matchers/mod.rs: the rule matcher. `slice::binary_search_by` is a parameter, since its
-- documentation leaves open which of several rules of one priority it finds. What the clock says is
-- an argument: the time of a match and the nanoseconds since the call began.
pub mod Order
pub mod Best
pub mod Every
pub mod Remove
use limiteron.Common.{
  ℕ, ◌+◌, ◌*◌, ◌/◌, Bool, true, false, List, [], ◌∷◌, Option, none, some, if◌then◌else◌, nat_beq,
  Text, Text_key, ◌==◌, length, add_u64, mul_u64, Ordering,
}
use limiteron.Common.Search.{Found, unwrap_or_else, reverse_cmp}
use limiteron.Common.Ranked.{insert_at}
use limiteron.Errors.{Result, ok, err, panic, ◌>>=◌}
use limiteron.Matchers.Context.{RequestContext}
use limiteron.Matchers.Conditions.{ConditionEvaluator, evaluate, user}
use limiteron.Matchers.IpRanges.{Parsers}

pub record Rule : Type 0 where
  pub id : Text
  pub name : Text
  pub priority : ℕ
  pub condition : ConditionEvaluator
  pub enabled : Bool

pub record MatcherStats : Type 0 where
  pub total_matches : ℕ
  pub total_mismatches : ℕ
  pub last_match_time : Option ℕ
  pub avg_match_time_ns : ℕ

abbrev pub default_stats : MatcherStats
default_stats = record {
  total_matches = 0;
  total_mismatches = 0;
  last_match_time = none;
  avg_match_time_ns = 0;
}

pub record RuleMatcher : Type 0 where
  pub rules : List Rule
  pub stats : MatcherStats

-- `clone` puts a condition of no users where the boxed condition was.
unfoldable pub clone_rule : (Text → Text) → Parsers → Rule → Rule
unfolding evaluate
clone_rule to_lowercase std rule = record rule { condition = evaluate to_lowercase std (user []) }

module _ (binary_search_by : (Rule → Ordering) → List Rule → Found) where
  unfoldable pub add_rule : Rule → List Rule → List Rule
  unfolding insert_at
  add_rule rule rules =
      insert_at
        (unwrap_or_else (binary_search_by (λ r. reverse_cmp r.priority rule.priority) rules)) rule
        rules

  unfoldable pub add_each : List Rule → List Rule → List Rule
  unfolding add_rule
  add_each [] rules = rules
  add_each (rule ∷ rest) rules = add_each rest (add_rule rule rules)

  unfoldable pub new : List Rule → RuleMatcher
  unfolding add_each
  new rules = record { rules = add_each rules []; stats = default_stats }

-- `position` and `Vec::remove`.
unfoldable pub remove_rule : Text → List Rule → List Rule × Option Rule
remove_rule rule_id [] = ([], none)
remove_rule rule_id (rule ∷ rest) =
    let (others, found) = remove_rule rule_id rest in
    if rule.id == rule_id then (rest, some rule) else (rule ∷ others, found)

-- What `matches` and `match_all` ask of a rule.
unfoldable pub applies : RequestContext → Rule → Result Bool
applies context rule = if rule.enabled then rule.condition context else ok false

-- The loop of `matches`.
unfoldable pub first_match : RequestContext → List Rule → Result (Option Rule)
unfolding applies
first_match context [] = ok none
first_match context (rule ∷ rest) =
    let later = first_match context rest in
    applies context rule >>= λ found. if found then ok (some rule) else later

unfoldable pub count_match : ℕ → ℕ → MatcherStats → MatcherStats
count_match elapsed now stats =
    let total = add_u64 stats.total_matches 1 in
    record stats {
      total_matches = total;
      last_match_time = some now;
      avg_match_time_ns =
          if nat_beq total 1
          then elapsed
          else add_u64 (mul_u64 stats.avg_match_time_ns 9) elapsed / 10;
    }

unfoldable pub count_mismatch : MatcherStats → MatcherStats
count_mismatch stats = record stats { total_mismatches = add_u64 stats.total_mismatches 1 }

unfoldable pub count_found : ℕ → ℕ → Result (Option Rule) → MatcherStats → MatcherStats
unfolding count_match count_mismatch
count_found elapsed now (ok (some rule)) stats = count_match elapsed now stats
count_found elapsed now (ok none) stats = count_mismatch stats
count_found elapsed now (err e) stats = stats
count_found elapsed now panic stats = stats

unfoldable pub matches : ℕ → ℕ → RequestContext → RuleMatcher → RuleMatcher × Result (Option Rule)
unfolding first_match count_found
matches elapsed now context matcher =
    let found = first_match context matcher.rules in
    (record matcher { stats = count_found elapsed now found matcher.stats }, found)

unfoldable pub match_all : RequestContext → List Rule → Result (List Rule)
unfolding applies
match_all context [] = ok []
match_all context (rule ∷ rest) =
    let later = match_all context rest in
    applies context rule >>= λ found.
    later >>= λ others. ok (if found then rule ∷ others else others)

unfoldable pub reset_stats : RuleMatcher → RuleMatcher
reset_stats matcher = record matcher { stats = default_stats }

unfoldable pub rule_count : RuleMatcher → ℕ
rule_count matcher = length matcher.rules
