-- ===== src/Matchers/Configured.antt =====
-- src/matchers/mod.rs: `RuleMatcher::from_config`.
pub mod Asked
pub mod Chosen
use mathlib.Core.Path.{subst}
use limiteron.Common.{
  ℕ, suc, Bool, true, false, List, [], ◌∷◌, ◌++◌, Option, none, some, Text, codes, to_decimal, ◌≡◌,
  refl, arith, ap, sym, ◌∙◌, ◌⊎◌, ◌↔◌, Any, inl, inr, All, Ordering, if◌then◌else◌,
}
use limiteron.Common.Search.{Found, IsBinarySearch}
use limiteron.Common.Ranked.{insert_at-All, All-insert_at, All-imp}
use limiteron.Errors.{Result, ok, err, panic, Decides, ◌>>=◌, Ensures, Ensures-bind, Ensures-ok}
use limiteron.Config.{Values, Matcher}
use limiteron.Config as Config
use limiteron.Matchers.IpRanges.{IpAddr, IpRange, Parsers, from_str}
use limiteron.Matchers.IpRanges.Cidr.{InRange, IsValidRange}
use limiteron.Matchers.IpRanges.Parse.{IsParser, from_str-valid}
use limiteron.Matchers.Context.{RequestContext, get_header}
use limiteron.Matchers.Conditions.{
  MatchCondition, user, ip, geo, api_version, device, custom, evaluate,
}
use limiteron.Matchers.Conditions.Meaning.{
  FromRanges, Names, IsValidCondition, Answering, evaluate_lem,
}
use limiteron.Matchers.Rules.{
  Rule, RuleMatcher, new, add_each, add_rule, first_match, applies, matches,
}
use limiteron.Matchers.Rules.Order.{IsSorted, new_matcher-IsSorted}
use limiteron.Matchers.Rules.Best.{Applies, Best, first_match-Best}

-- `collect` of the parsed ranges: the first error ends it.
unfoldable pub parse_ranges : Parsers → List Text → Result (List IpRange)
unfolding from_str
parse_ranges std [] = ok []
parse_ranges std (s ∷ rest) =
    let later = parse_ranges std rest in
    from_str std s >>= λ range. later >>= λ ranges. ok (range ∷ ranges)

module _ (to_lowercase : Text → Text) (std : Parsers) (V : Values) where
  -- The condition of a configured matcher; a custom one never holds.
  unfoldable pub condition_of : Matcher V → Result MatchCondition
  unfolding parse_ranges
  condition_of (Config.user user_ids) = ok (user user_ids)
  condition_of (Config.ip ip_ranges) = parse_ranges std ip_ranges >>= λ ranges. ok (ip ranges)
  condition_of (Config.geo countries) = ok (geo countries)
  condition_of (Config.api_version versions) = ok (api_version versions)
  condition_of (Config.device device_types) = ok (device device_types)
  condition_of (Config.custom name config) = ok (custom (λ context. ok false))

  unfoldable pub rule_of : ℕ → MatchCondition → Rule
  unfolding evaluate to_decimal
  rule_of index condition = record {
    id = codes "rule_" ++ to_decimal index;
    name = codes "Rule " ++ to_decimal index;
    priority = 100;
    condition = evaluate to_lowercase std condition;
    enabled = true;
  }

  unfoldable pub rules_from : ℕ → List (Matcher V) → Result (List Rule)
  unfolding condition_of rule_of
  rules_from index [] = ok []
  rules_from index (matcher ∷ rest) =
      let later = rules_from (suc index) rest in
      condition_of matcher >>= λ condition. later >>= λ rules. ok (rule_of index condition ∷ rules)

  unfoldable pub from_config :
      ((Rule → Ordering) → List Rule → Found) → List (Matcher V) → Result RuleMatcher
  unfolding rules_from new
  from_config search config_matchers =
      rules_from 0 config_matchers >>= λ rules. ok (new search rules)

  pub parse_ranges-valid :
      (ranges : List Text) → IsParser std → Ensures (All IsValidRange) (parse_ranges std ranges)
  unfolding parse_ranges
  parse_ranges-valid [] documented = tt
  parse_ranges-valid (s ∷ rest) documented =
      Ensures-bind IsValidRange (All IsValidRange) (from_str std s) _
        (from_str-valid std documented s)
        (λ range h.
          Ensures-bind (All IsValidRange) (All IsValidRange) (parse_ranges std rest) _
            (parse_ranges-valid rest documented) (λ ranges f. (h, f)))

  abbrev IsGood : MatchCondition → Type 0
  IsGood condition = IsValidCondition to_lowercase std condition

  condition_of-valid : (matcher : Matcher V) → IsParser std → Ensures IsGood (condition_of matcher)
  unfolding condition_of
  condition_of-valid (Config.user user_ids) documented = tt
  condition_of-valid (Config.ip ip_ranges) documented =
      Ensures-bind (All IsValidRange) IsGood (parse_ranges std ip_ranges) _
        (parse_ranges-valid ip_ranges documented) (λ ranges h. h)
  condition_of-valid (Config.geo countries) documented = tt
  condition_of-valid (Config.api_version versions) documented = tt
  condition_of-valid (Config.device device_types) documented = tt
  condition_of-valid (Config.custom name config) documented = λ context. (false, refl)

  -- Every condition of the rules answers on a request.
  abbrev AllAnswer : RequestContext → List Rule → Type 0
  AllAnswer context rules = All (λ (r : Rule). Answering context r.condition) rules

  pub rules_from-answer :
      (context : RequestContext) (index : ℕ) (matchers : List (Matcher V))
      → IsParser std
      → Ensures (AllAnswer context) (rules_from index matchers)
  unfolding rules_from rule_of
  rules_from-answer context index [] documented = tt
  rules_from-answer context index (matcher ∷ rest) documented =
      Ensures-bind IsGood (AllAnswer context) (condition_of matcher) _
        (condition_of-valid matcher documented)
        (λ condition h.
          Ensures-bind (AllAnswer context) (AllAnswer context) (rules_from (suc index) rest) _
            (rules_from-answer context (suc index) rest documented)
            (λ rules f.
              let (b, e, i) = evaluate_lem to_lowercase std condition context documented h in
              ((b, e), f)))
