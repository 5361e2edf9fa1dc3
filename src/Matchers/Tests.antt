-- ===== src/Matchers/Tests.antt =====
-- A matcher of one address block, and the values that the parameters of the matchers can take.
use limiteron.Common.{
  ℕ, ◌/◌, ◌^◌, true, false, List, [], ◌∷◌, Option, none, some, Text, Text_key, codes, ◌==◌,
  if◌then◌else◌, ◌≡◌, refl, arith, has_char, split, parse_unsigned, digits_from, lookup, insert,
  to_decimal, digits_to, trim, trim_start, text_beq, Bool-cases, inl, inr,
}
use limiteron.Common.Search.{first_from, first_from-Answers}
use limiteron.Common.Ranked.{insert_at}
use limiteron.Errors.{ok, Decides}
use limiteron.Config.{Values, Matcher}
use limiteron.Config as Config
use limiteron.Matchers.IpRanges.{
  IpAddr, v4, ipv4_cidr, Parsers, contains, from_str, cidr_from, with_prefix,
}
use limiteron.Matchers.IpRanges.Cidr.{IsValidRange, contains_lem}
use limiteron.Matchers.IpRanges.Parse.{IsParser, from_str-IsValidRange}
use limiteron.Matchers.Context.{
  RequestContext, new_context, with_client_ip, with_header, get_header,
}
use limiteron.Matchers.Conditions.{ip, evaluate}
use limiteron.Matchers.Conditions.Meaning.{Asks, evaluate_lem}
use limiteron.Matchers.Rules.{Rule, RuleMatcher, new, add_each, add_rule, matches, default_stats}
use limiteron.Matchers.Configured.{parse_ranges, condition_of, rule_of, rules_from, from_config}
use limiteron.Matchers.Configured.Chosen.{Chosen, from_config-matches}
use limiteron.Matchers.Extractors.{Identifier, IpExtractor, extract_ip}
use limiteron.Matchers.Extractors as Extractors
use limiteron.Matchers.Extractors.Sources.{extract_ip-leftmost}

-- Two addresses; every other text is none.
abbrev known_address : Text → Option IpAddr
known_address t =
    if t == codes "10.0.0.0"
    then some (v4 167772160)
    else (if t == codes "10.1.2.3" then some (v4 167838211) else none)

abbrev addresses : Parsers
addresses = record { parse_ip = known_address; parse_ipv4 = λ t. none }

abbrev same : Text → Text
same t = t

addresses-IsParser : IsParser addresses
addresses-IsParser = record {
  ip_width = λ t a e. elim (Bool-cases (text_beq t (codes "10.0.0.0"))) [
    | inl f ↦ ground (arith, e)
    | inr f ↦ elim (Bool-cases (text_beq t (codes "10.1.2.3"))) [
      | inl g ↦ ground (arith, e)
      | inr g ↦ absurd (ground (arith, e))
    ]
  ];
  ipv4_width = λ t a e. absurd (ground arith);
}

contains_lem_example :
    Decides
      (contains (ipv4_cidr 167772160 8) (v4 167838211))
      (167838211 / 2 ^ 24 ≡ 167772160 / 2 ^ 24)
contains_lem_example =
    contains_lem (ipv4_cidr 167772160 8) (v4 167838211) (omega arith, omega arith) (omega arith)

from_str_block : from_str addresses (codes "10.0.0.0/8") ≡ ok (ipv4_cidr 167772160 8)
unfolding from_str cidr_from with_prefix has_char split parse_unsigned digits_from
from_str_block = refl

from_str-IsValidRange_example : IsValidRange (ipv4_cidr 167772160 8)
from_str-IsValidRange_example =
    from_str-IsValidRange addresses (codes "10.0.0.0/8") (ipv4_cidr 167772160 8) addresses-IsParser
      from_str_block

abbrev request : RequestContext
unfolding with_client_ip
request = with_client_ip (codes "10.1.2.3") new_context

evaluate_lem_example :
    Decides
      (evaluate same addresses (ip (ipv4_cidr 167772160 8 ∷ [])) request)
      (Asks same addresses (ip (ipv4_cidr 167772160 8 ∷ [])) request)
evaluate_lem_example =
    evaluate_lem same addresses (ip (ipv4_cidr 167772160 8 ∷ [])) request addresses-IsParser
      ((omega arith, omega arith), tt)

abbrev values : Values
values = record { Json = ℕ; is_null = λ j. false; F64 = ℕ; not_positive = λ x. false }

abbrev block : List (Matcher values)
block = Config.ip (codes "10.0.0.0/8" ∷ []) ∷ []

abbrev matcher : RuleMatcher
unfolding rule_of evaluate to_decimal digits_to
matcher = record {
  rules = rule_of same addresses values 0 (ip (ipv4_cidr 167772160 8 ∷ [])) ∷ [];
  stats = default_stats;
}

block_configured : from_config same addresses values first_from block ≡ ok matcher
unfolding from_config rules_from condition_of parse_ranges from_str cidr_from with_prefix has_char
    split parse_unsigned digits_from new add_each add_rule insert_at first_from
block_configured = refl

from_config-matches_example :
    (found : Option Rule) × ((matches 5 9 request matcher).1 ≡ ok found)
    × Chosen same addresses values request block found
from_config-matches_example =
    from_config-matches same addresses values first_from block matcher 5 9 request
      addresses-IsParser (λ f xs p. first_from-Answers f xs p) block_configured

abbrev everyone : Rule
everyone = record {
  id = codes "all";
  name = codes "All";
  priority = 7;
  condition = λ context. ok true;
  enabled = true;
}

abbrev forwarded : RequestContext
unfolding with_header insert
forwarded =
    with_header same (codes "X-Forwarded-For") (codes "10.0.0.0, 10.1.2.3")
      (with_client_ip (codes "10.1.2.3") new_context)

abbrev proxied : IpExtractor
proxied = record { header_names = codes "X-Forwarded-For" ∷ []; validate = true }

extract_ip-leftmost_example :
    extract_ip same addresses proxied forwarded ≡ some (Extractors.ip (codes "10.0.0.0"))
unfolding get_header lookup has_char trim trim_start forwarded with_client_ip
extract_ip-leftmost_example =
    extract_ip-leftmost same addresses proxied [] forwarded (codes "X-Forwarded-For")
      (codes "10.0.0.0") (codes " 10.1.2.3") refl refl refl refl refl refl
