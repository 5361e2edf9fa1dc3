-- ===== src/Governor/Tests.antt =====
-- A governor with one rule for everyone, whose chain has one limiter.
use limiteron.Common.{
  ℕ, ◌-◌, ◌≡◌, ◌↔◌, refl, Bool, true, false, [], ◌∷◌, none, some, Text, codes, leb, if◌then◌else◌,
  lookup, insert, arith,
}
use limiteron.Errors.{allowed, Result, ok}
use limiteron.DecisionChain.{DecisionChain, new_node, default_stats}
use limiteron.DecisionChain as Chain
use limiteron.Matchers.IpRanges.{Parsers}
use limiteron.Matchers.Context.{new_context}
use limiteron.Matchers.Rules.{Rule, match_all, applies}
use limiteron.Matchers.Rules as Rules
use limiteron.Matchers.Extractors.{user_id, extract_composite, first_of}
use limiteron.Governor.{
  Governor, check, check_identified, check_found, check_matched, check_rules, ask, after_chain,
  count_answer, count_request,
}
use limiteron.Governor.Check.{Grants, check-Grants}
use limiteron.Governor.Counts.{answers, check-counts}

-- A limiter that takes its cost off the shared number.
abbrev counter : ℕ → ℕ → ℕ × Result Bool
counter cost s = if leb cost s then (s - cost, ok true) else (s, ok false)

abbrev chain : DecisionChain ℕ
chain = record {
  nodes = new_node (codes "n") (codes "node") counter 10 ∷ [];
  stats = default_stats;
}

abbrev everyone : Rule
everyone = record {
  id = codes "all";
  name = codes "All";
  priority = 7;
  condition = λ context. ok true;
  enabled = true;
}

abbrev governor : Governor ℕ
governor = record {
  decision_chain = record { nodes = []; stats = default_stats };
  rule_matcher = record { rules = everyone ∷ []; stats = Rules.default_stats };
  rule_chains = (codes "all", chain) ∷ [];
  identifier_extractor = record {
    extractors = (λ context. some (user_id (codes "u"))) ∷ [];
    fallback_to_default = false;
  };
  counters = record {
    total_requests = 4;
    allowed_requests = 3;
    rejected_requests = 1;
    banned_requests = 0;
    error_count = 0;
  };
}

abbrev no_addresses : Parsers
no_addresses = record { parse_ip = λ t. none; parse_ipv4 = λ t. none }

abbrev same : Text → Text
same t = t

check-Grants_example :
    ((check same no_addresses new_context governor 5).1 ≡ ok (allowed none))
    ↔ Grants (everyone ∷ []) governor.rule_chains 5
unfolding extract_composite first_of match_all applies
check-Grants_example =
    check-Grants same no_addresses new_context governor 5 (user_id (codes "u")) everyone [] refl
      refl

passes : (check same no_addresses new_context governor 5).1 ≡ ok (allowed none)
unfolding check check_identified check_found check_matched check_rules ask after_chain count_answer
    count_request extract_composite first_of match_all applies lookup insert Chain.check
    Chain.check_from Chain.visit Chain.visited Chain.check_node Chain.count_check
    Chain.count_allowed
passes = refl

check-counts_example :
    let c = (check same no_addresses new_context governor 5).0.0.counters in
    (answers c ≡ 5) × (c.total_requests ≡ 5)
unfolding extract_composite first_of match_all applies
check-counts_example =
    check-counts same no_addresses new_context governor 5 (user_id (codes "u")) (everyone ∷ []) refl
      refl (omega arith) (omega arith) (λ p. ground (arith, passes))
