-- ===== src/Governor.antt =====
-- src/governor.rs: the check of a request, in the build without the feature `parallel-checker`. `S`
-- is the state that the limiters keep together; a call of `check` runs without others beside it. The
-- chain of a rule keeps its statistics in the map of the chains.
pub mod Rules
pub mod Check
pub mod Counts
mod Tests
use limiteron.Common.{
  ℕ, true, List, [], ◌∷◌, Option, none, some, Text, Text_key, codes, add_u64, lookup, insert,
}
use limiteron.Errors.{
  Decision, allowed, rejected, banned, literal, config_error, Result, ok, err, panic,
}
use limiteron.DecisionChain.{DecisionChain}
use limiteron.DecisionChain as Chain
use limiteron.Matchers.IpRanges.{Parsers}
use limiteron.Matchers.Context.{RequestContext}
use limiteron.Matchers.Rules.{Rule, RuleMatcher, match_all}
use limiteron.Matchers.Extractors.{
  Identifier, CompositeExtractor, extract_composite, extract_user_id, extract_ip, extract_api_key,
}

-- The counters of `Governor`.
pub record Counters : Type 0 where
  pub total_requests : ℕ
  pub allowed_requests : ℕ
  pub rejected_requests : ℕ
  pub banned_requests : ℕ
  pub error_count : ℕ

pub record Governor (S : Type 0) : Type 0 where
  pub decision_chain : DecisionChain S
  pub rule_matcher : RuleMatcher
  pub rule_chains : List (Text × DecisionChain S)
  pub identifier_extractor : CompositeExtractor
  pub counters : Counters

-- The extractor that `new` puts together.
abbrev pub default_extractor : (Text → Text) → Parsers → CompositeExtractor
default_extractor to_lowercase std = record {
  extractors =
      extract_user_id to_lowercase std (record {
        header_name = some (codes "X-User-Id");
        query_param_name = none;
        default_user_id = none;
      })
      ∷ extract_ip to_lowercase std (record { header_names = []; validate = true })
      ∷ extract_api_key to_lowercase std (record {
        header_name = some (codes "X-API-Key");
        query_param_name = none;
        prefix = none;
      })
      ∷ [];
  fallback_to_default = true;
}

-- The counter that goes with an answer.
unfoldable pub count_answer : Result Decision → Counters → Counters
count_answer (ok (allowed r)) c = record c { allowed_requests = add_u64 c.allowed_requests 1 }
count_answer (ok (rejected r)) c = record c { rejected_requests = add_u64 c.rejected_requests 1 }
count_answer (ok (banned b)) c = record c { banned_requests = add_u64 c.banned_requests 1 }
count_answer (err e) c = record c { error_count = add_u64 c.error_count 1 }
count_answer panic c = c

-- What comes of the answer of a rule's chain: the loop goes on where it allows.
unfoldable pub after_chain :
    {A : Type 0} → A → A × Result Decision → Result Decision → A × Result Decision
after_chain here later (ok (allowed r)) = later
after_chain here later (ok (rejected r)) = (here, ok (rejected r))
after_chain here later (ok (banned b)) = (here, ok (banned b))
after_chain here later (err e) = (here, err e)
after_chain here later panic = (here, panic)

module _ {S : Type 0} where
  -- The chain of a rule is asked, if there is one; `later` is the rest of the loop.
  unfoldable pub ask :
      (List (Text × DecisionChain S) → S → (List (Text × DecisionChain S) × S) × Result Decision)
      → Text
      → List (Text × DecisionChain S)
      → S
      → Option (DecisionChain S)
      → (List (Text × DecisionChain S) × S) × Result Decision
  unfolding insert after_chain Chain.check
  ask later id chains s none = later chains s
  ask later id chains s (some chain) =
      let ((chain', s'), r) = Chain.check chain s in
      let chains' = insert id chain' chains in after_chain (chains', s') (later chains' s') r

  -- The loop over the matched rules.
  unfoldable pub check_rules :
      List Rule
      → List (Text × DecisionChain S)
      → S
      → (List (Text × DecisionChain S) × S) × Result Decision
  unfolding lookup ask
  check_rules [] chains s = ((chains, s), ok (allowed none))
  check_rules (rule ∷ rest) chains s =
      ask (check_rules rest) rule.id chains s (lookup rule.id chains)

  -- The part of `check` after the match of the rules, for the rules that matched.
  unfoldable pub check_matched : Governor S → S → List Rule → (Governor S × S) × Result Decision
  unfolding check_rules count_answer Chain.check
  check_matched g s [] =
      let ((chain, s'), r) = Chain.check g.decision_chain s in
      ((record g { decision_chain = chain; counters = count_answer r g.counters }, s'), r)
  check_matched g s (rule ∷ rest) =
      let ((chains, s'), r) = check_rules (rule ∷ rest) g.rule_chains s in
      ((record g { rule_chains = chains; counters = count_answer r g.counters }, s'), r)

  unfoldable pub check_found :
      Governor S → S → Result (List Rule) → (Governor S × S) × Result Decision
  unfolding check_matched
  check_found g s (ok rules) = check_matched g s rules
  check_found g s (err e) = ((g, s), err e)
  check_found g s panic = ((g, s), panic)

  unfoldable pub check_identified :
      Governor S → S → RequestContext → Option Identifier → (Governor S × S) × Result Decision
  unfolding check_found match_all
  check_identified g s context none =
      ((g, s), err (config_error (literal "Failed to extract identifier")))
  check_identified g s context (some identifier) =
      check_found g s (match_all context g.rule_matcher.rules)

  unfoldable pub count_request : Governor S → Governor S
  count_request g =
      let c = g.counters in
      record g { counters = record c { total_requests = add_u64 c.total_requests 1 } }

  unfoldable pub check :
      (Text → Text) → Parsers → RequestContext → Governor S → S → (Governor S × S) × Result Decision
  unfolding count_request check_identified extract_composite
  check to_lowercase std context g s =
      check_identified (count_request g) s context
        (extract_composite to_lowercase std g.identifier_extractor context)
