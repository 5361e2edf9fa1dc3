-- ===== src/Governor/Counts.antt =====
-- src/governor.rs: the counters of the governor.
use limiteron.Common.{
  ℕ, ◌+◌, ◌<◌, ◌≡◌, ◌≢◌, refl, ap, ◌∙◌, List, [], ◌∷◌, some, Text, u64_mod, arith,
}
use limiteron.Errors.{Decision, allowed, rejected, banned, Result, ok, err, panic}
use limiteron.Matchers.IpRanges.{Parsers}
use limiteron.Matchers.Context.{RequestContext}
use limiteron.Matchers.Rules.{Rule, match_all}
use limiteron.Matchers.Extractors.{Identifier, extract_composite}
use limiteron.Governor.{
  Governor, Counters, count_answer, check_matched, check_found, check_identified, count_request,
  check,
}

-- The requests that were answers, over all kinds of answers.
abbrev pub answers : Counters → ℕ
answers c = c.allowed_requests + c.rejected_requests + c.banned_requests + c.error_count

count_answer-answers :
    (r : Result Decision) (c : Counters)
    → answers c + 1 < u64_mod
    → r ≢ panic
    → (answers (count_answer r c) ≡ answers c + 1)
      × ((count_answer r c).total_requests ≡ c.total_requests)
unfolding count_answer
count_answer-answers (ok (allowed t)) c h n = ground arith
count_answer-answers (ok (rejected t)) c h n = ground arith
count_answer-answers (ok (banned b)) c h n = ground arith
count_answer-answers (err e) c h n = ground arith
count_answer-answers panic c h n = absurd (n refl)

module _ {S : Type 0} where
  check_matched-counts :
      (g : Governor S) (s : S) (rules : List Rule)
      → answers g.counters + 1 < u64_mod
      → (check_matched g s rules).1 ≢ panic
      → let c = (check_matched g s rules).0.0.counters in
        (answers c ≡ answers g.counters + 1) × (c.total_requests ≡ g.counters.total_requests)
  unfolding check_matched
  check_matched-counts g s [] h n = count_answer-answers _ g.counters h n
  check_matched-counts g s (rule ∷ rest) h n = count_answer-answers _ g.counters h n

  requested :
      (g : Governor S)
      → g.counters.total_requests + 1 < u64_mod
      → (count_request g).counters.total_requests ≡ g.counters.total_requests + 1
  unfolding count_request
  requested g h = omega arith

  same : (g : Governor S) → answers (count_request g).counters ≡ answers g.counters
  unfolding count_request
  same g = refl

  requested-answers :
      (g : Governor S)
      → answers g.counters + 1 < u64_mod
      → answers (count_request g).counters + 1 < u64_mod
  requested-answers g h = omega (arith, same g)

  checked :
      (to_lowercase : Text → Text) (std : Parsers) (context : RequestContext) (g : Governor S)
      (s : S) (identifier : Identifier) (rules : List Rule)
      → extract_composite to_lowercase std g.identifier_extractor context ≡ some identifier
      → match_all context g.rule_matcher.rules ≡ ok rules
      → check to_lowercase std context g s ≡ check_matched (count_request g) s rules
  unfolding check check_identified check_found count_request
  checked to_lowercase std context g s identifier rules e f = rw (e, f) refl

  -- A request that is identified, and whose check does not panic, is counted once among the requests
  -- and once among the answers; the counts stay below 2^64.
  pub check-counts :
      (to_lowercase : Text → Text) (std : Parsers) (context : RequestContext) (g : Governor S)
      (s : S) (identifier : Identifier) (rules : List Rule)
      → extract_composite to_lowercase std g.identifier_extractor context ≡ some identifier
      → match_all context g.rule_matcher.rules ≡ ok rules
      → answers g.counters + 1 < u64_mod
      → g.counters.total_requests + 1 < u64_mod
      → (check to_lowercase std context g s).1 ≢ panic
      → let c = (check to_lowercase std context g s).0.0.counters in
        (answers c ≡ answers g.counters + 1) × (c.total_requests ≡ g.counters.total_requests + 1)
  check-counts to_lowercase std context g s identifier rules e f h k n =
      let q = checked to_lowercase std context g s identifier rules e f in
      let total = requested g k in
      let (a, b) =
        check_matched-counts (count_request g) s rules (requested-answers g h)
          (λ p. n (ap (λ x. x.1) q ∙ p)) in
      (
        ap (λ x. answers x.0.0.counters) q ∙ a ∙ ap (λ (m : ℕ). m + 1) (same g),
        ap (λ x. x.0.0.counters.total_requests) q ∙ b ∙ total,
      )
