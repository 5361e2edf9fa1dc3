-- ===== src/Fallback/Tests.antt =====
-- Operations on a number: one that works, one that fails.
use limiteron.Common.{ℕ, ◌+◌, ◌≡◌, ◌≢◌, refl, true, [], ◌∷◌, lookup, insert}
use limiteron.Errors.{FlowGuardError, Result, ok, err, other, literal}
use limiteron.Fallback.{
  FallbackManager, redis, ban, fail_open, new, new_config, set_strategy, get_strategy, is_failed,
  set_failure, execute_with_fallback,
}
use limiteron.Fallback.Failures.{call, failure, recovery, run, last_news, run-last_news}
use limiteron.Fallback.Answers.{failed_call_refuses}

abbrev works : ℕ → ℕ × Result ℕ
works s = (s + 1, ok s)

abbrev broken : FlowGuardError
broken = other (literal "broken")

abbrev fails : ℕ → ℕ × Result ℕ
fails s = (s, err broken)

run-last_news_example :
    is_failed redis (run (failure ban ∷ call redis fails works ∷ recovery ban ∷ []) (new, 4)).0
    ≡ true
unfolding last_news new get_strategy lookup is_failed set_failure
run-last_news_example =
    run-last_news redis (failure ban ∷ call redis fails works ∷ recovery ban ∷ []) new 4

abbrev open_for_bans : FallbackManager
unfolding set_strategy new insert
open_for_bans = set_strategy ban (new_config ban fail_open) new

failed_call_refuses_example :
    ((execute_with_fallback ban fails works open_for_bans 4).0.1 ≡ 4)
    × ((execute_with_fallback ban fails works open_for_bans 4).1 ≢ ok 4)
unfolding get_strategy lookup set_strategy new insert
failed_call_refuses_example =
    failed_call_refuses ban fails works open_for_bans 4 broken 4 refl (λ e. cc) refl
