-- ===== src/Fallback/Failures.antt =====
-- Which components count as failed, after any calls.
use limiteron.Common.{
  ◌≡◌, ◌∙◌, ap, refl, Bool, true, false, List, [], ◌∷◌, arith, unwrap_or, if◌then◌else◌, ◌==◌,
  lookup-insert, lookup-remove,
}
use limiteron.Errors.{Result, ok, err, panic}
use limiteron.Fallback.{
  ComponentType, ComponentType_key, component_beq_iff, FallbackManager, default_config,
  get_strategy, set_failure, clear_failure, is_failed, answered, execute_with_fallback,
}

-- What happens to a manager: a call whose operation and fallback are given by what they do, a
-- failure that is recorded or injected, and a recovery.
pub data Event (S T : Type 0) : Type 0 where
  call : ComponentType → (S → S × Result T) → (S → S × Result T) → Event S T
  failure recovery : ComponentType → Event S T

unfoldable pub run : {S T : Type 0} → List (Event S T) → FallbackManager × S → FallbackManager × S
unfolding set_failure clear_failure
run [] x = x
run (call component operation fallback ∷ rest) (m, s) =
    run rest (execute_with_fallback component operation fallback m s).0
run (failure component ∷ rest) (m, s) = run rest (set_failure component m, s)
run (recovery component ∷ rest) (m, s) = run rest (clear_failure component m, s)

-- What an operation's answer says of its component; `before` is what was known.
abbrev pub verdict : {T : Type 0} → Result T → Bool → Bool
verdict (ok value) before = false
verdict (err e) before = true
verdict panic before = before

-- The last news of a component.
unfoldable pub last_news :
    {S T : Type 0} → ComponentType → List (Event S T) → FallbackManager × S → Bool → Bool
unfolding set_failure clear_failure
last_news c [] x before = before
last_news c (call component operation fallback ∷ rest) (m, s) before =
    let enabled = (unwrap_or (get_strategy component m) default_config).enabled in
    last_news c rest (execute_with_fallback component operation fallback m s).0 (
      if c == component
      then (if enabled then verdict (operation s).1 before else before)
      else before)
last_news c (failure component ∷ rest) (m, s) before =
    last_news c rest (set_failure component m, s) (if c == component then true else before)
last_news c (recovery component ∷ rest) (m, s) before =
    last_news c rest (clear_failure component m, s) (if c == component then false else before)

set_failure-is_failed :
    (c component : ComponentType) (m : FallbackManager)
    → is_failed c (set_failure component m) ≡ (if c == component then true else is_failed c m)
unfolding is_failed set_failure
set_failure-is_failed c component m =
    ground (arith, lookup-insert component c true m.failure_states, component_beq_iff c component)

clear_failure-is_failed :
    (c component : ComponentType) (m : FallbackManager)
    → is_failed c (clear_failure component m) ≡ (if c == component then false else is_failed c m)
unfolding is_failed clear_failure
clear_failure-is_failed c component m =
    ground (arith, lookup-remove component c m.failure_states, component_beq_iff c component)

module _ {S T : Type 0} where
  called-is_failed :
      (c component : ComponentType) (operation fallback : S → S × Result T) (m : FallbackManager)
      (s : S)
      → is_failed c (execute_with_fallback component operation fallback m s).0.0 ≡ (
          if c == component
          then (if (unwrap_or (get_strategy component m) default_config).enabled
              then verdict (operation s).1 (is_failed c m)
              else is_failed c m)
          else is_failed c m)
  unfolding execute_with_fallback answered
  called-is_failed c component operation fallback m s =
      ground (arith, set_failure-is_failed c component m, clear_failure-is_failed c component m)

  -- A component counts as failed exactly if the last news of it was bad: an operation's error under
  -- an enabled strategy, or a failure that was recorded or injected, with no success and no recovery
  -- after it. News of other components, and calls whose strategy is off, change nothing.
  pub run-last_news :
      (c : ComponentType) (events : List (Event S T)) (m : FallbackManager) (s : S)
      → is_failed c (run events (m, s)).0 ≡ last_news c events (m, s) (is_failed c m)
  unfolding run last_news
  run-last_news c [] m s = refl
  run-last_news c (call component operation fallback ∷ rest) m s =
      let (m', s') = (execute_with_fallback component operation fallback m s).0 in
      run-last_news c rest m' s'
      ∙ ap (last_news c rest (m', s')) (called-is_failed c component operation fallback m s)
  run-last_news c (failure component ∷ rest) m s =
      run-last_news c rest (set_failure component m) s
      ∙ ap (last_news c rest (set_failure component m, s)) (set_failure-is_failed c component m)
  run-last_news c (recovery component ∷ rest) m s =
      run-last_news c rest (clear_failure component m) s
      ∙ ap (last_news c rest (clear_failure component m, s)) (clear_failure-is_failed c component m)
