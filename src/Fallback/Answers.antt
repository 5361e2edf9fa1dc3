-- ===== src/Fallback/Answers.antt =====
-- What the caller gets when an operation fails.
use limiteron.Common.{◌≡◌, ◌≢◌, refl, true, unwrap_or}
use limiteron.Errors.{FlowGuardError, Result, ok, err}
use limiteron.Fallback.{
  ComponentType, FallbackManager, FallbackStrategy, fail_open, fail_closed, degraded,
  default_config, get_strategy, answered, execute_fallback, execute_with_fallback,
}

refuses :
    {S T : Type 0} (strategy : FallbackStrategy) (fallback : S → S × Result T) (s : S) (value : T)
    → strategy ≢ degraded
    → ((execute_fallback strategy fallback s).0 ≡ s)
      × ((execute_fallback strategy fallback s).1 ≢ ok value)
unfolding execute_fallback
refuses fail_open fallback s value h = (refl, λ e. cc)
refuses fail_closed fallback s value h = (refl, λ e. cc)
refuses degraded fallback s value h = absurd (h refl)

-- Under an enabled strategy other than `Degraded`, `FailOpen` included, a call whose operation fails
-- never answers with a value, and the fallback is not run.
pub failed_call_refuses :
    {S T : Type 0} (component : ComponentType) (operation fallback : S → S × Result T)
    (m : FallbackManager) (s : S) (e : FlowGuardError) (value : T)
    → (unwrap_or (get_strategy component m) default_config).enabled ≡ true
    → (unwrap_or (get_strategy component m) default_config).strategy ≢ degraded
    → (operation s).1 ≡ err e
    → let ((m', s'), answer) = execute_with_fallback component operation fallback m s in
      (s' ≡ (operation s).0) × (answer ≢ ok value)
unfolding execute_with_fallback answered
failed_call_refuses component operation fallback m s e value on other fails =
    let strategy = (unwrap_or (get_strategy component m) default_config).strategy in
    rw on (rw fails (refuses strategy fallback (operation s).0 value other))
