-- ===== src/Fallback.antt =====
-- src/fallback.rs: what is done when an operation of a component fails.
-- An operation is a function on a state `S` of the caller's. The manager's L2 cache is only handed
-- on by it, and is left out.
pub mod Failures
pub mod Answers
mod Tests
use limiteron.Common.{
  ℕ, Bool, true, false, List, [], ◌∷◌, Option, none, some, unwrap_or, if◌then◌else◌, Text, text_beq,
  text_beq_iff, codes, Key, lookup, insert, remove, ◌≡◌, ◌↔◌, arith,
}
use limiteron.Errors.{Result, ok, err, panic, limit_error, storage_error, connection_error, literal}

pub data FallbackStrategy : Type 0 where
  fail_open fail_closed degraded : FallbackStrategy

pub data ComponentType : Type 0 where
  redis postgres l3_cache config ban quota : ComponentType
  other : Text → ComponentType

abbrev pub component_beq : ComponentType → ComponentType → Bool
component_beq redis redis = true
component_beq postgres postgres = true
component_beq l3_cache l3_cache = true
component_beq config config = true
component_beq ban ban = true
component_beq quota quota = true
component_beq (other s) (other t) = text_beq s t
component_beq _ _ = false

pub component_beq_iff : (c d : ComponentType) → (component_beq c d ≡ true) ↔ (c ≡ d)
component_beq_iff (other s) (other t) = ground (arith, text_beq_iff s t)
component_beq_iff redis d = ground arith
component_beq_iff postgres d = ground arith
component_beq_iff l3_cache d = ground arith
component_beq_iff config d = ground arith
component_beq_iff ban d = ground arith
component_beq_iff quota d = ground arith
component_beq_iff (other s) d = ground arith

instance abbrev pub ComponentType_key : Key ComponentType
ComponentType_key = record { test = component_beq; test_iff = component_beq_iff }

pub record FallbackConfig : Type 0 where
  pub component : ComponentType
  pub strategy : FallbackStrategy
  pub enabled : Bool
  pub timeout : ℕ
  pub max_retries : ℕ

abbrev pub default_config : FallbackConfig
default_config = record {
  component = other (codes "default");
  strategy = degraded;
  enabled = true;
  timeout = 5000000000;
  max_retries = 3;
}

abbrev pub new_config : ComponentType → FallbackStrategy → FallbackConfig
new_config component strategy = record default_config { component = component; strategy = strategy }

pub record FallbackManager : Type 0 where
  pub strategies : List (ComponentType × FallbackConfig)
  pub failure_states : List (ComponentType × Bool)

unfoldable pub new : FallbackManager
new = record {
  strategies =
      (redis, new_config redis degraded)
      ∷ (postgres, new_config postgres degraded)
      ∷ (l3_cache, new_config l3_cache degraded)
      ∷ (config, new_config config fail_closed)
      ∷ (ban, new_config ban degraded)
      ∷ (quota, new_config quota degraded)
      ∷ [];
  failure_states = [];
}

unfoldable pub set_strategy : ComponentType → FallbackConfig → FallbackManager → FallbackManager
set_strategy component c m = record m { strategies = insert component c m.strategies }

unfoldable pub get_strategy : ComponentType → FallbackManager → Option FallbackConfig
get_strategy component m = lookup component m.strategies

-- Also `record_failure` and `inject_failure`.
unfoldable pub set_failure : ComponentType → FallbackManager → FallbackManager
set_failure component m = record m { failure_states = insert component true m.failure_states }

-- Also `recover_failure`.
unfoldable pub clear_failure : ComponentType → FallbackManager → FallbackManager
clear_failure component m = record m { failure_states = remove component m.failure_states }

unfoldable pub is_failed : ComponentType → FallbackManager → Bool
is_failed component m = unwrap_or (lookup component m.failure_states) false

unfoldable pub get_failure_count : ComponentType → FallbackManager → ℕ
unfolding is_failed
get_failure_count component m = if is_failed component m then 1 else 0

unfoldable pub execute_fallback :
    {S T : Type 0} → FallbackStrategy → (S → S × Result T) → S → S × Result T
execute_fallback fail_open fallback s = (s, err (limit_error (literal "服务降级，但允许请求通过")))
execute_fallback fail_closed fallback s =
    (s, err (storage_error (connection_error (literal "服务降级，拒绝请求"))))
execute_fallback degraded fallback s = fallback s

-- The `match` on the operation's result; a panic of it unwinds.
unfoldable pub answered :
    {S T : Type 0}
    → ComponentType
    → FallbackStrategy
    → (S → S × Result T)
    → FallbackManager
    → S
    → Result T
    → (FallbackManager × S) × Result T
unfolding execute_fallback set_failure clear_failure
answered component strategy fallback m s (ok value) = ((clear_failure component m, s), ok value)
answered component strategy fallback m s (err e) =
    let (s', r) = execute_fallback strategy fallback s in ((set_failure component m, s'), r)
answered component strategy fallback m s panic = ((m, s), panic)

unfoldable pub execute_with_fallback :
    {S T : Type 0}
    → ComponentType
    → (S → S × Result T)
    → (S → S × Result T)
    → FallbackManager
    → S
    → (FallbackManager × S) × Result T
unfolding get_strategy
execute_with_fallback component operation fallback m s =
    let c = unwrap_or (get_strategy component m) default_config in
    let (s', r) = operation s in
    if c.enabled then answered component c.strategy fallback m s' r else ((m, s'), r)
