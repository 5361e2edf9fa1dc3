-- ===== src/Errors.antt =====
-- src/error.rs: the errors, and the values that operations answer with.
use mathlib.Core.Path.{subst}
use limiteron.Common.{
  ℕ, Bool, true, false, String, List, Option, Text, ◌≡◌, refl, ◌↔◌, ◌⊎◌, inl, if◌then◌else◌, arith,
}

-- The text of an error or a reason: a literal, or `format!` of a template and its arguments.
pub data Field : Type 0 where
  str : String → Field
  chars : Text → Field
  num : ℕ → Field

pub data Message : Type 0 where
  literal : String → Message
  format : String → List Field → Message

pub data StorageError : Type 0 where
  connection_error query_error timeout_error not_found authentication_error permission_error
        invalid_config rate_limit_error validation_error :
      Message → StorageError

unfoldable pub is_transient : StorageError → Bool
is_transient (timeout_error _) = true
is_transient (connection_error _) = true
is_transient (rate_limit_error _) = true
is_transient _ = false

unfoldable pub is_permanent : StorageError → Bool
is_permanent (authentication_error _) = true
is_permanent (permission_error _) = true
is_permanent (invalid_config _) = true
is_permanent _ = false

pub data FlowGuardError : Type 0 where
  config_error : Message → FlowGuardError
  storage_error : StorageError → FlowGuardError
  limit_error ban_error circuit_breaker_error fallback_error audit_log_error io_error serde_error
        yaml_error rate_limit_exceeded quota_exceeded concurrency_limit_exceeded
        flow_validation_error lock_error other :
      Message → FlowGuardError

pub data CircuitState : Type 0 where
  closed opened half_open : CircuitState

pub record ConsumeResult : Type 0 where
  pub allowed : Bool
  pub remaining : ℕ
  pub alert_triggered : Bool

pub record BanInfo : Type 0 where
  pub reason : Text
  pub banned_until : ℕ
  pub ban_times : ℕ

pub data Decision : Type 0 where
  allowed : Option Text → Decision
  rejected : Text → Decision
  banned : BanInfo → Decision

-- The answer of a fallible operation: a value, an error that it returns, or a panic.
pub data Result {ℓ} (A : Type ℓ) : Type ℓ where
  ok : A → Result A
  err : FlowGuardError → Result A
  panic : Result A

infixl 5 ◌>>=◌ ◌>>◌
abbrev pub ◌>>=◌ {ℓ κ} : {A : Type ℓ} {B : Type κ} → Result A → (A → Result B) → Result B
ok a >>= f = f a
err x >>= f = err x
panic >>= f = panic

abbrev pub ◌>>◌ {ℓ} : {B : Type ℓ} → Result (Unit {0}) → Result B → Result B
m >> k = m >>= λ _. k

-- A test that answers, and with `true` exactly where a proposition holds.
abbrev pub Decides : Result Bool → Type 0 → Type 0
Decides r P = (b : Bool) × (r ≡ ok b) × ((b ≡ true) ↔ P)

-- What a test that answers decides.
pub Decides-answer : (r : Result Bool) → (b : Bool) × (r ≡ ok b) → Decides r (r ≡ ok true)
Decides-answer r (b, e) = rw e (b, refl, ground arith)

-- Tests with a short circuit.
pub Decides-or :
    (P Q : Type 0) (m n : Result Bool)
    → Decides m P
    → Decides n Q
    → Decides (m >>= λ b. if b then ok true else n) (P ⊎ Q)
Decides-or P Q m n (true, e, i) (c, f, j) = rw e (true, refl, ((λ _. inl (i.0 refl)), λ _. refl))
Decides-or P Q m n (false, e, i) (c, f, j) = rw (e, f) (c, refl, ground arith)

pub Decides-and :
    (P Q : Type 0) (m n : Result Bool)
    → Decides m P
    → Decides n Q
    → Decides (m >>= λ b. if b then n else ok false) (P × Q)
Decides-and P Q m n (true, e, i) (c, f, j) = rw (e, f) (c, refl, ground arith)
Decides-and P Q m n (false, e, i) (c, f, j) = rw e (false, refl, ground arith)

-- Whatever a fallible operation returns has a property.
abbrev pub Ensures {ℓ} : {A : Type ℓ} → (A → Type 0) → Result A → Type 0
Ensures P (ok a) = P a
Ensures P (err e) = Unit {0}
Ensures P panic = Unit {0}

pub Ensures-bind {ℓ κ} :
    {A : Type ℓ} {B : Type κ} (P : A → Type 0) (Q : B → Type 0) (m : Result A) (f : A → Result B)
    → Ensures P m
    → ((a : A) → P a → Ensures Q (f a))
    → Ensures Q (m >>= f)
Ensures-bind P Q (ok a) f h g = g a h
Ensures-bind P Q (err e) f h g = tt
Ensures-bind P Q panic f h g = tt

pub Ensures-ok {ℓ} :
    {A : Type ℓ} (P : A → Type 0) (m : Result A) (a : A) → Ensures P m → m ≡ ok a → P a
Ensures-ok P m a h e = subst (Ensures P) e h
