-- ===== src/Storage/Interface.antt =====
-- src/storage.rs: the records that a storage keeps, and the traits. A method takes and returns the
-- storage's state; it also takes the time, where it reads the clock.
use limiteron.Common.{
  ℕ, Bool, true, false, Option, ◌≡◌, ◌↔◌, arith, Text, text_beq, text_beq_iff, Key,
}
use limiteron.Errors.{StorageError, storage_error, ConsumeResult, Result, ok, err}

-- `Result<_, StorageError>`.
pub data Stored {ℓ} (A : Type ℓ) : Type ℓ where
  stored : A → Stored A
  failed : StorageError → Stored A

-- `map_err(FlowGuardError::StorageError)`, and what `?` does with a storage error.
abbrev pub lift {ℓ} : {A : Type ℓ} → Stored A → Result A
lift (stored a) = ok a
lift (failed e) = err (storage_error e)

pub record QuotaInfo : Type 0 where
  pub consumed : ℕ
  pub limit : ℕ
  pub window_start : ℕ
  pub window_end : ℕ

pub data BanTarget : Type 0 where
  ip user_id mac : Text → BanTarget

pub record BanRecord : Type 0 where
  pub target : BanTarget
  pub ban_times : ℕ
  pub duration : ℕ
  pub banned_at : ℕ
  pub expires_at : ℕ
  pub is_manual : Bool
  pub reason : Text

pub record BanHistory : Type 0 where
  pub ban_times : ℕ
  pub last_banned_at : ℕ

abbrev pub target_beq : BanTarget → BanTarget → Bool
target_beq (ip s) (ip t) = text_beq s t
target_beq (user_id s) (user_id t) = text_beq s t
target_beq (mac s) (mac t) = text_beq s t
target_beq _ _ = false

pub target_beq_iff : (s t : BanTarget) → (target_beq s t ≡ true) ↔ (s ≡ t)
target_beq_iff (ip s) (ip t) = ground (arith, text_beq_iff s t)
target_beq_iff (user_id s) (user_id t) = ground (arith, text_beq_iff s t)
target_beq_iff (mac s) (mac t) = ground (arith, text_beq_iff s t)
target_beq_iff (ip s) _ = ground arith
target_beq_iff (user_id s) _ = ground arith
target_beq_iff (mac s) _ = ground arith

instance abbrev pub BanTarget_key : Key BanTarget
BanTarget_key = record { test = target_beq; test_iff = target_beq_iff }

pub record QuotaStorage (S : Type 0) : Type 0 where
  pub get_quota : Text → Text → S → S × Stored (Option QuotaInfo)
  -- now, user, resource, cost, limit, window
  pub consume : ℕ → Text → Text → ℕ → ℕ → ℕ → S → S × Stored ConsumeResult
  -- now, user, resource, limit, window
  pub reset : ℕ → Text → Text → ℕ → ℕ → S → S × Stored (Unit {0})

pub record BanStorage (S : Type 0) : Type 0 where
  pub is_banned : ℕ → BanTarget → S → S × Stored (Option BanRecord)
  pub save : BanRecord → S → S × Stored (Unit {0})
  pub get_history : BanTarget → S → S × Stored (Option BanHistory)
  pub increment_ban_times : BanTarget → S → S × Stored ℕ
  pub get_ban_times : BanTarget → S → S × Stored ℕ
  pub remove_ban : BanTarget → S → S × Stored (Unit {0})
  pub cleanup_expired_bans : ℕ → S → S × Stored ℕ
