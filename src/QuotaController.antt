-- ===== src/QuotaController.antt =====
-- src/quota_controller.rs: quotas with windows, overdraft and alerts over a quota storage.
-- Instants are nanoseconds. The clock is read once for a call, and a window is short enough for chrono's
-- `Duration::seconds`, which panics beyond the range of milliseconds in an `i64`; alerts are sent by tasks of their own
-- and are recorded in the order in which they are handed over.
pub mod Limits
pub mod Consume
mod Tests
use limiteron.Common.{
  ℕ, ◌+◌, ◌-◌, ◌*◌, ◌/◌, ◌%◌, Bool, true, false, ◌&&◌, ◌||◌, List, [], ◌∷◌, ◌++◌, Option, none,
  some, ltb, leb, nat_beq, if◌then◌else◌, add_u64, saturating_sub, checked_add, checked_mul,
  unwrap_or, min, Text, Text_key, codes, String, lookup, insert, u64_max,
}
use limiteron.Common.Float.{Float}
use limiteron.Errors.{ConsumeResult, Result, ok, err, panic}
use limiteron.Storage.Interface.{Stored, stored, failed, lift, QuotaInfo, QuotaStorage}

pub data QuotaType : Type 0 where
  token money count : QuotaType

-- `as_str`, and `parse` of a text that is already in lower case.
abbrev pub as_str : QuotaType → Text
as_str token = codes "token"
as_str money = codes "money"
as_str count = codes "count"

pub data AlertChannel : Type 0 where
  log : AlertChannel
  webhook : String → AlertChannel

pub record AlertConfig : Type 0 where
  pub enabled : Bool
  pub thresholds : List ℕ
  pub channels : List AlertChannel
  pub dedup_window : ℕ

pub record QuotaConfig : Type 0 where
  pub quota_type : QuotaType
  pub limit : ℕ
  pub window_size : ℕ
  pub allow_overdraft : Bool
  pub overdraft_limit_percent : ℕ
  pub alert_config : AlertConfig

abbrev pub default_alert_config : AlertConfig
default_alert_config = record {
  enabled = true;
  thresholds = 80 ∷ 90 ∷ 100 ∷ [];
  channels = log ∷ [];
  dedup_window = 300;
}

abbrev pub default_config : QuotaConfig
default_config = record {
  quota_type = count;
  limit = 1000;
  window_size = 3600;
  allow_overdraft = false;
  overdraft_limit_percent = 20;
  alert_config = default_alert_config;
}

pub record AlertInfo : Type 0 where
  pub user_id : Text
  pub resource : Text
  pub quota_type : QuotaType
  pub threshold : ℕ
  pub current_usage : ℕ
  pub limit : ℕ
  pub triggered_at : ℕ

pub record QuotaState : Type 0 where
  pub consumed : ℕ
  pub window_start : ℕ
  pub window_end : ℕ

-- `sent` is what was handed to the channels, oldest first.
pub record QuotaController (S : Type 0) : Type 0 where
  pub storage : S
  pub config : QuotaConfig
  pub alert_dedup : List (Text × ℕ)
  pub sent : List (AlertChannel × AlertInfo)

-- What a method does: the controller afterwards, and its answer.
abbrev pub M : Type 0 → Type 0 → Type 0
M S A = QuotaController S → QuotaController S × Result A

infixl 5 ◌>>=◌
abbrev pub ◌>>=◌ : {S A B : Type 0} → M S A → (A → M S B) → M S B
◌>>=◌ m f c =
    let (c', r) = m c in elim r [ ok a ↦ f a c' | err e ↦ (c', err e) | panic ↦ (c', panic) ]

abbrev pub pure : {S A : Type 0} → A → M S A
pure a c = (c, ok a)

-- A call of the storage, with `map_err` and `?`.
abbrev pub on_storage : {S A : Type 0} → (S → S × Stored A) → M S A
on_storage call c = let (s, r) = call c.storage in (record c { storage = s }, lift r)

unfoldable pub new : {S : Type 0} → S → QuotaConfig → QuotaController S
new storage config = record { storage = storage; config = config; alert_dedup = []; sent = [] }

unfoldable pub update_config : {S : Type 0} → QuotaConfig → QuotaController S → QuotaController S
update_config config c = record c { config = config }

-- `Duration::seconds`, `num_seconds` and `num_milliseconds`, in nanoseconds.
abbrev pub seconds : ℕ → ℕ
seconds n = n * 1000000000

abbrev pub num_seconds : ℕ → ℕ
num_seconds d = d / 1000000000

abbrev pub num_milliseconds : ℕ → ℕ
num_milliseconds d = d / 1000000

abbrev pub i32_max : ℕ
i32_max = 2147483647

unfoldable pub overdraft_limit : QuotaConfig → ℕ
overdraft_limit config =
    if config.allow_overdraft
    then elim (checked_mul config.limit config.overdraft_limit_percent) [
      | none ↦ u64_max / 2
      | some v ↦ v / 100
    ]
    else 0

unfoldable pub total_limit : QuotaConfig → ℕ
unfolding overdraft_limit
total_limit config = unwrap_or (checked_add config.limit (overdraft_limit config)) (u64_max / 2)

-- `as u64` of a difference of two instants in seconds: a clock that went back wraps.
abbrev pub elapsed_seconds : ℕ → ℕ → ℕ
elapsed_seconds now last =
    if ltb now last
    then (let back = num_seconds (last - now) in if nat_beq back 0 then 0 else u64_max + 1 - back)
    else num_seconds (now - last)

-- `{}` of a `u8`.
abbrev pub decimal : ℕ → Text
decimal n =
    if ltb n 10
    then (48 + n) ∷ []
    else if ltb n 100
    then (48 + n / 10) ∷ (48 + n % 10) ∷ []
    else (48 + n / 100) ∷ (48 + n / 10 % 10) ∷ (48 + n % 10) ∷ []

-- `format!("{}:{}:{}", user_id, resource, threshold)`
abbrev pub dedup_key : Text → Text → ℕ → Text
dedup_key user_id resource threshold =
    user_id ++ (codes ":" ++ (resource ++ (codes ":" ++ decimal threshold)))

unfoldable pub should_alert : ℕ → Text → AlertConfig → List (Text × ℕ) → Bool
should_alert now key config dedup = elim (lookup key dedup) [
  | none ↦ true
  | some last ↦ leb config.dedup_window (elapsed_seconds now last)
]

-- `send_alert`: one task for each channel.
abbrev pub to_channels : List AlertChannel → AlertInfo → List (AlertChannel × AlertInfo)
to_channels [] info = []
to_channels (channel ∷ rest) info = (channel, info) ∷ to_channels rest info

unfoldable pub alert_at :
    {S : Type 0} → ℕ → Text → Text → ℕ → ℕ → QuotaController S → QuotaController S
alert_at now user_id resource consumed threshold c =
    let info : AlertInfo = record {
      user_id = user_id;
      resource = resource;
      quota_type = c.config.quota_type;
      threshold = threshold;
      current_usage = consumed;
      limit = c.config.limit;
      triggered_at = now;
    } in
    record c {
      alert_dedup = insert (dedup_key user_id resource threshold) now c.alert_dedup;
      sent = c.sent ++ to_channels c.config.alert_config.channels info;
    }

-- The loop over the thresholds; `triggered` is `alert_triggered` so far.
unfoldable pub alert_each :
    {S : Type 0}
    → ℕ
    → Text
    → Text
    → ℕ
    → ℕ
    → List ℕ
    → Bool
    → QuotaController S
    → QuotaController S × Bool
unfolding should_alert alert_at
alert_each now user_id resource consumed usage_percent [] triggered c = (c, triggered)
alert_each now user_id resource consumed usage_percent (threshold ∷ rest) triggered c =
    let due =
      leb threshold usage_percent
      && should_alert now (dedup_key user_id resource threshold) c.config.alert_config
          c.alert_dedup in
    alert_each now user_id resource consumed usage_percent rest (if due then true else triggered)
      (if due then alert_at now user_id resource consumed threshold c else c)

-- `cleanup_alert_dedup`
unfoldable pub retain_alerts : ℕ → ℕ → List (Text × ℕ) → List (Text × ℕ)
retain_alerts now dedup_window [] = []
retain_alerts now dedup_window (e ∷ rest) =
    let kept = retain_alerts now dedup_window rest in
    if ltb now e.1 || ltb (now - e.1) (seconds dedup_window) then e ∷ kept else kept

unfoldable pub cleanup_alert_dedup : {S : Type 0} → ℕ → QuotaController S → QuotaController S
cleanup_alert_dedup now c = record c {
  alert_dedup = retain_alerts now c.config.alert_config.dedup_window c.alert_dedup;
}

module _ (fl : Float) where
  open fl use {of_u64, div, mul, sub, min_f64, to_u64}

  -- `as u8` saturates.
  unfoldable pub usage_percent : ℕ → ℕ → ℕ
  usage_percent consumed limit =
      if ltb 0 limit
      then min (to_u64 (mul (div (of_u64 consumed) (of_u64 limit)) (of_u64 100))) 255
      else 100

  unfoldable pub check_and_trigger_alert : {S : Type 0} → ℕ → Text → Text → ℕ → M S Bool
  check_and_trigger_alert now user_id resource consumed c =
      if c.config.alert_config.enabled
      then (let (c', triggered) =
            alert_each now user_id resource consumed (usage_percent consumed c.config.limit)
              c.config.alert_config.thresholds false c in
          (c', ok triggered))
      else (c, ok false)

  -- A window of 0 seconds divides by zero. The state's window does not end before it starts.
  unfoldable pub check_and_reset_window : ℕ → QuotaConfig → QuotaState → Result QuotaState
  check_and_reset_window now config state =
      let window_duration = seconds config.window_size in
      let elapsed = now - state.window_start in
      let windows_passed = num_seconds elapsed / num_seconds window_duration in
      let safe_windows_passed = min windows_passed i32_max in
      let new_window_start = state.window_start + window_duration * safe_windows_passed in
      let window_progress =
        min_f64
          (div (of_u64 (num_milliseconds elapsed)) (of_u64 (num_milliseconds window_duration)))
          (of_u64 1) in
      let retained_consumed =
        if leb 1 windows_passed
        then 0
        else to_u64 (mul (of_u64 state.consumed) (sub (of_u64 1) window_progress)) in
      if ltb now state.window_end
      then ok state
      else if nat_beq config.window_size 0
      then panic
      else ok (record {
        consumed = retained_consumed;
        window_start = new_window_start;
        window_end = new_window_start + window_duration;
      })

  module _ {S : Type 0} (st : QuotaStorage S) where
    unfoldable pub get_quota : Text → Text → M S (Option QuotaState)
    get_quota user_id resource = do
      info ← on_storage (st.get_quota user_id resource)
      pure (elim info [
        | none ↦ none
        | some i ↦ some (record {
          consumed = i.consumed;
          window_start = i.window_start;
          window_end = i.window_end;
        })
      ])

    unfoldable pub reset_quota : ℕ → Text → Text → M S (Unit {0})
    reset_quota now user_id resource c =
        on_storage (st.reset now user_id resource c.config.limit (seconds c.config.window_size)) c

    unfoldable pub get_or_create_quota_state : ℕ → Text → Text → M S QuotaState
    get_or_create_quota_state now user_id resource c =
        (do
          found ← get_quota user_id resource
          pure (
              unwrap_or found (record {
                consumed = 0;
                window_start = now;
                window_end = now + seconds c.config.window_size;
              })))
          c

    -- The storage's answer, `_result`, is not looked at.
    unfoldable pub save_quota_state : ℕ → Text → Text → QuotaState → ℕ → M S (Unit {0})
    save_quota_state now user_id resource state new_consumed c =
        (do
          _result ← on_storage (
              st.consume now user_id resource (saturating_sub new_consumed state.consumed)
                (total_limit c.config) (seconds c.config.window_size))
          pure tt)
          c

    -- `consume` from the state of the window on.
    unfoldable pub consume_in : ℕ → Text → Text → ℕ → QuotaState → M S ConsumeResult
    consume_in now user_id resource cost state c =
        let total = total_limit c.config in
        let new_consumed = add_u64 state.consumed cost in
        let granted : M S ConsumeResult = do
          _saved ← save_quota_state now user_id resource state new_consumed
          alert_triggered ← check_and_trigger_alert now user_id resource new_consumed
          pure (record {
            allowed = true;
            remaining = saturating_sub total new_consumed;
            alert_triggered = alert_triggered;
          })
        in if ltb total new_consumed
          then (
            c,
            ok (record {
              allowed = false;
              remaining = saturating_sub total state.consumed;
              alert_triggered = false;
            }),
          )
          else granted c

    unfoldable pub consume : ℕ → Text → Text → ℕ → M S ConsumeResult
    consume now user_id resource cost c =
        let asked : M S ConsumeResult = do
          quota_state ← get_or_create_quota_state now user_id resource
          updated_state ← (λ d. (d, check_and_reset_window now c.config quota_state))
          consume_in now user_id resource cost updated_state
        in if nat_beq cost 0
          then (
            c,
            ok (record { allowed = true; remaining = c.config.limit; alert_triggered = false }),
          )
          else asked c
