-- ===== src/BanManager.antt =====
-- src/ban_manager.rs: bans with exponential backoff over a ban storage.
-- Parameters: the parser of IP addresses, JSON values, the addition of a duration to a time (`none`
-- where chrono panics), and the ids that uuid draws. Instants are nanoseconds; a method reads the
-- clock once. The task that unbans works on another storage, so only whether it runs is kept.
-- `check_ban_priority` is that of the build without the feature `parallel-checker`.
pub mod Validate
pub mod Backoff
pub mod Create
pub mod Priority
pub mod Delete
mod Tests
use limiteron.Common.{
  ℕ, ◌+◌, ◌*◌, Bool, true, false, not, List, [], ◌∷◌, Option, none, some, add_u32, min,
  if◌then◌else◌, nat_beq, Text, codes,
}
use limiteron.Errors.{Result, ok, err, panic}
use limiteron.Storage.Interface.{
  Stored, stored, failed, lift, BanTarget, ip, user_id, mac, BanRecord, BanHistory, BanStorage,
}
use limiteron.BanManager.Validate.{validate_ban_target, validate_ban_reason}

pub data BanSource : Type 0 where
  auto : BanSource
  manual : Text → BanSource

pub data BanPriority : Type 0 where
  ip_address user_name mac_address device_id api_key : BanPriority

abbrev pub from_target : BanTarget → BanPriority
from_target (ip s) = ip_address
from_target (user_id s) = user_name
from_target (mac s) = mac_address

pub record BanDetail (Json : Type 0) : Type 0 where
  pub id : Text
  pub target : BanTarget
  pub ban_times : ℕ
  pub duration : ℕ
  pub banned_at : ℕ
  pub expires_at : ℕ
  pub is_manual : Bool
  pub reason : Text
  pub source : BanSource
  pub metadata : Json
  pub created_at : ℕ
  pub updated_at : ℕ
  pub unbanned_at : Option ℕ
  pub unbanned_by : Option Text

-- In seconds.
pub record BackoffConfig : Type 0 where
  pub first_duration : ℕ
  pub second_duration : ℕ
  pub third_duration : ℕ
  pub fourth_duration : ℕ
  pub max_duration : ℕ

abbrev pub default_backoff : BackoffConfig
default_backoff = record {
  first_duration = 60;
  second_duration = 300;
  third_duration = 1800;
  fourth_duration = 7200;
  max_duration = 86400;
}

pub record BanManagerConfig : Type 0 where
  pub backoff : BackoffConfig
  pub enable_auto_unban : Bool
  pub auto_unban_interval : ℕ

abbrev pub default_config : BanManagerConfig
default_config = record {
  backoff = default_backoff;
  enable_auto_unban = true;
  auto_unban_interval = 60;
}

-- `auto_unban` says whether the handle of the task is there.
pub record BanManager (S : Type 0) : Type 0 where
  pub storage : S
  pub config : BanManagerConfig
  pub auto_unban : Bool

abbrev pub start_auto_unban_task : {S : Type 0} → BanManager S → BanManager S
start_auto_unban_task b = if b.config.enable_auto_unban then record b { auto_unban = true } else b

abbrev pub stop_auto_unban_task : {S : Type 0} → BanManager S → BanManager S
stop_auto_unban_task b = record b { auto_unban = false }

unfoldable pub new : {S : Type 0} → S → Option BanManagerConfig → BanManager S
new storage config = start_auto_unban_task (record {
  storage = storage;
  config = elim config [ none ↦ default_config | some c ↦ c ];
  auto_unban = false;
})

unfoldable pub update_config : {S : Type 0} → BanManagerConfig → BanManager S → BanManager S
update_config config b = start_auto_unban_task (stop_auto_unban_task (record b { config = config }))

-- In nanoseconds.
unfoldable pub calculate_ban_duration : BackoffConfig → ℕ → ℕ
calculate_ban_duration backoff ban_times =
    let secs =
      if nat_beq ban_times 1
      then backoff.first_duration
      else if nat_beq ban_times 2
      then backoff.second_duration
      else if nat_beq ban_times 3
      then backoff.third_duration
      else backoff.fourth_duration in
    min secs backoff.max_duration * 1000000000

-- What a method does: the manager afterwards, and its answer.
abbrev pub M : Type 0 → Type 0 → Type 0
M S A = BanManager S → BanManager S × Result A

infixl 5 ◌>>=◌
abbrev pub ◌>>=◌ : {S A B : Type 0} → M S A → (A → M S B) → M S B
◌>>=◌ m f b =
    let (b', r) = m b in elim r [ ok a ↦ f a b' | err e ↦ (b', err e) | panic ↦ (b', panic) ]

abbrev pub pure : {S A : Type 0} → A → M S A
pure a b = (b, ok a)

abbrev pub give : {S A : Type 0} → Result A → M S A
give r b = (b, r)

-- `unwrap`
abbrev pub unwrap : {A : Type 0} → Option A → Result A
unwrap none = panic
unwrap (some a) = ok a

abbrev pub on_storage : {S A : Type 0} → (S → S × Stored A) → M S A
on_storage call b = let (s, r) = call b.storage in (record b { storage = s }, lift r)

abbrev pub is_manual_source : BanSource → Bool
is_manual_source auto = false
is_manual_source (manual operator) = true

abbrev pub source_of : Text → Bool → BanSource
source_of operator is_manual = if is_manual then manual operator else auto

-- `history.as_ref().map(|h| h.ban_times + 1).unwrap_or(1)`
abbrev pub next_ban_times : Option BanHistory → ℕ
next_ban_times none = 1
next_ban_times (some h) = add_u32 h.ban_times 1

-- The first IP target, and the others.
abbrev pub is_ip : BanTarget → Bool
is_ip (ip s) = true
is_ip (user_id s) = false
is_ip (mac s) = false

unfoldable pub find_ip : List BanTarget → Option BanTarget
find_ip [] = none
find_ip (t ∷ rest) = let found = find_ip rest in if is_ip t then some t else found

unfoldable pub skip_ips : List BanTarget → List BanTarget
skip_ips [] = []
skip_ips (t ∷ rest) = let others = skip_ips rest in if is_ip t then others else t ∷ others

module _ {Json : Type 0} (empty_object : Json) (is_ip_address : Text → Bool)
    (date_add : ℕ → ℕ → Option ℕ) where
  -- `From<BanRecord>`
  unfoldable pub detail_of : Text → BanRecord → BanDetail Json
  detail_of id r = record {
    id = id;
    target = r.target;
    ban_times = r.ban_times;
    duration = r.duration;
    banned_at = r.banned_at;
    expires_at = r.expires_at;
    is_manual = r.is_manual;
    reason = r.reason;
    source = source_of (codes "unknown") r.is_manual;
    metadata = empty_object;
    created_at = r.banned_at;
    updated_at = r.banned_at;
    unbanned_at = none;
    unbanned_by = none;
  }

  module _ {S : Type 0} (st : BanStorage S) where
    -- `create_ban` from the checked duration and the number of the ban on.
    unfoldable pub save_new :
        ℕ → Text → BanTarget → Text → BanSource → Json → ℕ → ℕ → M S (BanDetail Json)
    save_new now id target reason source metadata ban_times duration = do
      expires_at ← give (unwrap (date_add now duration))
      _saved ← on_storage (
          st.save (record {
            target = target;
            ban_times = ban_times;
            duration = duration;
            banned_at = now;
            expires_at = expires_at;
            is_manual = is_manual_source source;
            reason = reason;
          }))
      pure (record {
        id = id;
        target = target;
        ban_times = ban_times;
        duration = duration;
        banned_at = now;
        expires_at = expires_at;
        is_manual = is_manual_source source;
        reason = reason;
        source = source;
        metadata = metadata;
        created_at = now;
        updated_at = now;
        unbanned_at = none;
        unbanned_by = none;
      })

    unfoldable pub create_ban :
        ℕ → Text → BanTarget → Text → BanSource → Json → Option ℕ → M S (BanDetail Json)
    create_ban now id target reason source metadata duration b =
        (do
          _valid_target ← give (validate_ban_target is_ip_address target)
          _valid_reason ← give (validate_ban_reason reason)
          history ← on_storage (st.get_history target)
          save_new now id target reason source metadata (next_ban_times history) (elim duration [
            | none ↦ calculate_ban_duration b.config.backoff (next_ban_times history)
            | some d ↦ d
          ]))
          b

    unfoldable pub read_ban : ℕ → Text → BanTarget → M S (Option (BanDetail Json))
    read_ban now id target = do
      found ← on_storage (st.is_banned now target)
      pure (elim found [ none ↦ none | some r ↦ some (detail_of id r) ])

    -- The changes of `update_ban` to a record, which it saves and answers with.
    unfoldable pub save_changed :
        ℕ → Text → Option Text → Option ℕ → Option Json → BanRecord → M S (Option (BanDetail Json))
    save_changed now id reason duration metadata found = do
      changed ← give (elim duration as (λ x. Result BanRecord) [
        | none ↦ ok (record found { reason = elim reason [ none ↦ found.reason | some t ↦ t ] })
        | some d ↦ elim (date_add now d) as (λ x. Result BanRecord) [
          | none ↦ panic
          | some end_at ↦ ok (record found {
            reason = elim reason [ none ↦ found.reason | some t ↦ t ];
            duration = d;
            expires_at = end_at;
          })
        ]
      ])
      _saved ← on_storage (st.save changed)
      pure (
          some (record (detail_of id changed) {
            updated_at = now;
            metadata = elim metadata [ none ↦ empty_object | some m ↦ m ];
          }))

    unfoldable pub update_ban :
        ℕ → Text → BanTarget → Option Text → Option ℕ → Option Json → M S (Option (BanDetail Json))
    update_ban now id target reason duration metadata = do
      found ← on_storage (st.is_banned now target)
      elim found as (λ x. M S (Option (BanDetail Json))) [
        | none ↦ pure none
        | some r ↦ save_changed now id reason duration metadata r
      ]

    unfoldable pub delete_ban : ℕ → BanTarget → M S Bool
    delete_ban now target = do
      found ← on_storage (st.is_banned now target)
      elim found as (λ x. M S Bool) [
        | none ↦ pure false
        | some r ↦ (do _removed ← on_storage (st.remove_ban target); pure true)
      ]

    unfoldable pub add_ban : ℕ → Text → BanRecord → M S (Unit {0})
    add_ban now id r = do
      _detail ←
          create_ban now id r.target r.reason (source_of (codes "system") r.is_manual) empty_object
            (some r.duration)
      pure tt

    -- The other targets in their order, until one is banned; an error of the storage is no ban.
    unfoldable pub check_each : ℕ → Text → List BanTarget → M S (Option (BanDetail Json))
    check_each now id [] b = (b, ok none)
    check_each now id (t ∷ rest) b =
        let (s, r) = st.is_banned now t b.storage in
        elim (elim r as (λ x. Option BanRecord) [ stored found ↦ found | failed e ↦ none ]) [
          | none ↦ check_each now id rest (record b { storage = s })
          | some found ↦ (record b { storage = s }, ok (some (detail_of id found)))
        ]

    unfoldable pub check_ban_priority : ℕ → Text → List BanTarget → M S (Option (BanDetail Json))
    check_ban_priority now id targets = do
      found ← elim (find_ip targets) as (λ x. M S (Option BanRecord)) [
        | none ↦ pure none
        | some t ↦ on_storage (st.is_banned now t)
      ]
      elim found as (λ x. M S (Option (BanDetail Json))) [
        | some r ↦ pure (some (detail_of id r))
        | none ↦ check_each now id (skip_ips targets)
      ]
