-- ===== src/Storage/Memory.antt =====
-- src/storage.rs: `MemoryStorage`.
use limiteron.Common.{
  ℕ, ◌+◌, ◌*◌, Bool, not, ◌&&◌, ◌||◌, List, [], ◌∷◌, ◌++◌, Option, none, some, ltb, leb,
  if◌then◌else◌, add_u64, add_u32, saturating_sub, unwrap_or, Text, Text_key, codes, lookup, insert,
  remove,
}
use limiteron.Errors.{ConsumeResult}
use limiteron.Storage.Interface.{
  Stored, stored, QuotaInfo, BanTarget, BanTarget_key, BanRecord, BanHistory, QuotaStorage,
  BanStorage,
}

pub record QuotaEntry : Type 0 where
  pub info : QuotaInfo
  pub ttl : Option ℕ

pub record MemoryStorage : Type 0 where
  pub entries : List (Text × (Text × Option ℕ))
  pub quota_data : List (Text × QuotaEntry)
  pub bans : List (BanTarget × BanRecord)
  pub history : List (BanTarget × BanHistory)

abbrev pub new : MemoryStorage
new = record { entries = []; quota_data = []; bans = []; history = [] }

-- The derived-by-hand `Clone` of the storage starts from empty maps.
abbrev pub clone : MemoryStorage → MemoryStorage
clone s = new

unfoldable pub get : Text → MemoryStorage → Option Text
get key s = elim (lookup key s.entries) [ none ↦ none | some entry ↦ some entry.0 ]

unfoldable pub set_value : Text → Text → Option ℕ → MemoryStorage → MemoryStorage
set_value key value ttl s = record s { entries = insert key (value, ttl) s.entries }

unfoldable pub delete : Text → MemoryStorage → MemoryStorage
delete key s = record s { entries = remove key s.entries }

-- Bans.

abbrev pub is_active : ℕ → BanRecord → Bool
is_active now r = r.is_manual || ltb now r.expires_at

-- What `is_banned` does with the copy of the record that it found, once it has let go of the entry.
unfoldable pub after_lookup :
    ℕ → BanTarget → Option BanRecord → MemoryStorage → MemoryStorage × Stored (Option BanRecord)
after_lookup now target none s = (s, stored none)
after_lookup now target (some r) s =
    if is_active now r
    then (s, stored (some r))
    else (record s { bans = remove target s.bans }, stored none)

-- No other call comes between its two accesses of the map.
unfoldable pub is_banned : ℕ → BanTarget → MemoryStorage → MemoryStorage × Stored (Option BanRecord)
unfolding after_lookup
is_banned now target s = after_lookup now target (lookup target s.bans) s

unfoldable pub get_history : BanTarget → MemoryStorage → MemoryStorage × Stored (Option BanHistory)
get_history target s = (s, stored (lookup target s.history))

unfoldable pub increment_ban_times : BanTarget → MemoryStorage → MemoryStorage × Stored ℕ
increment_ban_times target s = elim (lookup target s.bans) [
  | none ↦ (s, stored 1)
  | some r ↦ (s, stored (add_u32 r.ban_times 1))
]

unfoldable pub get_ban_times : BanTarget → MemoryStorage → MemoryStorage × Stored ℕ
get_ban_times target s = elim (lookup target s.bans) [
  | none ↦ (s, stored 0)
  | some r ↦ (s, stored r.ban_times)
]

unfoldable pub remove_ban : BanTarget → MemoryStorage → MemoryStorage × Stored (Unit {0})
remove_ban target s = (record s { bans = remove target s.bans }, stored tt)

-- The test of the closure that `cleanup_expired_bans` hands to `retain`.
abbrev pub is_stale : ℕ → BanRecord → Bool
is_stale now r = not r.is_manual && leb r.expires_at now

unfoldable pub retain_bans : ℕ → List (BanTarget × BanRecord) → List (BanTarget × BanRecord)
retain_bans now [] = []
retain_bans now (e ∷ rest) =
    let kept = retain_bans now rest in if is_stale now e.1 then kept else e ∷ kept

unfoldable pub count_stale : ℕ → List (BanTarget × BanRecord) → ℕ
count_stale now [] = 0
count_stale now (e ∷ rest) =
    let n = count_stale now rest in if is_stale now e.1 then add_u64 n 1 else n

unfoldable pub cleanup_expired_bans : ℕ → MemoryStorage → MemoryStorage × Stored ℕ
cleanup_expired_bans now s =
    (record s { bans = retain_bans now s.bans }, stored (count_stale now s.bans))

unfoldable pub save : BanRecord → MemoryStorage → MemoryStorage × Stored (Unit {0})
save r s =
    let past : BanHistory = record { ban_times = r.ban_times; last_banned_at = r.banned_at } in
    (
      record s { bans = insert r.target r s.bans; history = insert r.target past s.history },
      stored tt,
    )

abbrev pub memory_bans : BanStorage MemoryStorage
memory_bans = record {
  is_banned = is_banned;
  save = save;
  get_history = get_history;
  increment_ban_times = increment_ban_times;
  get_ban_times = get_ban_times;
  remove_ban = remove_ban;
  cleanup_expired_bans = cleanup_expired_bans;
}

-- Quotas.

-- `format!("quota:{}:{}", user_id, resource)`
abbrev pub quota_key : Text → Text → Text
quota_key user_id resource = codes "quota:" ++ (user_id ++ (codes ":" ++ resource))

-- `chrono::Duration::from_std`: an error above `i64::MAX` milliseconds.
abbrev pub max_chrono_nanos : ℕ
max_chrono_nanos = 9223372036854775807 * 1000000

abbrev pub from_std : ℕ → Option ℕ
from_std d = if ltb max_chrono_nanos d then none else some d

abbrev pub day_nanos : ℕ
day_nanos = 86400000000000

abbrev pub opened_at : ℕ → ℕ → ℕ → QuotaEntry
opened_at now limit window = record {
  info = record {
    consumed = 0;
    limit = limit;
    window_start = now;
    window_end = now + unwrap_or (from_std window) day_nanos;
  };
  ttl = none;
}

unfoldable pub get_quota : Text → Text → MemoryStorage → MemoryStorage × Stored (Option QuotaInfo)
get_quota user_id resource s = elim (lookup (quota_key user_id resource) s.quota_data) [
  | none ↦ (s, stored none)
  | some entry ↦ (s, stored (some entry.info))
]

-- The entry after `or_insert_with` and the check of its window.
unfoldable pub current_entry : ℕ → ℕ → ℕ → Option QuotaEntry → QuotaEntry
current_entry now limit window found =
    let entry = unwrap_or found (opened_at now limit window) in
    if leb entry.info.window_end now
    then record entry { info = (opened_at now limit window).info }
    else entry

-- The rest of `consume` under the lock of the entry.
unfoldable pub charge : ℕ → ℕ → QuotaEntry → QuotaEntry × ConsumeResult
charge cost limit entry =
    let new_consumed = add_u64 entry.info.consumed cost in
    let allowed = leb new_consumed limit in
    let consumed = if allowed then new_consumed else entry.info.consumed in
    let info : QuotaInfo = record (entry.info) { consumed = consumed } in
    (
      record entry { info = info },
      record {
        allowed = allowed;
        remaining = saturating_sub limit consumed;
        alert_triggered = ltb limit consumed;
      },
    )

unfoldable pub consume :
    ℕ → Text → Text → ℕ → ℕ → ℕ → MemoryStorage → MemoryStorage × Stored ConsumeResult
consume now user_id resource cost limit window s =
    let key = quota_key user_id resource in
    let (entry, result) =
      charge cost limit (current_entry now limit window (lookup key s.quota_data)) in
    (record s { quota_data = insert key entry s.quota_data }, stored result)

unfoldable pub reset : ℕ → Text → Text → ℕ → ℕ → MemoryStorage → MemoryStorage × Stored (Unit {0})
reset now user_id resource limit window s = (
  record s {
    quota_data = insert (quota_key user_id resource) (opened_at now limit window) s.quota_data;
  },
  stored tt,
)

abbrev pub memory_quotas : QuotaStorage MemoryStorage
memory_quotas = record { get_quota = get_quota; consume = consume; reset = reset }
