-- ===== src/BanManager/Create.antt =====
-- Bans that are created, over `MemoryStorage`.
use limiteron.Common.{
  ℕ, ◌≡◌, ◌∙◌, refl, Bool, ◌||◌, Option, none, some, arith, ltb, if◌then◌else◌, Text, lookup,
  Bool-cases, inl, inr,
}
use limiteron.Errors.{ok}
use limiteron.Storage.Interface.{stored, BanTarget, BanTarget_key, BanRecord}
use limiteron.Storage.Memory.{MemoryStorage, memory_bans}
use limiteron.Storage.Memory as Memory
use limiteron.Storage.Bans.{in_force, saved-in_force}
use limiteron.BanManager.{
  BanSource, BanDetail, BanManager, BanManagerConfig, calculate_ban_duration, is_manual_source,
  next_ban_times, detail_of, save_new, create_ban, read_ban,
}
use limiteron.BanManager.Validate.{validate_ban_target, validate_ban_reason}

-- The length of a ban: the one that is asked for, or that of the backoff.
abbrev pub duration_of : BanManagerConfig → Option ℕ → ℕ → ℕ
duration_of config none ban_times = calculate_ban_duration config.backoff ban_times
duration_of config (some d) ban_times = d

-- The record that `create_ban` writes.
abbrev pub record_of : ℕ → BanTarget → Text → BanSource → ℕ → ℕ → ℕ → BanRecord
record_of now target reason source ban_times duration end_at = record {
  target = target;
  ban_times = ban_times;
  duration = duration;
  banned_at = now;
  expires_at = end_at;
  is_manual = is_manual_source source;
  reason = reason;
}

-- How often a target was banned before.
abbrev pub times_before : BanTarget → MemoryStorage → ℕ
times_before target s = elim (lookup target s.history) [ none ↦ 0 | some h ↦ h.ban_times ]

module _ {Json : Type 0} (empty_object : Json) (is_ip_address : Text → Bool)
    (date_add : ℕ → ℕ → Option ℕ) where
  -- The answer of `create_ban`.
  abbrev pub new_detail : ℕ → Text → BanSource → Json → BanRecord → BanDetail Json
  new_detail now id source metadata r =
      record (detail_of empty_object is_ip_address date_add id r) {
        source = source;
        metadata = metadata;
      }

  save_new-saves :
      (now : ℕ) (id : Text) (target : BanTarget) (reason : Text) (source : BanSource)
      (metadata : Json) (times length end_at : ℕ) (b : BanManager MemoryStorage)
      → date_add now length ≡ some end_at
      → let r = record_of now target reason source times length end_at in
        save_new empty_object is_ip_address date_add memory_bans now id target reason source
          metadata times length b
        ≡ (
          record b { storage = (Memory.save r b.storage).0 },
          ok (new_detail now id source metadata r),
        )
  unfolding save_new Memory.save detail_of
  save_new-saves now id target reason source metadata times length end_at b e = rw e refl

  pub create_ban-saves :
      (now : ℕ) (id : Text) (target : BanTarget) (reason : Text) (source : BanSource)
      (metadata : Json) (duration : Option ℕ) (b : BanManager MemoryStorage) (end_at : ℕ)
      → validate_ban_target is_ip_address target ≡ ok tt
      → validate_ban_reason reason ≡ ok tt
      → date_add now
          (duration_of b.config duration (next_ban_times (lookup target b.storage.history)))
        ≡ some end_at
      → let times = next_ban_times (lookup target b.storage.history) in
        let r =
          record_of now target reason source times (duration_of b.config duration times) end_at in
        create_ban empty_object is_ip_address date_add memory_bans now id target reason source
          metadata duration b
        ≡ (
          record b { storage = (Memory.save r b.storage).0 },
          ok (new_detail now id source metadata r),
        )
  unfolding create_ban Memory.get_history detail_of
  create_ban-saves now id target reason source metadata none b end_at v w e =
      rw (v, w) (save_new-saves now id target reason source metadata _ _ end_at b e)
  create_ban-saves now id target reason source metadata (some d) b end_at v w e =
      rw (v, w) (save_new-saves now id target reason source metadata _ d end_at b e)

  read_ban-answer :
      (now : ℕ) (id : Text) (target : BanTarget) (b : BanManager MemoryStorage)
      (o : Option BanRecord)
      → (Memory.is_banned now target b.storage).1 ≡ stored o
      → (read_ban empty_object is_ip_address date_add memory_bans now id target b).1
        ≡ ok (elim o [
          | none ↦ none
          | some r ↦ some (detail_of empty_object is_ip_address date_add id r)
        ])
  unfolding read_ban
  read_ban-answer now id target b o e = ground (arith, e)

  -- A ban that is created for a valid target and reason is what the target is asked to suffer: until
  -- it ends, or for good if it is manual, `read_ban` finds it, and then nothing.
  pub created_is_banned :
      (now later : ℕ) (id other_id : Text) (target : BanTarget) (reason : Text) (source : BanSource)
      (metadata : Json) (duration : Option ℕ) (b : BanManager MemoryStorage) (end_at : ℕ)
      → validate_ban_target is_ip_address target ≡ ok tt
      → validate_ban_reason reason ≡ ok tt
      → date_add now
          (duration_of b.config duration (next_ban_times (lookup target b.storage.history)))
        ≡ some end_at
      → let times = next_ban_times (lookup target b.storage.history) in
        let r =
          record_of now target reason source times (duration_of b.config duration times) end_at in
        let (b', answer) =
          create_ban empty_object is_ip_address date_add memory_bans now id target reason source
            metadata duration b in
        (answer ≡ ok (new_detail now id source metadata r))
        × ((read_ban empty_object is_ip_address date_add memory_bans later other_id target b').1
            ≡ ok (
                if is_manual_source source || ltb later end_at
                then some (detail_of empty_object is_ip_address date_add other_id r)
                else none))
  created_is_banned now later id other_id target reason source metadata duration b end_at v w e =
      let times = next_ban_times (lookup target b.storage.history) in
      let r =
        record_of now target reason source times (duration_of b.config duration times) end_at in
      let made = create_ban-saves now id target reason source metadata duration b end_at v w e in
      let asked : (Memory.is_banned later target (Memory.save r b.storage).0).1
          ≡ stored (in_force later (some r)) =
        saved-in_force later r b.storage in
      (
        rw made refl,
        rw made (
            read_ban-answer later other_id target _ _ asked
            ∙ elim (Bool-cases (is_manual_source source || ltb later end_at)) [
              | inl holds ↦ rw holds refl
              | inr over ↦ rw over refl
            ]),
      )
