-- ===== src/BanManager/Delete.antt =====
-- Lifting a ban, over `MemoryStorage`, and the ban after it.
use limiteron.Common.{
  ℕ, ◌≡◌, ◌∙◌, ap, Bool, true, false, Option, none, some, arith, Text, lookup, remove,
  lookup-remove_self, lookup-insert_self, add_u32,
}
use limiteron.Errors.{ok}
use limiteron.Storage.Interface.{BanTarget, BanTarget_key, BanRecord}
use limiteron.Storage.Memory.{MemoryStorage, memory_bans, is_active}
use limiteron.Storage.Memory as Memory
use limiteron.Storage.Bans.{in_force}
use limiteron.BanManager.{
  BanSource, BanDetail, BanManager, calculate_ban_duration, next_ban_times, detail_of, create_ban,
  delete_ban,
}
use limiteron.BanManager.Validate.{validate_ban_target, validate_ban_reason}
use limiteron.BanManager.Create.{create_ban-saves}

abbrev is_held : Option BanRecord → Bool
is_held none = false
is_held (some r) = true

module _ {Json : Type 0} (empty_object : Json) (is_ip_address : Text → Bool)
    (date_add : ℕ → ℕ → Option ℕ) where
  -- `delete_ban` answers whether a ban was in force. In either case none is left for the target, and
  -- the history, from which the next ban is measured, stays.
  pub delete_ban_lem :
      (now : ℕ) (target : BanTarget) (b : BanManager MemoryStorage)
      → let (b', answer) =
          delete_ban empty_object is_ip_address date_add memory_bans now target b in
        (answer ≡ ok (is_held (in_force now (lookup target b.storage.bans))))
        × (lookup target b'.storage.bans ≡ none)
        × (b'.storage.history ≡ b.storage.history)
        × (b'.config ≡ b.config)
  unfolding delete_ban Memory.is_banned Memory.remove_ban
  delete_ban_lem now target b = ground (
    arith,
    lookup-remove_self target b.storage.bans,
    lookup-remove_self target (remove target b.storage.bans),
  )

  -- A ban after one that was lifted, whenever it was: it counts one more than the lifted one, and its
  -- length is what the backoff says for that count.
  pub escalates_past_delete :
      (now lifted later : ℕ) (id later_id : Text) (target : BanTarget) (reason later_reason : Text)
      (source later_source : BanSource) (metadata later_metadata : Json)
      (b : BanManager MemoryStorage) (end_at later_end : ℕ)
      → validate_ban_target is_ip_address target ≡ ok tt
      → validate_ban_reason reason ≡ ok tt
      → validate_ban_reason later_reason ≡ ok tt
      → let times = next_ban_times (lookup target b.storage.history) in
        date_add now (calculate_ban_duration b.config.backoff times) ≡ some end_at
        → date_add later (calculate_ban_duration b.config.backoff (add_u32 times 1))
          ≡ some later_end
        → let create = create_ban empty_object is_ip_address date_add memory_bans in
          let banned = (create now id target reason source metadata none b).0 in
          let freed =
            (delete_ban empty_object is_ip_address date_add memory_bans lifted target banned).0 in
          (x : BanDetail Json) × ((create later later_id target later_reason later_source
              later_metadata none freed).1
            ≡ ok x)
          × (x.ban_times ≡ add_u32 times 1)
          × (x.duration ≡ calculate_ban_duration b.config.backoff (add_u32 times 1))
  unfolding Memory.save detail_of
  escalates_past_delete now lifted later id later_id target reason later_reason source later_source
        metadata later_metadata b end_at later_end v w w' e e' =
      let times = next_ban_times (lookup target b.storage.history) in
      let made =
        create_ban-saves empty_object is_ip_address date_add now id target reason source metadata
          none b end_at v w e in
      let banned =
        (create_ban empty_object is_ip_address date_add memory_bans now id target reason source
          metadata none b).0 in
      let freed =
        (delete_ban empty_object is_ip_address date_add memory_bans lifted target banned).0 in
      let (_, _, history, config) = delete_ban_lem lifted target banned in
      let count : next_ban_times (lookup target freed.storage.history) ≡ add_u32 times 1 =
        ap (λ h. next_ban_times (lookup target h)) (history ∙ ap (λ x. x.0.storage.history) made)
        ∙ ap next_ban_times (lookup-insert_self target _ b.storage.history) in
      let same : freed.config ≡ b.config = config ∙ ap (λ x. x.0.config) made in
      let length : calculate_ban_duration freed.config.backoff
            (next_ban_times (lookup target freed.storage.history))
          ≡ calculate_ban_duration b.config.backoff (add_u32 times 1) =
        ap
          (λ c.
            calculate_ban_duration c.backoff (next_ban_times (lookup target freed.storage.history)))
          same
        ∙ ap (calculate_ban_duration b.config.backoff) count in
      let again =
        create_ban-saves empty_object is_ip_address date_add later later_id target later_reason
          later_source later_metadata none freed later_end v w' (ap (date_add later) length ∙ e') in
      (_, ap (λ x. x.1) again, count, length)
