-- ===== src/BanManager/Tests.antt =====
-- Bans of a user, and of addresses, from an empty storage; JSON values are numbers here.
use limiteron.Common.{
  ℕ, ◌+◌, ◌≡◌, ◌↔◌, refl, Bool, true, [], ◌∷◌, Option, none, some, Text, codes, lookup, insert, len,
  has_control, split, all_hexdigits,
}
use limiteron.Errors.{ok}
use limiteron.Storage.Interface.{BanTarget, ip, user_id, mac, BanTarget_key, BanRecord}
use limiteron.Storage.Memory.{MemoryStorage, memory_bans}
use limiteron.Storage.Memory as Memory
use limiteron.BanManager.{
  BanDetail, BanManager, auto, manual, new, calculate_ban_duration, detail_of, find_ip, skip_ips,
  create_ban, read_ban, delete_ban, check_ban_priority,
}
use limiteron.BanManager.Validate.{
  validate_user_id, validate_parts, validate_mac_address, validate_ban_target, validate_ban_reason,
}
use limiteron.BanManager.Create.{created_is_banned, record_of, new_detail}
use limiteron.BanManager.Priority.{FirstIsClear, check_ban_priority-none_iff}
use limiteron.BanManager.Delete.{escalates_past_delete}

-- `json!({})`
abbrev empty : ℕ
empty = 0

-- Every text is an address, and times have no end.
abbrev any_text : Text → Bool
any_text t = true

abbrev plus : ℕ → ℕ → Option ℕ
plus now d = some (now + d)

abbrev eve : BanTarget
eve = user_id (codes "eve")

abbrev manager : BanManager MemoryStorage
unfolding new
manager = new Memory.new none

valid_mac : validate_ban_target any_text (mac (codes "00:1a:2B:3c:4D:5e")) ≡ ok tt
unfolding validate_ban_target validate_mac_address len split validate_parts all_hexdigits
valid_mac = refl

abbrev first_ban : BanRecord
first_ban = record_of 5 eve (codes "abuse") auto 1 60000000000 60000000005

created_is_banned_example :
    ((create_ban empty any_text plus memory_bans 5 [] eve (codes "abuse") auto 7 none manager).1
      ≡ ok (new_detail empty any_text plus 5 [] auto 7 first_ban))
    × ((read_ban empty any_text plus memory_bans 9 [] eve
          (create_ban empty any_text plus memory_bans 5 [] eve
            (codes "abuse")
            auto
            7
            none
            manager).0).1
        ≡ ok (some (detail_of empty any_text plus [] first_ban)))
unfolding validate_ban_target validate_user_id validate_ban_reason len has_control lookup
    calculate_ban_duration new
created_is_banned_example =
    created_is_banned empty any_text plus 5 9 [] [] eve (codes "abuse") auto 7 none manager
      60000000005 refl refl refl

escalates_past_delete_example :
    (x : BanDetail ℕ) × ((create_ban empty any_text plus memory_bans 90 [] eve
        (codes "again")
        auto
        7
        none
        (delete_ban empty any_text plus memory_bans 8 eve
          (create_ban empty any_text plus memory_bans 5 [] eve
            (codes "abuse")
            auto
            7
            none
            manager).0).0).1
      ≡ ok x)
    × (x.ban_times ≡ 2)
    × (x.duration ≡ 300000000000)
unfolding validate_ban_target validate_user_id validate_ban_reason len has_control lookup
    calculate_ban_duration new
escalates_past_delete_example =
    escalates_past_delete empty any_text plus 5 8 90 [] [] eve (codes "abuse") (codes "again") auto
      auto 7 7 manager 60000000005 300000000090 refl refl refl refl refl

abbrev second_address : BanTarget
second_address = ip (codes "10.0.0.2")

abbrev one_banned : BanManager MemoryStorage
unfolding Memory.save insert new
one_banned = record manager {
  storage =
      (Memory.save (record_of 5 second_address (codes "abuse") (manual (codes "root")) 1 10 15)
        Memory.new).0;
}

check_ban_priority-none_iff_example :
    ((check_ban_priority empty any_text plus memory_bans 9 []
        (ip (codes "10.0.0.1") ∷ second_address ∷ [])
        one_banned).1
      ≡ ok none)
    ↔ (FirstIsClear 9 one_banned.storage (some (ip (codes "10.0.0.1"))) × Unit {0})
unfolding find_ip skip_ips
check_ban_priority-none_iff_example =
    check_ban_priority-none_iff empty any_text plus 9 []
      (ip (codes "10.0.0.1") ∷ second_address ∷ []) one_banned

-- The second address is banned, and the answer is that there is no ban.
second_address_unseen :
    (check_ban_priority empty any_text plus memory_bans 9 []
      (ip (codes "10.0.0.1") ∷ second_address ∷ [])
      one_banned).1
    ≡ ok none
unfolding find_ip skip_ips Memory.save insert lookup new
second_address_unseen =
    (check_ban_priority-none_iff empty any_text plus 9 []
        (ip (codes "10.0.0.1") ∷ second_address ∷ []) one_banned).1
      (refl, tt)
