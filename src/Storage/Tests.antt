-- ===== src/Storage/Tests.antt =====
-- A storage with one ban that runs out at 100, and a quota of ten in windows of 50.
use limiteron.Common.{
  ◌+◌, ◌-◌, ◌≤◌, ◌≡◌, ◌↔◌, refl, true, false, [], ◌++◌, none, some, arith, if◌then◌else◌, Text,
  Text_key, codes, lookup, insert,
}
use limiteron.Errors.{ConsumeResult}
use limiteron.Storage.Interface.{stored, BanTarget, ip, user_id, BanTarget_key, BanRecord}
use limiteron.Storage.Memory.{
  after_lookup, MemoryStorage, new, is_banned, save, remove_ban, get_history, consume, get_quota,
  charge, current_entry,
}
use limiteron.Storage.Bans.{in_force, late_removal_lifts_ban, saved_then_removed}
use limiteron.Storage.Quotas.{used, consume_lem, shared_quota}

abbrev mallory : BanTarget
mallory = user_id (codes "mallory")

abbrev ban : BanRecord
ban = record {
  target = mallory;
  ban_times = 2;
  duration = 90;
  banned_at = 10;
  expires_at = 100;
  is_manual = false;
  reason = codes "abuse";
}

abbrev banned : MemoryStorage
unfolding save insert
banned = (save ban new).0

expires :
    ((is_banned 99 mallory banned).1 ≡ stored (some ban))
    × ((is_banned 100 mallory banned).1 ≡ stored none)
unfolding is_banned save insert lookup
expires = (refl, refl)

-- A ban that is over, and one of the same target.
abbrev second_ban : BanRecord
second_ban = record ban { expires_at = 500 }

late_removal_lifts_ban_example :
    let kept = (save second_ban banned).0 in
    let after = (after_lookup 200 mallory (lookup mallory banned.bans) kept).0 in
    ((is_banned 300 mallory kept).1 ≡ stored (some second_ban))
    × ((is_banned 300 mallory after).1 ≡ stored none)
    × ((get_history mallory after).1
        ≡ stored (
            some
              (record { ban_times = second_ban.ban_times; last_banned_at = second_ban.banned_at })))
unfolding save insert lookup
late_removal_lifts_ban_example = late_removal_lifts_ban 200 300 ban second_ban banned refl refl refl

saved_then_removed_example :
    let kept = (save ban new).0 in
    let freed = (remove_ban mallory kept).0 in
    ((is_banned 50 mallory kept).1 ≡ stored (in_force 50 (some ban)))
    × ((get_history mallory kept).1 ≡ stored (some (record { ban_times = 2; last_banned_at = 10 })))
    × ((is_banned 50 (ip (codes "::1")) kept).1 ≡ (is_banned 50 (ip (codes "::1")) new).1)
    × ((is_banned 50 mallory freed).1 ≡ stored none)
    × ((get_history mallory freed).1 ≡ (get_history mallory kept).1)
    × ((is_banned 50 (ip (codes "::1")) freed).1 ≡ (is_banned 50 (ip (codes "::1")) new).1)
saved_then_removed_example = saved_then_removed 50 ban (ip (codes "::1")) new (λ e. cc)

abbrev alice : Text
alice = codes "alice"

abbrev spent_four : MemoryStorage
unfolding consume
spent_four = (consume 0 alice alice 4 10 50 new).0

consume_lem_example :
    (r : ConsumeResult) × ((consume 20 alice alice 7 10 50 new).1 ≡ stored r)
    × ((r.allowed ≡ true) ↔ (used 20 alice alice new + 7 ≤ 10))
    × (used 20 alice alice (consume 20 alice alice 7 10 50 new).0
        ≡ (if r.allowed then used 20 alice alice new + 7 else used 20 alice alice new))
    × (r.remaining ≡ 10 - used 20 alice alice (consume 20 alice alice 7 10 50 new).0)
    × (lookup (codes "other") (consume 20 alice alice 7 10 50 new).0.quota_data
        ≡ lookup (codes "other") [])
unfolding lookup
consume_lem_example =
    consume_lem 20 alice alice 7 10 50 new (codes "other") (omega arith) (omega arith) (λ e. cc)

refused_after_four :
    (consume 20 alice alice 7 10 50 spent_four).1
    ≡ stored (record { allowed = false; remaining = 6; alert_triggered = false })
unfolding consume charge current_entry lookup insert
refused_after_four = refl

shared_quota_example :
    (consume 0 (codes "a" ++ (codes ":" ++ codes "b")) (codes "c") 3 10 50 new
      ≡ consume 0 (codes "a") (codes "b" ++ (codes ":" ++ codes "c")) 3 10 50 new)
    × (get_quota (codes "a" ++ (codes ":" ++ codes "b")) (codes "c") new
        ≡ get_quota (codes "a") (codes "b" ++ (codes ":" ++ codes "c")) new)
shared_quota_example = shared_quota 0 (codes "a") (codes "b") (codes "c") 3 10 50 new
