-- ===== src/QuotaController/Tests.antt =====
-- A quota of ten in an hour, with and without overdraft; and a storage that another client uses too.
use limiteron.Common.{
  ◌+◌, ◌≤◌, ◌≡◌, ◌↔◌, refl, true, false, arith, if◌then◌else◌, Text, Text_key, codes, lookup,
  insert,
}
use limiteron.Common.Float.{exact}
use limiteron.Errors.{ConsumeResult, ok}
use limiteron.Storage.Interface.{QuotaStorage}
use limiteron.Storage.Memory.{MemoryStorage, memory_quotas, current_entry, charge, quota_key}
use limiteron.Storage.Memory as Memory
use limiteron.Storage.Quotas.{used}
use limiteron.QuotaController.{
  QuotaConfig, QuotaState, QuotaController, default_config, new, total_limit, overdraft_limit,
  consume,
}
use limiteron.QuotaController.Consume.{storage_verdict_ignored, consume-keeps_quota}

abbrev ten : QuotaConfig
ten = record default_config { limit = 10; allow_overdraft = true; overdraft_limit_percent = 20 }

abbrev strict : QuotaConfig
strict = record default_config { limit = 10 }

abbrev spent : QuotaState
spent = record { consumed = 7; window_start = 0; window_end = 3600000000000 }

abbrev alice : Text
alice = codes "alice"

abbrev file : Text
file = codes "file"

-- Another client spends eight just before each call of `consume`.
abbrev contended : QuotaStorage MemoryStorage
contended = record {
  get_quota = memory_quotas.get_quota;
  consume = λ now u r cost limit window s.
      memory_quotas.consume now u r cost limit window
        (memory_quotas.consume now u r 8 limit window s).0;
  reset = memory_quotas.reset;
}

abbrev begun : MemoryStorage
unfolding Memory.reset insert
begun = (Memory.reset 5 alice file 10 3600000000000 Memory.new).0

abbrev controller : QuotaController MemoryStorage
unfolding new
controller = new begun strict

abbrev taken : MemoryStorage
unfolding Memory.consume charge current_entry lookup insert
taken = (contended.consume 6 alice file 4 10 3600000000000 begun).0

storage_verdict_ignored_example :
    (d : QuotaController MemoryStorage) × (x : ConsumeResult) × (consume exact contended 6 alice
        file 4 controller
      ≡ (d, ok x))
    × (x.allowed ≡ true)
    × (d.storage ≡ taken)
unfolding Memory.get_quota Memory.consume Memory.reset charge current_entry lookup insert
    total_limit overdraft_limit new
storage_verdict_ignored_example =
    storage_verdict_ignored exact contended 6 alice file 4 controller
      (record { consumed = 0; limit = 10; window_start = 5; window_end = 3600000000005 }) taken
      (record { allowed = false; remaining = 2; alert_triggered = false }) (omega arith) refl
      (omega arith) (omega arith) (omega arith) refl

consume-keeps_quota_example :
    (d : QuotaController MemoryStorage) × (x : ConsumeResult) × (consume exact memory_quotas 6 alice
        file 4 controller
      ≡ (d, ok x))
    × ((x.allowed ≡ true) ↔ (used 6 alice file begun + 4 ≤ total_limit strict))
    × (used 6 alice file d.storage
        ≡ (if x.allowed then used 6 alice file begun + 4 else used 6 alice file begun))
unfolding Memory.reset lookup insert new
consume-keeps_quota_example =
    consume-keeps_quota exact 6 alice file 4 controller (omega arith) (omega arith)
      (omega arith, refl) (omega arith)
