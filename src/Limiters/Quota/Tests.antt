-- ===== src/Limiters/Quota/Tests.antt =====
-- A quota of two in an hour, which one key has used once.
use limiteron.Common.{◌≡◌, refl, [], ◌∷◌, arith, Text, codes, lookup}
use limiteron.QuotaController.{QuotaConfig, default_config}
use limiteron.Limiters.Quota.{QuotaLimiter, QuotaRecord, max_usage}
use limiteron.Limiters.Quota.Budget.{granted_to, granted_to-asked_for}

abbrev two : QuotaConfig
two = record default_config { limit = 2 }

abbrev ann : Text
ann = codes "ann"

abbrev bob : Text
bob = codes "bob"

abbrev used_once : QuotaRecord
used_once = record { usage = 1; window_start = 7 }

abbrev limiter : QuotaLimiter
limiter = record { config = two; usage = (ann, used_once) ∷ [] }

granted_to-asked_for_example : granted_to ann ((8, ann) ∷ (9, bob) ∷ (10, ann) ∷ []) limiter ≡ 1
unfolding max_usage lookup
granted_to-asked_for_example =
    granted_to-asked_for ann ((8, ann) ∷ (9, bob) ∷ (10, ann) ∷ []) limiter used_once refl
      (omega arith) (omega arith) (omega arith, (omega arith, (omega arith, tt)))
