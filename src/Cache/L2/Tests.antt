-- ===== src/Cache/L2/Tests.antt =====
-- A cache of two entries over the list of most recent entries.
use limiteron.Common.{
  ℕ, true, List, [], none, some, Text, codes, ◌≡◌, ◌≢◌, ◌≤◌, refl, ltb, if◌then◌else◌, ◌⊎◌,
}
use limiteron.Errors.{ok}
use limiteron.Cache.L2.{CacheEntry, L2Cache, new_stats, get, set, with_config}
use limiteron.Cache.L2.Config.{default_config, validate}
use limiteron.Cache.L2.Lru.{list_lru, list_lru-IsLruCache}
use limiteron.Cache.L2.Values.{value_at, get-answers, set-value}

abbrev empty : L2Cache (ℕ × List (Text × CacheEntry))
empty = record { entries = (2, []); capacity = 2; default_ttl = some 50; stats = new_stats }

configured :
    with_config list_lru
      (λ (x : ℕ). true)
      (record (default_config 0) { capacity = 2; default_ttl = none })
    ≡ ok (record { entries = (2, []); capacity = 2; default_ttl = none; stats = new_stats })
unfolding with_config validate list_lru
configured = refl

abbrev held : L2Cache (ℕ × List (Text × CacheEntry))
unfolding set
held = set list_lru 3 4 (codes "k") (codes "v") none empty

set-value_example :
    ((t : ℕ)
      → value_at list_lru list_lru-IsLruCache t (codes "k") held
        ≡ (if ltb 53 t then none else some (codes "v")))
    × ((t : ℕ) (j : Text)
        → j ≢ codes "k"
        → (value_at list_lru list_lru-IsLruCache t j held
            ≡ value_at list_lru list_lru-IsLruCache t j empty)
          ⊎ (value_at list_lru list_lru-IsLruCache t j held ≡ none))
unfolding held
set-value_example = set-value list_lru list_lru-IsLruCache 3 4 (codes "k") (codes "v") none empty

get-answers_example :
    let (after, answer) = get list_lru 9 10 (codes "k") held in
    (answer ≡ value_at list_lru list_lru-IsLruCache 9 (codes "k") held)
    × ((j : Text) (t : ℕ)
        → 9 ≤ t
        → value_at list_lru list_lru-IsLruCache t j after
          ≡ value_at list_lru list_lru-IsLruCache t j held)
get-answers_example = get-answers list_lru list_lru-IsLruCache 9 10 (codes "k") held
