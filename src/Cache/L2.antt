-- ===== src/Cache/L2.antt =====
-- src/cache/l2.rs: the L2 cache, one call after the other; each holds the lock of the data. The map
-- is `lru::LruCache`, a parameter. Instants have no end here, and the clock is read where the code
-- reads it.
pub mod Lru
pub mod Config
pub mod Values
mod Tests
use limiteron.Common.{
  ℕ, ◌+◌, Bool, true, false, not, List, [], ◌∷◌, Option, none, some, Text, Text_key, length, leb,
  ltb, if◌then◌else◌, add_u64, insert,
}
use limiteron.Cache.L2.Lru.{LruCache}
use limiteron.Cache.L2.Config.{L2CacheConfig, validate}
use limiteron.Errors.{Result, ok, panic}

pub record CacheEntry : Type 0 where
  pub value : Text
  pub expires_at : Option ℕ
  pub last_accessed : ℕ
  pub access_count : ℕ

-- `CacheEntry::new`
unfoldable pub new_entry : ℕ → ℕ → Text → Option ℕ → CacheEntry
new_entry now later value ttl = record {
  value = value;
  expires_at = elim ttl [ none ↦ none | some d ↦ some (now + d) ];
  last_accessed = later;
  access_count = 1;
}

unfoldable pub is_expired : ℕ → CacheEntry → Bool
is_expired now entry = elim entry.expires_at [ some t ↦ ltb t now | none ↦ false ]

unfoldable pub update_access : ℕ → CacheEntry → CacheEntry
update_access now entry = record entry {
  last_accessed = now;
  access_count = add_u64 entry.access_count 1;
}

pub record StatsData : Type 0 where
  pub hits : ℕ
  pub misses : ℕ
  pub expirations : ℕ
  pub evictions : ℕ
  pub writes : ℕ

-- `CacheStats::new`
abbrev pub new_stats : StatsData
new_stats = record { hits = 0; misses = 0; expirations = 0; evictions = 0; writes = 0 }

unfoldable pub record_hit : StatsData → StatsData
record_hit stats = record stats { hits = add_u64 stats.hits 1 }

unfoldable pub record_miss : StatsData → StatsData
record_miss stats = record stats { misses = add_u64 stats.misses 1 }

unfoldable pub record_expiration : StatsData → StatsData
record_expiration stats = record stats { expirations = add_u64 stats.expirations 1 }

unfoldable pub record_eviction : StatsData → StatsData
record_eviction stats = record stats { evictions = add_u64 stats.evictions 1 }

unfoldable pub record_write : StatsData → StatsData
record_write stats = record stats { writes = add_u64 stats.writes 1 }

pub record L2Cache (C : Type 0) : Type 0 where
  pub entries : C
  pub capacity : ℕ
  pub default_ttl : Option ℕ
  pub stats : StatsData

abbrev pub some_or : Option ℕ → Option ℕ → Option ℕ
some_or none d = d
some_or (some a) d = some a

-- The keys of the entries that are expired; the clock is read once here.
unfoldable pub expired_keys : ℕ → List (Text × CacheEntry) → List Text
unfolding is_expired
expired_keys now [] = []
expired_keys now (e ∷ rest) =
    let later = expired_keys now rest in if is_expired now e.1 then e.0 ∷ later else later

module _ {C : Type 0} (lru : LruCache CacheEntry C) where
  -- `with_config` panics on a configuration that is not valid.
  unfoldable pub with_config : {F : Type 0} → (F → Bool) → L2CacheConfig F → Result (L2Cache C)
  unfolding validate
  with_config in_unit config = elim (validate in_unit config) [
    | none ↦ ok (record {
      entries = lru.new config.capacity;
      capacity = config.capacity;
      default_ttl = config.default_ttl;
      stats = new_stats;
    })
    | some message ↦ panic
  ]

  -- The branches of `get`; `entries` is the map after the lookup, which makes the key the most recent.
  unfoldable pub got : ℕ → ℕ → Text → Option CacheEntry → L2Cache C → L2Cache C × Option Text
  unfolding is_expired update_access record_hit record_miss record_expiration
  got now later key none cache = (record cache { stats = record_miss cache.stats }, none)
  got now later key (some entry) cache =
      if is_expired now entry
      then (
        record cache { entries = lru.pop key cache.entries; stats = record_expiration cache.stats },
        none,
      )
      else (
        record cache {
          entries = lru.write key (update_access later entry) cache.entries;
          stats = record_hit cache.stats;
        },
        some entry.value,
      )

  unfoldable pub get : ℕ → ℕ → Text → L2Cache C → L2Cache C × Option Text
  unfolding got
  get now later key cache =
      got now later key (lru.peek key cache.entries)
        (record cache { entries = lru.touch key cache.entries })

  unfoldable pub set : ℕ → ℕ → Text → Text → Option ℕ → L2Cache C → L2Cache C
  unfolding new_entry record_eviction record_write
  set now later key value ttl cache =
      let entry = new_entry now later value (some_or ttl cache.default_ttl) in
      record cache {
        entries = lru.put key entry cache.entries;
        stats = record_write (
            if leb cache.capacity (lru.len cache.entries)
            then record_eviction cache.stats
            else cache.stats);
      }

  unfoldable pub delete : Text → L2Cache C → L2Cache C
  delete key cache = record cache { entries = lru.pop key cache.entries }

  unfoldable pub contains : ℕ → Text → L2Cache C → L2Cache C × Bool
  unfolding is_expired
  contains now key cache = (
    record cache { entries = lru.touch key cache.entries },
    elim (lru.peek key cache.entries) [ none ↦ false | some entry ↦ not (is_expired now entry) ],
  )

  unfoldable pub clear : L2Cache C → L2Cache C
  clear cache = record cache { entries = lru.clear cache.entries }

  unfoldable pub len : L2Cache C → ℕ
  len cache = lru.len cache.entries

  -- A batch, with what each of its calls reads from the clock. `found` is the result so far.
  unfoldable pub batch_get :
      List (Text × ℕ × ℕ) → List (Text × Text) → L2Cache C → L2Cache C × List (Text × Text)
  unfolding get insert
  batch_get [] found cache = (cache, found)
  batch_get ((key, now, later) ∷ rest) found cache =
      let (after, o) = get now later key cache in
      batch_get rest (elim o [ none ↦ found | some value ↦ insert key value found ]) after

  unfoldable pub batch_set : List (Text × Text × Option ℕ × ℕ × ℕ) → L2Cache C → L2Cache C
  unfolding set
  batch_set [] cache = cache
  batch_set ((key, value, ttl, now, later) ∷ rest) cache =
      batch_set rest (set now later key value ttl cache)

  unfoldable pub batch_delete : List Text → L2Cache C → L2Cache C
  unfolding delete
  batch_delete [] cache = cache
  batch_delete (key ∷ rest) cache = batch_delete rest (delete key cache)

  unfoldable pub expire_each : List Text → L2Cache C → L2Cache C
  unfolding record_expiration
  expire_each [] cache = cache
  expire_each (key ∷ rest) cache =
      expire_each rest (record cache {
        entries = lru.pop key cache.entries;
        stats = record_expiration cache.stats;
      })

  unfoldable pub cleanup_expired : ℕ → L2Cache C → L2Cache C × ℕ
  unfolding expired_keys expire_each
  cleanup_expired now cache =
      let keys = expired_keys now (lru.iter cache.entries) in (expire_each keys cache, length keys)

  unfoldable pub evict_lru : L2Cache C → L2Cache C
  unfolding record_eviction
  evict_lru cache =
      let (entries, popped) = lru.pop_lru cache.entries in
      if popped
      then record cache { entries = entries; stats = record_eviction cache.stats }
      else record cache { entries = entries }
