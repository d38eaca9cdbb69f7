-- ===== src/Cache.antt =====
-- pkg/storage/cache/lru.go: an LRU cache with an expiry for its entries, and its counters.
-- The LRU list is a third-party library and a parameter. Times are nanoseconds, `now` is what the
-- clock shows, durations are not negative. The counters count up from 0 and do not reach 2^63.
pub mod Lru
pub mod Ideal
pub mod Slot
mod Tests
use grpc_vault_ha.Prelude.{
  ℕ, ◌+◌, Bool, true, false, not, ◌&&◌, Option, none, some, List, [], ◌∷◌, ltb, eqb, if◌then◌else◌,
}
use grpc_vault_ha.Prelude.Int.{ℤ}
use Lru.{LruList}

pub record CacheEntry (V : Type 0) : Type 0 where
  pub value : V
  pub expires_at : ℕ

module _ (K V : Type 0) (lru : LruList K (CacheEntry V)) where
  pub record LruCache : Type 0 where
    pub cache : lru.State
    pub ttl : ℕ
    pub hits : ℕ
    pub misses : ℕ
    pub evictions : ℕ

  -- `none` is the error of the library.
  unfoldable pub new_lru_cache_with_ttl : ℤ → ℕ → Option LruCache
  new_lru_cache_with_ttl size ttl = elim (lru.new size) [
    | none ↦ none
    | some c ↦ some (record { cache = c; ttl = ttl; hits = 0; misses = 0; evictions = 0 })
  ]

  -- `c.ttl > 0 && time.Now().After(entry.expiresAt)`
  abbrev expired : ℕ → LruCache → CacheEntry V → Bool
  expired now c entry = ltb 0 c.ttl && ltb entry.expires_at now

  found : ℕ → LruCache → K → lru.State × Option (CacheEntry V) → LruCache × Option V
  found now c key (cache, none) = (record c { cache = cache; misses = c.misses + 1 }, none)
  found now c key (cache, some entry) =
      if expired now c entry
      then (record c { cache = (lru.remove cache key).0; misses = c.misses + 1 }, none)
      else (record c { cache = cache; hits = c.hits + 1 }, some entry.value)

  unfoldable pub get : ℕ → LruCache → K → LruCache × Option V
  unfolding found
  get now c key = found now c key (lru.get c.cache key)

  add_entry : LruCache → K → CacheEntry V → LruCache
  add_entry c key entry =
      let (cache, evicted) = lru.add c.cache key entry in
      record c { cache = cache; evictions = if evicted then c.evictions + 1 else c.evictions }

  -- The zero time, if the cache has no expiry.
  abbrev pub expiry : ℕ → LruCache → ℕ
  expiry now c = if ltb 0 c.ttl then now + c.ttl else 0

  unfoldable pub set : ℕ → LruCache → K → V → LruCache
  unfolding add_entry
  set now c key value = add_entry c key (record { value = value; expires_at = expiry now c })

  unfoldable pub set_with_ttl : ℕ → LruCache → K → V → ℕ → LruCache
  unfolding add_entry
  set_with_ttl now c key value ttl =
      add_entry c key (record { value = value; expires_at = now + ttl })

  unfoldable pub delete : LruCache → K → LruCache × Bool
  delete c key =
      let (cache, present) = lru.remove c.cache key in (record c { cache = cache }, present)

  unfoldable pub clear : LruCache → LruCache
  clear c = record c { cache = lru.purge c.cache }

  unfoldable pub contains : ℕ → LruCache → K → Bool
  contains now c key = elim (lru.peek c.cache key) [
    | none ↦ false
    | some entry ↦ not (expired now c entry)
  ]

  unfoldable pub reset_stats : LruCache → LruCache
  reset_stats c = record c { hits = 0; misses = 0; evictions = 0 }
