-- ===== src/Cache/Tests.antt =====
-- Runs of lru.go over a list with room for one entry, and the witnesses of its theorems.
use grpc_vault_ha.Prelude.{ℕ, ◌≡◌, ◌≤◌, ◌⊎◌, refl, none, some, List, [], ◌∷◌}
use grpc_vault_ha.Prelude.Int.{pos}
use grpc_vault_ha.Prelude.Text.{Text, codes, text_eq, text_dec}
use grpc_vault_ha.Prelude.Map.{lookup}
use grpc_vault_ha.Cache.Slot.{slot, slot-Laws}
use grpc_vault_ha.Cache.{CacheEntry, LruCache, new_lru_cache_with_ttl, get, set}
use grpc_vault_ha.Cache.Ideal.{Call, gets, sets, run, step, ideal_run, get-run}

abbrev cache : LruCache Text ℕ (slot (CacheEntry ℕ))
cache = record { cache = none; ttl = 10; hits = 0; misses = 0; evictions = 0 }

new-cache : new_lru_cache_with_ttl Text ℕ (slot (CacheEntry ℕ)) (pos 1) 10 ≡ some cache
unfolding new_lru_cache_with_ttl
new-cache = refl

abbrev calls : List (Call Text ℕ)
calls = sets 1 (codes "a") 7 ∷ gets 2 (codes "a") ∷ sets 3 (codes "a") 8 ∷ []

get-calls :
    (get Text ℕ
      (slot (CacheEntry ℕ))
      13
      (run Text ℕ (slot (CacheEntry ℕ)) cache calls)
      (codes "a")).1
    ≡ some 8
unfolding get run step set text_dec
get-calls = refl

get-run_example :
    (e : CacheEntry ℕ) × (lookup (codes "a") (ideal_run Text ℕ 10 [] calls) ≡ some e)
    × (e.value ≡ 8)
    × ((cache.ttl ≡ 0) ⊎ (13 ≤ e.expires_at))
get-run_example =
    get-run Text ℕ (slot (CacheEntry ℕ)) (slot-Laws (CacheEntry ℕ)) (pos 1) 10 cache calls 13
      (codes "a") 8 new-cache get-calls
