-- ===== src/Crypto/Collision.antt =====
-- crypto_service.go, `getKey`: requests that the cache of keys mistakes for each other.
use grpc_vault_ha.Prelude.{
  ℕ, suc, ◌≡◌, ◌⊎◌, ap, ◌∙◌, true, Option, none, some, ◌∷◌, ◌++◌, arith, inl, inr, ok,
}
use grpc_vault_ha.Prelude.Int.{ℤ, pos, negsuc}
use grpc_vault_ha.Prelude.Text.{Text}
use grpc_vault_ha.Strings.Decimal.{print_int}
use grpc_vault_ha.Aes.{Library}
use grpc_vault_ha.Cache.Lru.{LruList, Laws}
use grpc_vault_ha.Crypto.Keys.{KeyInfo, LockClient, cache_key, request_key}
use grpc_vault_ha.Crypto.{CryptoService, get_key, store_key}
use grpc_vault_ha.Crypto.Transparent.{get_key-hit, get_key-miss}

-- A version of a key, and the latest version of the key whose name is that one's with the version
-- appended; or a negative version of a key, and its latest one.
abbrev pub Confused : Text → ℤ → Text → Type 0
Confused name v other =
    ((n : ℕ) × (v ≡ pos (suc n)) × (other ≡ name ++ b':' ∷ print_int (pos (suc n))))
    ⊎ ((n : ℕ) × (v ≡ negsuc n) × (other ≡ name))

Confused-same :
    (name other : Text) (v : ℤ) → Confused name v other → cache_key other (pos 0) ≡ cache_key name v
unfolding cache_key
Confused-same name other v (inl (n, e, o)) = rw (e, o) (ground arith)
Confused-same name other v (inr (n, e, o)) = rw (e, o) (ground arith)

module _ (lib : Library) (lru : LruList Text KeyInfo) (laws : Laws Text KeyInfo lru) where
  stored :
      (s : CryptoService lib lru) (key : Text) (info : KeyInfo) (answer : Option KeyInfo)
      → answer ≡ some info
      → lru.peek (store_key lib lru s key answer).0.key_cache key ≡ some info
  unfolding store_key
  stored s key info none e = cc
  stored s key info (some found) e = laws.peek-add_self s.key_cache key found ∙ e

  -- The bug: a key fetched for the one request is handed out for the other, whatever the lock
  -- service answers then. A caller who may decrypt with `name` can so decide which key encrypts
  -- under `other`, an older version of the same name included.
  pub get_key-Confused :
      (lock lock' : LockClient) (s : CryptoService lib lru) (name other : Text) (v : ℤ)
      (info : KeyInfo)
      → Confused name v other
      → s.connected ≡ true
      → lru.peek s.key_cache (cache_key name v) ≡ none
      → request_key lock name v ≡ some info
      → (get_key lib lru lock' (get_key lib lru lock s name v).0 other (pos 0)).1 ≡ ok info
  get_key-Confused lock lock' s name other v info confused c missing answer =
      ap (λ r. r.1) (get_key-hit lib lru laws lock' _ other (pos 0) info there)
    where
      there :
          lru.peek (get_key lib lru lock s name v).0.key_cache (cache_key other (pos 0)) ≡ some info
      there =
          rw
            (Confused-same name other v confused, get_key-miss lib lru laws lock s name v c missing)
            (stored _ (cache_key name v) info (request_key lock name v) answer)
