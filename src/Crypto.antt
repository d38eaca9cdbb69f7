-- ===== src/Crypto.antt =====
-- services/crypto/internal/service/crypto_service.go: encryption with keys of the lock service, and
-- the cache of these keys. The list of golang-lru is a parameter, as is the lock service: `lock`
-- is what it answers to a request for a name and a version during a call, `none` for an error.
-- Strings are kept as bytes; base64 is that of the library of the AES component.
pub mod Keys
pub mod Pool
pub mod Transparent
pub mod RoundTrip
pub mod Batch
pub mod Collision
pub mod Random
mod Tests
use grpc_vault_ha.Prelude.{
  ℕ, ◌+◌, ◌-◌, ◌/◌, ◌%◌, get_elem?, Bool, true, false, not, ◌||◌, Option, none, some, List, [], ◌∷◌,
  ◌++◌, leb, ltb, eqb, if◌then◌else◌, ◌==◌, Result, ok, err, panic, ◌>>=◌, or_err, map, replicate,
  length,
}
use grpc_vault_ha.Prelude.Int.{ℤ, pos, pos_part, ltb_ℤ, leb_ℤ}
use grpc_vault_ha.Prelude.Text.{Text, codes, text_eq}
use grpc_vault_ha.Strings.Decimal.{print_int}
use grpc_vault_ha.Aes
use grpc_vault_ha.Aes.{Library, Cipher, new_cipher, parse_ciphertext}
use grpc_vault_ha.Cache.Lru.{LruList}
use Keys.{
  Error, KeyInfo, LockClient, key_not_found, decrypt_failed, invalid_input, lock_service_required,
  cipher_error, random_failed, cache_key, request_key,
}
use Pool.{run_tasks, set_at}

-- `BatchItem`, `EncryptResult`; `BatchDecryptItem` and `DecryptResult` below.
pub record BatchItem : Type 0 where
  pub plaintext : Text
  pub context : Text
  pub reference : Text

pub record EncryptResult : Type 0 where
  pub ciphertext : Text
  pub key_version : ℤ
  pub reference : Text
  pub error : Option Error

pub record BatchDecryptItem : Type 0 where
  pub ciphertext : Text
  pub context : Text
  pub reference : Text

pub record DecryptResult : Type 0 where
  pub plaintext : Text
  pub key_version : ℤ
  pub reference : Text
  pub error : Option Error

-- The errors of the AES component, passed on.
abbrev pub wrap : {A : Type 0} → Result Aes.Error A → Result Error A
wrap (ok a) = ok a
wrap (err e) = err (cipher_error e)
wrap panic = panic

-- The result of a task of `EncryptBatch`. (`panic` cannot come from the cipher.)
abbrev pub encrypted : Text → ℤ → Result Error Text → EncryptResult
encrypted reference version (ok ciphertext) = record {
  ciphertext = ciphertext;
  key_version = version;
  reference = reference;
  error = none;
}
encrypted reference version (err e) = record {
  ciphertext = [];
  key_version = version;
  reference = reference;
  error = some e;
}
encrypted reference version panic = record {
  ciphertext = [];
  key_version = version;
  reference = reference;
  error = none;
}

-- The zero value of a result.
abbrev no_result : EncryptResult
no_result = record { ciphertext = []; key_version = pos 0; reference = []; error = none }

abbrev pub decrypted : Text → Result Error (Text × ℤ) → DecryptResult
decrypted reference (ok (plaintext, version)) = record {
  plaintext = plaintext;
  key_version = version;
  reference = reference;
  error = none;
}
decrypted reference (err e) = record {
  plaintext = [];
  key_version = pos 0;
  reference = reference;
  error = some e;
}
decrypted reference panic = record {
  plaintext = [];
  key_version = pos 0;
  reference = reference;
  error = none;
}

-- `hex.EncodeToString`
abbrev hex_digit : ℕ → ℕ
hex_digit d = if ltb d 10 then b'0' + d else b'a' + (d - 10)

unfoldable pub hex_encode : Text → Text
hex_encode [] = []
hex_encode (b ∷ bytes) = hex_digit (b / 16) ∷ hex_digit (b % 16) ∷ hex_encode bytes

module _ (lib : Library) (lru : LruList Text KeyInfo) where
  pub record CryptoService : Type 0 where
    pub key_cache : lru.State
    pub connected : Bool

  -- The client is there after `NewCryptoService`; the cache has room for 10000 keys.
  unfoldable pub new_crypto_service : Option CryptoService
  new_crypto_service = elim (lru.new (pos 10000)) [
    | none ↦ none
    | some cache ↦ some (record { key_cache = cache; connected = true })
  ]

  -- What the lock service answers is stored under the cache key.
  unfoldable pub store_key :
      CryptoService → Text → Option KeyInfo → CryptoService × Result Error KeyInfo
  store_key s key none = (s, err key_not_found)
  store_key s key (some info) = (record s { key_cache = (lru.add s.key_cache key info).0 }, ok info)

  key_from :
      LockClient
      → CryptoService
      → Text
      → ℤ
      → lru.State × Option KeyInfo
      → CryptoService × Result Error KeyInfo
  unfolding store_key
  key_from lock s name version (cache, some info) = (record s { key_cache = cache }, ok info)
  key_from lock s name version (cache, none) =
      if not s.connected
      then (record s { key_cache = cache }, err lock_service_required)
      else store_key (record s { key_cache = cache }) (cache_key name version)
          (request_key lock name version)

  unfoldable pub get_key :
      LockClient → CryptoService → Text → ℤ → CryptoService × Result Error KeyInfo
  unfolding key_from
  get_key lock s name version =
      key_from lock s name version (lru.get s.key_cache (cache_key name version))

  -- `newCipher`, and the rest of `Encrypt` with the key at hand.
  unfoldable pub encrypt_with : (ℕ → Option Text) → KeyInfo → Text → Text → Result Error (Text × ℤ)
  encrypt_with random info plaintext aad = wrap (new_cipher lib info.key info.version) >>= λ cipher.
      wrap (Aes.encrypt lib random cipher plaintext aad) >>= λ ciphertext.
      ok (ciphertext, info.version)

  unfoldable pub encrypt :
      (ℕ → Option Text)
      → LockClient
      → CryptoService
      → Text
      → Text
      → Text
      → CryptoService × Result Error (Text × ℤ)
  unfolding encrypt_with
  encrypt random lock s name plaintext aad =
      let (s', info) = get_key lock s name (pos 0) in
      (s', info >>= λ i. encrypt_with random i plaintext aad)

  abbrev or_decrypt_failed : {A : Type 0} → Result Aes.Error A → Result Error A
  or_decrypt_failed (ok a) = ok a
  or_decrypt_failed (err e) = err decrypt_failed
  or_decrypt_failed panic = panic

  unfoldable pub decrypt_with : KeyInfo → Text → Text → Result Error (Text × ℤ)
  decrypt_with info ciphertext aad = wrap (new_cipher lib info.key info.version) >>= λ cipher.
      or_decrypt_failed (Aes.decrypt lib cipher ciphertext aad)

  decrypt_version :
      LockClient
      → CryptoService
      → Text
      → Text
      → Text
      → Result Aes.Error (ℤ × Text)
      → CryptoService × Result Error (Text × ℤ)
  unfolding decrypt_with
  decrypt_version lock s name ciphertext aad (ok (version, payload)) =
      let (s', info) = get_key lock s name version in
      (s', info >>= λ i. decrypt_with i ciphertext aad)
  decrypt_version lock s name ciphertext aad (err e) = (s, err (cipher_error e))
  decrypt_version lock s name ciphertext aad panic = (s, panic)

  unfoldable pub decrypt :
      LockClient → CryptoService → Text → Text → Text → CryptoService × Result Error (Text × ℤ)
  unfolding decrypt_version
  decrypt lock s name ciphertext aad =
      decrypt_version lock s name ciphertext aad (parse_ciphertext ciphertext)

  encrypt_by : (ℕ → Option Text) → KeyInfo → BatchItem → Result Error (Cipher lib) → EncryptResult
  encrypt_by random info item (ok cipher) =
      encrypted item.reference info.version
        (wrap (Aes.encrypt lib random cipher item.plaintext item.context))
  encrypt_by random info item (err e) = encrypted item.reference (pos 0) (err e)
  encrypt_by random info item panic = encrypted item.reference (pos 0) panic

  unfoldable pub encrypt_item : (ℕ → Option Text) → KeyInfo → BatchItem → EncryptResult
  unfolding encrypt_by
  encrypt_item random info item =
      encrypt_by random info item (wrap (new_cipher lib info.key info.version))

  -- Each task has random bytes of its own.
  encrypt_task : (ℕ → ℕ → Option Text) → KeyInfo → List BatchItem → ℕ → EncryptResult
  unfolding encrypt_item
  encrypt_task random info items i = elim (get_elem? items i) [
    | some item ↦ encrypt_item (random i) info item
    | none ↦ no_result
  ]

  batch_with :
      (ℕ → ℕ → Option Text) → List BatchItem → List ℕ → Result Error KeyInfo → List EncryptResult
  unfolding encrypt_task
  batch_with random items order (ok info) =
      run_tasks (encrypt_task random info items) order (replicate (length items) no_result)
  batch_with random items order (err e) =
      map (λ item. encrypted item.reference (pos 0) (err e)) items
  batch_with random items order panic = map (λ item. encrypted item.reference (pos 0) panic) items

  -- `order` is the one in which the pool's tasks end.
  unfoldable pub encrypt_batch :
      (ℕ → ℕ → Option Text)
      → LockClient
      → CryptoService
      → Text
      → List BatchItem
      → List ℕ
      → CryptoService × List EncryptResult
  unfolding batch_with
  encrypt_batch random lock s name items order =
      let (s', info) = get_key lock s name (pos 0) in (s', batch_with random items order info)

  -- The tasks of `DecryptBatch` share the cache of keys; each is a step.
  unfoldable pub decrypt_tasks :
      LockClient
      → CryptoService
      → Text
      → List BatchDecryptItem
      → List ℕ
      → List DecryptResult
      → CryptoService × List DecryptResult
  decrypt_tasks lock s name items [] results = (s, results)
  decrypt_tasks lock s name items (i ∷ order) results = elim (get_elem? items i) [
    | none ↦ decrypt_tasks lock s name items order results
    | some item ↦
        decrypt_tasks lock (decrypt lock s name item.ciphertext item.context).0 name items order (
          set_at i (decrypted item.reference (decrypt lock s name item.ciphertext item.context).1)
            results)
  ]

  unfoldable pub decrypt_batch :
      LockClient
      → CryptoService
      → Text
      → List BatchDecryptItem
      → List ℕ
      → CryptoService × List DecryptResult
  unfolding decrypt_tasks
  decrypt_batch lock s name items order = decrypt_tasks lock s name items order (
      replicate (length items)
        (record { plaintext = []; key_version = pos 0; reference = []; error = none }))

unfoldable pub generate_random : Library → (ℕ → Option Text) → ℤ → Text → Result Error Text
unfolding hex_encode
generate_random lib random num_bytes format =
    if leb_ℤ num_bytes (pos 0) || ltb_ℤ (pos 1024) num_bytes
    then err invalid_input
    else (or_err (random (pos_part num_bytes)) random_failed >>= λ bytes.
        ok (if format == codes "hex" then hex_encode bytes else lib.encode bytes))
