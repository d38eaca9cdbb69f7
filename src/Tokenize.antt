-- ===== src/Tokenize.antt =====
-- services/tokenize/internal/service/tokenize_service.go: format-preserving encryption with keys of
-- the lock service, masks, and custom transformations. As for the crypto service, the list of
-- golang-lru and the lock service's answers are parameters.
pub mod Keys
pub mod Masking
pub mod Custom
pub mod Masked
pub mod Entries
pub mod Names
pub mod Consistent
pub mod Calls
pub mod RoundTrip
pub mod Batch
mod Tests
use grpc_vault_ha.Prelude.{
  ℕ, get_elem?, Bool, true, false, not, Option, none, some, List, [], ◌∷◌, if◌then◌else◌, ◌==◌,
  Result, ok, err, panic, ◌>>=◌, map, replicate, length,
}
use grpc_vault_ha.Prelude.Int.{ℤ, pos}
use grpc_vault_ha.Prelude.Text.{Text, codes, text_eq}
use grpc_vault_ha.Cache.Lru.{LruList}
use grpc_vault_ha.Crypto.Pool.{run_tasks}
use grpc_vault_ha.Fpe
use grpc_vault_ha.Fpe.{Ff1, Cipher, encrypt_with_tweak, decrypt_with_tweak}
use Keys.{
  Error, KeyInfo, LockClient, TokenizeService, key_not_found, encryption_failed, decryption_failed,
  lock_service_required, fpe_error,
}
use Custom.{get_alphabet}

pub record FpeBatchItem : Type 0 where
  pub value : Text
  pub tweak : Option Text
  pub reference : Text

pub record FpeResult : Type 0 where
  pub value : Text
  pub key_version : ℤ
  pub reference : Text
  pub error : Option Error

abbrev pub wrap : {A : Type 0} → Result Fpe.Error A → Result Error A
wrap (ok a) = ok a
wrap (err e) = err (fpe_error e)
wrap panic = panic

-- Any error of the cipher becomes the given one.
abbrev pub or_failed : {A : Type 0} → Error → Result Fpe.Error A → Result Error A
or_failed e (ok a) = ok a
or_failed e (err _) = err e
or_failed e panic = panic

-- The result of a batch for an item, and the zero value. (`panic` cannot come from the cipher.)
abbrev pub item_result : ℤ → Text → Result Error Text → FpeResult
item_result version reference (ok value) = record {
  value = value;
  key_version = version;
  reference = reference;
  error = none;
}
item_result version reference (err e) = record {
  value = [];
  key_version = version;
  reference = reference;
  error = some e;
}
item_result version reference panic = record {
  value = [];
  key_version = version;
  reference = reference;
  error = none;
}

abbrev pub no_result : FpeResult
no_result = record { value = []; key_version = pos 0; reference = []; error = none }

module _ (ff1 : Ff1) where
  unfoldable pub new_cipher : KeyInfo → Text → Result Error (Cipher ff1)
  new_cipher info alphabet = wrap (Fpe.new_cipher ff1 info.key alphabet)

  -- `EncryptWithTweak` or `Encrypt`, and `DecryptWithTweak` or `Decrypt`.
  unfoldable pub encrypt_value : Cipher ff1 → Text → Option Text → Result Fpe.Error Text
  encrypt_value cipher value (some tweak) = encrypt_with_tweak ff1 cipher value (some tweak)
  encrypt_value cipher value none = Fpe.encrypt ff1 cipher value

  unfoldable pub decrypt_value : Cipher ff1 → Text → Option Text → Result Fpe.Error Text
  decrypt_value cipher value (some tweak) = decrypt_with_tweak ff1 cipher value (some tweak)
  decrypt_value cipher value none = Fpe.decrypt ff1 cipher value

  -- A task of a batch. A failure of `newCipher` leaves the version out.
  unfoldable pub batch_item :
      (Cipher ff1 → Text → Option Text → Result Fpe.Error Text)
      → ℤ
      → FpeBatchItem
      → Result Error (Cipher ff1)
      → FpeResult
  batch_item f version item (ok cipher) =
      item_result version item.reference (wrap (f cipher item.value item.tweak))
  batch_item f version item (err e) = item_result (pos 0) item.reference (err e)
  batch_item f version item panic = item_result (pos 0) item.reference panic

  unfoldable pub batch_task :
      (Cipher ff1 → Text → Option Text → Result Fpe.Error Text)
      → KeyInfo
      → Text
      → List FpeBatchItem
      → ℕ
      → FpeResult
  unfolding new_cipher batch_item
  batch_task f info alphabet items i = elim (get_elem? items i) [
    | some item ↦ batch_item f info.version item (new_cipher info alphabet)
    | none ↦ no_result
  ]

  unfoldable pub batch_with :
      (Cipher ff1 → Text → Option Text → Result Fpe.Error Text)
      → List FpeBatchItem
      → List ℕ
      → Result Error (KeyInfo × Text)
      → List FpeResult
  unfolding batch_task
  batch_with f items order (ok (info, alphabet)) =
      run_tasks (batch_task f info alphabet items) order (replicate (length items) no_result)
  batch_with f items order (err e) = map (λ item. item_result (pos 0) item.reference (err e)) items
  batch_with f items order panic = map (λ item. item_result (pos 0) item.reference panic) items

module _ (ff1 : Ff1) (lru : LruList Text KeyInfo) where
  -- The client is there after `NewTokenizeService`; the cache has room for 10000 keys.
  unfoldable pub new_tokenize_service : Option (TokenizeService lru)
  new_tokenize_service = elim (lru.new (pos 10000)) [
    | none ↦ none
    | some cache ↦ some (record { key_cache = cache; connected = true; custom = [] })
  ]

  unfoldable pub store_key :
      TokenizeService lru → Text → Option KeyInfo → TokenizeService lru × Result Error KeyInfo
  store_key s name none = (s, err key_not_found)
  store_key s name (some info) =
      (record s { key_cache = (lru.add s.key_cache name info).0 }, ok info)

  unfoldable pub key_from :
      LockClient
      → TokenizeService lru
      → Text
      → lru.State × Option KeyInfo
      → TokenizeService lru × Result Error KeyInfo
  unfolding store_key
  key_from lock s name (cache, some info) = (record s { key_cache = cache }, ok info)
  key_from lock s name (cache, none) =
      if not s.connected
      then (record s { key_cache = cache }, err lock_service_required)
      else store_key (record s { key_cache = cache }) name (lock name (pos 0))

  unfoldable pub get_key :
      LockClient → TokenizeService lru → Text → TokenizeService lru × Result Error KeyInfo
  unfolding key_from
  get_key lock s name = key_from lock s name (lru.get s.key_cache name)

  unfoldable pub invalidate_key : TokenizeService lru → Text → TokenizeService lru
  invalidate_key s name = record s { key_cache = (lru.remove s.key_cache name).0 }

  -- The rest of `FPEEncrypt` and `FPEDecrypt` with the key at hand.
  unfoldable pub encrypt_with :
      TokenizeService lru → KeyInfo → Text → Text → Text → Option Text → Result Error (Text × ℤ)
  unfolding new_cipher encrypt_value
  encrypt_with s info plaintext transformation custom_alphabet tweak =
      get_alphabet lru s transformation custom_alphabet >>= λ alphabet.
      new_cipher ff1 info alphabet >>= λ cipher.
      or_failed encryption_failed (encrypt_value ff1 cipher plaintext tweak) >>= λ ciphertext.
      ok (ciphertext, info.version)

  unfoldable pub decrypt_with :
      TokenizeService lru → KeyInfo → Text → Text → Text → Option Text → Result Error (Text × ℤ)
  unfolding new_cipher decrypt_value
  decrypt_with s info ciphertext transformation custom_alphabet tweak =
      get_alphabet lru s transformation custom_alphabet >>= λ alphabet.
      new_cipher ff1 info alphabet >>= λ cipher.
      or_failed decryption_failed (decrypt_value ff1 cipher ciphertext tweak) >>= λ plaintext.
      ok (plaintext, info.version)

  unfoldable pub fpe_encrypt :
      LockClient
      → TokenizeService lru
      → Text
      → Text
      → Text
      → Text
      → Option Text
      → TokenizeService lru × Result Error (Text × ℤ)
  unfolding encrypt_with
  fpe_encrypt lock s name plaintext transformation custom_alphabet tweak =
      let (s', info) = get_key lock s name in
      (s', info >>= λ i. encrypt_with s' i plaintext transformation custom_alphabet tweak)

  unfoldable pub fpe_decrypt :
      LockClient
      → TokenizeService lru
      → Text
      → Text
      → Text
      → Text
      → Option Text
      → TokenizeService lru × Result Error (Text × ℤ)
  unfolding decrypt_with
  fpe_decrypt lock s name ciphertext transformation custom_alphabet tweak =
      let (s', info) = get_key lock s name in
      (s', info >>= λ i. decrypt_with s' i ciphertext transformation custom_alphabet tweak)

  -- `order` is the one in which the pool's tasks end.
  unfoldable pub fpe_encrypt_batch :
      LockClient
      → TokenizeService lru
      → Text
      → Text
      → Text
      → List FpeBatchItem
      → List ℕ
      → TokenizeService lru × List FpeResult
  unfolding encrypt_value batch_with
  fpe_encrypt_batch lock s name transformation custom_alphabet items order =
      let (s', info) = get_key lock s name in
      (
        s',
        batch_with ff1 (encrypt_value ff1) items order (
            info >>= λ i.
            get_alphabet lru s' transformation custom_alphabet >>= λ alphabet. ok (i, alphabet)),
      )

  unfoldable pub fpe_decrypt_batch :
      LockClient
      → TokenizeService lru
      → Text
      → Text
      → Text
      → List FpeBatchItem
      → List ℕ
      → TokenizeService lru × List FpeResult
  unfolding decrypt_value batch_with
  fpe_decrypt_batch lock s name transformation custom_alphabet items order =
      let (s', info) = get_key lock s name in
      (
        s',
        batch_with ff1 (decrypt_value ff1) items order (
            info >>= λ i.
            get_alphabet lru s' transformation custom_alphabet >>= λ alphabet. ok (i, alphabet)),
      )
