-- ===== src/Keyring.antt =====
-- pkg/crypto/keyring/keyring.go: named keys with versions, their configuration and a cache of
-- ciphers. A method returns the new keyring and its result. `now` is what the clock shows during
-- the call, `random n` what `rand.Read` puts into a buffer of n bytes (`none` if it fails).
-- A `*KeyPolicy` that a method hands out is the value it points to at that moment.
pub mod Policy
pub mod Versions
pub mod Invariant
pub mod Preserved
pub mod History
pub mod Cache
pub mod Rotation
pub mod Sealed
mod Tests
use grpc_vault_ha.Prelude.{
  ℕ, Bool, true, false, not, Option, none, some, is_some, List, [], ◌∷◌, if◌then◌else◌, Result, ok,
  err, panic, ◌>>=◌, or_err,
}
use grpc_vault_ha.Prelude.Int.{ℤ, pos, ltb_ℤ, int_eq}
use grpc_vault_ha.Prelude.Text.{Text, text_eq}
use grpc_vault_ha.Prelude.Map
use grpc_vault_ha.Prelude.Map.{Map, lookup, insert, erase, or_empty}
use grpc_vault_ha.Aes
use grpc_vault_ha.Aes.{Library, Cipher, new_cipher}
use Policy.{
  KeyType, KeyPolicy, Key, KeyOption, Error, key_not_found, version_not_found, keyring_sealed,
  version_below_min, key_exists, deletion_not_allowed, invalid_json, cipher_error, apply_options,
  default_policy, generate_key_version, find_version, resolve_version, zero_keys,
}

module _ (lib : Library) where
  pub record Keyring : Type 0 where
    pub policies : Map Text KeyPolicy
    -- name -> version -> cipher
    pub ciphers : Map Text (Map ℤ (Cipher lib))
    pub sealed : Bool

  unfoldable pub new_keyring : Keyring
  new_keyring = record { policies = []; ciphers = []; sealed = false }

  -- What every reading method does first.
  unfoldable pub get_policy : Keyring → Text → Result Error KeyPolicy
  get_policy kr name =
      if kr.sealed then err keyring_sealed else or_err (lookup name kr.policies) key_not_found

  create_policy : Keyring → Text → Result Error KeyPolicy → Keyring × Result Error KeyPolicy
  create_policy kr name (ok p) = (record kr { policies = insert name p kr.policies }, ok p)
  create_policy kr name (err e) = (kr, err e)
  create_policy kr name panic = (kr, panic)

  unfoldable pub create_key :
      (ℕ → Option Text)
      → ℕ
      → Keyring
      → Text
      → KeyType
      → List KeyOption
      → Keyring × Result Error KeyPolicy
  unfolding create_policy
  create_key random now kr name key_type opts =
      if kr.sealed
      then (kr, err keyring_sealed)
      else if is_some (lookup name kr.policies)
      then (kr, err key_exists)
      else create_policy kr name
          (generate_key_version random now (apply_options (default_policy name key_type now) opts))

  unfoldable pub get_key : Keyring → Text → Result Error KeyPolicy
  get_key kr name = get_policy kr name

  version_of : KeyPolicy → ℤ → Result Error Key
  version_of p v =
      if ltb_ℤ v p.min_decryption_version
      then err version_below_min
      else or_err (find_version v p.keys) version_not_found

  unfoldable pub get_key_version : Keyring → Text → ℤ → Result Error Key
  unfolding version_of
  get_key_version kr name version =
      get_policy kr name >>= λ p. version_of p (resolve_version p version)

  -- `kr.ciphers[name]`, nil (which reads as empty) if it is missing.
  abbrev pub cipher_map : Keyring → Text → Map ℤ (Cipher lib)
  cipher_map kr name = or_empty (lookup name kr.ciphers)

  -- The cipher of a key, without the cache.
  unfoldable pub make_cipher : KeyPolicy → ℤ → Result Error (Cipher lib)
  make_cipher p v = or_err (find_version v p.keys) version_not_found >>= λ k.
      wrap_cipher (new_cipher lib k.key k.version)
    where
      wrap_cipher : Result Aes.Error (Cipher lib) → Result Error (Cipher lib)
      wrap_cipher (ok c) = ok c
      wrap_cipher (err e) = err (cipher_error e)
      wrap_cipher panic = panic

  cache_cipher :
      Keyring → Text → ℤ → Result Error (Cipher lib) → Keyring × Result Error (Cipher lib)
  cache_cipher kr name v (ok c) =
      (record kr { ciphers = insert name (insert v c (cipher_map kr name)) kr.ciphers }, ok c)
  cache_cipher kr name v (err e) = (kr, err e)
  cache_cipher kr name v panic = (kr, panic)

  cipher_of : Keyring → Text → ℤ → KeyPolicy → Keyring × Result Error (Cipher lib)
  unfolding cache_cipher
  cipher_of kr name v p = elim (lookup v (cipher_map kr name)) [
    | some c ↦ (kr, ok c)
    | none ↦ cache_cipher kr name v (make_cipher p v)
  ]

  cipher_from : Keyring → Text → ℤ → Result Error KeyPolicy → Keyring × Result Error (Cipher lib)
  unfolding cipher_of
  cipher_from kr name version (ok p) = cipher_of kr name (resolve_version p version) p
  cipher_from kr name version (err e) = (kr, err e)
  cipher_from kr name version panic = (kr, panic)

  unfoldable pub get_cipher : Keyring → Text → ℤ → Keyring × Result Error (Cipher lib)
  unfolding cipher_from
  get_cipher kr name version = cipher_from kr name version (get_policy kr name)

  -- The rest of `RotateKey` once the policy is found; `policy` is updated in place.
  rotate_policy : ℕ → Keyring → Text → Result Error KeyPolicy → Keyring × Result Error ℤ
  rotate_policy now kr name (ok p) = (
    record kr { policies = insert name (record p { updated_at = now }) kr.policies },
    ok p.latest_version,
  )
  rotate_policy now kr name (err e) = (kr, err e)
  rotate_policy now kr name panic = (kr, panic)

  unfoldable pub rotate_key : (ℕ → Option Text) → ℕ → Keyring → Text → Keyring × Result Error ℤ
  unfolding rotate_policy
  rotate_key random now kr name =
      rotate_policy now kr name (get_policy kr name >>= generate_key_version random now)

  delete_policy : Keyring → Text → Result Error KeyPolicy → Keyring × Result Error (Unit {0})
  delete_policy kr name (ok p) =
      if not p.deletion_allowed
      then (kr, err deletion_not_allowed)
      else (record kr { policies = erase name kr.policies; ciphers = erase name kr.ciphers }, ok tt)
  delete_policy kr name (err e) = (kr, err e)
  delete_policy kr name panic = (kr, panic)

  unfoldable pub delete_key : Keyring → Text → Keyring × Result Error (Unit {0})
  unfolding delete_policy
  delete_key kr name = delete_policy kr name (get_policy kr name)

  unfoldable pub list_keys : Keyring → List Text
  list_keys kr = Map.keys kr.policies

  configure :
      ℕ
      → Keyring
      → Text
      → List KeyOption
      → Result Error KeyPolicy
      → Keyring × Result Error (Unit {0})
  configure now kr name opts (ok p) = (
    record kr {
      policies = insert name (record (apply_options p opts) { updated_at = now }) kr.policies;
    },
    ok tt,
  )
  configure now kr name opts (err e) = (kr, err e)
  configure now kr name opts panic = (kr, panic)

  unfoldable pub update_config :
      ℕ → Keyring → Text → List KeyOption → Keyring × Result Error (Unit {0})
  unfolding configure
  update_config now kr name opts = configure now kr name opts (get_policy kr name)

  -- The new keyring, and what the policy objects hold afterwards that others may still point to.
  unfoldable pub seal : Keyring → Keyring × Map Text KeyPolicy
  seal kr = (record { policies = []; ciphers = []; sealed = true }, zero_keys kr.policies)

  unfoldable pub is_sealed : Keyring → Bool
  is_sealed kr = kr.sealed

  -- `json.Unmarshal` is the argument `parse`.
  unfoldable pub unmarshal :
      (Text → Option (Map Text KeyPolicy)) → Keyring → Text → Keyring × Result Error (Unit {0})
  unmarshal parse kr bytes = elim (parse bytes) [
    | none ↦ (kr, err invalid_json)
    | some policies ↦ (record { policies = policies; ciphers = []; sealed = false }, ok tt)
  ]
