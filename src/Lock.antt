-- ===== src/Lock.antt =====
-- services/lock/internal/service/lock_service.go: the vault's seal, its secrets and its keys.
-- A method returns the new service and its result. `now` is what the clock shows; `random i n` is
-- what the i-th `rand.Read` of the call puts into a buffer of n bytes (`none` if it fails); base64
-- is that of the library parameter. Logging is left out.
pub mod Shamir
pub mod Secrets
pub mod Storage
pub mod Quorum
pub mod Shares
pub mod Invariant
pub mod Lifecycle
pub mod Losses
mod Tests
use grpc_vault_ha.Prelude.{
  ℕ, Bool, true, false, not, ◌&&◌, ◌||◌, Option, none, some, List, [], ◌∷◌, ◌++◌, map, keep, length,
  leb, eqb, take, if◌then◌else◌, ◌==◌, Result, ok, err, panic, ◌>>=◌, or_err, is_some,
}
use grpc_vault_ha.Prelude.Int.{ℤ, pos, leb_ℤ, int_inc}
use grpc_vault_ha.Prelude.Text.{Text, text_eq}
use grpc_vault_ha.Prelude.Map
use grpc_vault_ha.Prelude.Map.{Map, lookup, insert, erase}
use grpc_vault_ha.Aes.{Library}
use grpc_vault_ha.Keyring
use grpc_vault_ha.Keyring.{Keyring, new_keyring}
use grpc_vault_ha.Keyring.Policy
use grpc_vault_ha.Keyring.Policy.{KeyType, KeyPolicy, Key}
use Shamir.{
  Error, sealed_error, not_sealed, not_initialized, already_initialized, invalid_key,
  secret_not_found, random_failed, keyring_error, shamir_split, shamir_combine, bytes_equal,
}

pub record Secret : Type 0 where
  pub fields : Map Text Text
  pub version : ℤ
  pub created_at : ℕ
  pub updated_at : ℕ
  pub custom_metadata : Map Text Text

-- What `Unseal` returns: whether the vault is unsealed, the progress, and an error.
pub data Outcome : Type 0 where
  returns : Bool → ℤ → Option Error → Outcome
  panics : Outcome

module _ (lib : Library) where
  pub record LockService : Type 0 where
    pub initialized : Bool
    pub sealed : Bool
    pub master_key : Text
    pub shamir_keys : List Text
    pub threshold : ℤ
    pub unseal_keys : List Text
    pub secrets : Map Text Secret
    pub keyring : Keyring lib
    pub barrier_key : Text

  -- `threshold` is the one of the configuration.
  unfoldable pub new_lock_service : ℤ → LockService
  new_lock_service threshold = record {
    initialized = false;
    sealed = true;
    master_key = [];
    shamir_keys = [];
    threshold = threshold;
    unseal_keys = [];
    secrets = [];
    keyring = new_keyring lib;
    barrier_key = [];
  }

  -- The three keys of a new vault and its shares, in the order in which they are made.
  make_keys : (ℕ → ℕ → Option Text) → ℤ → Result Error (Text × List Text × Text × Text)
  make_keys random shares = do
    master_key ← or_err (random 0 32) random_failed
    shamir_keys ← shamir_split master_key shares
    barrier_key ← or_err (random 1 32) random_failed
    root_token ← or_err (random 2 32) random_failed
    ok (master_key, shamir_keys, barrier_key, lib.encode root_token)

  store_keys :
      LockService
      → ℤ
      → Result Error (Text × List Text × Text × Text)
      → LockService × Result Error (List Text × Text)
  store_keys s threshold (ok (master_key, shamir_keys, barrier_key, root_token)) = (
    record s {
      master_key = master_key;
      shamir_keys = shamir_keys;
      barrier_key = barrier_key;
      threshold = threshold;
      initialized = true;
      sealed = false;
    },
    ok (map lib.encode shamir_keys, root_token),
  )
  store_keys s threshold (err e) = (s, err e)
  store_keys s threshold panic = (s, panic)

  unfoldable pub initialize :
      (ℕ → ℕ → Option Text) → LockService → ℤ → ℤ → LockService × Result Error (List Text × Text)
  unfolding store_keys make_keys
  initialize random s shares threshold =
      if s.initialized
      then (s, err already_initialized)
      else store_keys s threshold (make_keys random shares)

  -- `s.unsealKeys = make([][]byte, 0)` after a wrong share, and the end of a right one.
  conclude : LockService → Result Error Text → LockService × Outcome
  conclude s (ok reconstructed) =
      if not (bytes_equal reconstructed s.master_key)
      then (record s { unseal_keys = [] }, returns false (pos 0) (some invalid_key))
      else (record s { sealed = false; unseal_keys = [] }, returns true s.threshold none)
  conclude s (err e) = (record s { unseal_keys = [] }, returns false (pos 0) (some invalid_key))
  conclude s panic = (s, panics)

  -- `s` holds the new share already.
  combine : LockService → LockService × Outcome
  unfolding conclude
  combine s =
      if leb_ℤ s.threshold (pos (length s.unseal_keys))
      then conclude s (shamir_combine s.unseal_keys)
      else (s, returns false (pos (length s.unseal_keys)) none)

  add_share : LockService → Option Text → LockService × Outcome
  unfolding combine
  add_share s none = (s, returns false (pos (length s.unseal_keys)) (some invalid_key))
  add_share s (some share) = combine (record s { unseal_keys = s.unseal_keys ++ share ∷ [] })

  unfoldable pub unseal : LockService → Text → LockService × Outcome
  unfolding add_share
  unseal s key_share =
      if not s.initialized
      then (s, returns false (pos 0) (some not_initialized))
      else if not s.sealed
      then (s, returns true s.threshold none)
      else add_share s (lib.decode key_share)

  unfoldable pub seal_vault : LockService → LockService × Result Error (Unit {0})
  seal_vault s =
      if not s.initialized
      then (s, err not_initialized)
      else if s.sealed
      then (s, err not_sealed)
      else (
        record s { keyring = (Keyring.seal lib s.keyring).0; unseal_keys = []; sealed = true },
        ok tt,
      )

  unfoldable pub get_seal_status : LockService → Bool × Bool × ℤ × ℤ
  get_seal_status s = (s.sealed, s.initialized, s.threshold, pos (length s.unseal_keys))
