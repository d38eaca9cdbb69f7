-- ===== src/Lock/Secrets.antt =====
-- lock_service.go: the methods on secrets and keys, all guarded by the seal.
use grpc_vault_ha.Prelude.{
  ℕ, Bool, ◌&&◌, ◌||◌, Option, none, some, List, [], keep, length, leb, eqb, take, if◌then◌else◌,
  ◌==◌, Result, ok, err, panic, ◌>>=◌, or_err,
}
use grpc_vault_ha.Prelude.Int.{ℤ, pos, int_inc}
use grpc_vault_ha.Prelude.Text.{Text, text_eq}
use grpc_vault_ha.Prelude.Map
use grpc_vault_ha.Prelude.Map.{
  Map, lookup, insert, erase, lookup-insert_self, lookup-insert_ne, lookup-erase_self,
  lookup-erase_ne,
}
use grpc_vault_ha.Aes.{Library}
use grpc_vault_ha.Keyring
use grpc_vault_ha.Keyring.{Keyring}
use grpc_vault_ha.Keyring.Policy
use grpc_vault_ha.Keyring.Policy.{KeyType, KeyPolicy, Key}
use grpc_vault_ha.Lock.Shamir.{Error, sealed_error, secret_not_found, keyring_error}
use grpc_vault_ha.Lock.{LockService, Secret}

-- `len(prefix) == 0 || len(path) >= len(prefix) && path[:len(prefix)] == prefix`
abbrev pub under : Text → Text → Bool
under prefix path =
    eqb (length prefix) 0
    || (leb (length prefix) (length path) && (take (length prefix) path == prefix))

-- The version that a new secret gets: one more than that of the one it replaces.
abbrev pub next_version : Option Secret → ℤ
next_version none = pos 1
next_version (some existing) = int_inc existing.version

abbrev wrap : {A : Type 0} → Result Policy.Error A → Result Error A
wrap (ok a) = ok a
wrap (err e) = err (keyring_error e)
wrap panic = panic

module _ (lib : Library) where
  -- Each version is a new object: only the number goes on.
  abbrev pub new_secret : ℕ → LockService lib → Text → Map Text Text → Secret
  new_secret now s path fields = record {
    fields = fields;
    version = next_version (lookup path s.secrets);
    created_at = now;
    updated_at = now;
    custom_metadata = [];
  }

  unfoldable pub put_secret :
      ℕ → LockService lib → Text → Map Text Text → LockService lib × Result Error ℤ
  put_secret now s path fields = if s.sealed then (s, err sealed_error) else (
    record s { secrets = insert path (new_secret now s path fields) s.secrets },
    ok (next_version (lookup path s.secrets)),
  )

  unfoldable pub get_secret : LockService lib → Text → Result Error Secret
  get_secret s path =
      if s.sealed then err sealed_error else or_err (lookup path s.secrets) secret_not_found

  unfoldable pub delete_secret : LockService lib → Text → LockService lib × Result Error (Unit {0})
  delete_secret s path = if s.sealed then (s, err sealed_error) else elim (lookup path s.secrets) [
    | none ↦ (s, err secret_not_found)
    | some secret ↦ (record s { secrets = erase path s.secrets }, ok tt)
  ]

  unfoldable pub list_secrets : LockService lib → Text → Result Error (List Text)
  list_secrets s prefix =
      if s.sealed then err sealed_error else ok (keep (under prefix) (Map.keys s.secrets))

  -- The keyring is changed in place, and only its error is returned.
  unfoldable pub with_keyring :
      {A : Type 0}
      → LockService lib
      → Keyring lib × Result Policy.Error A
      → LockService lib × Result Error A
  with_keyring s (kr, r) = (record s { keyring = kr }, wrap r)

  unfoldable pub create_key :
      (ℕ → Option Text)
      → ℕ
      → LockService lib
      → Text
      → KeyType
      → LockService lib × Result Error (Unit {0})
  unfolding with_keyring
  create_key random now s name key_type =
      if s.sealed
      then (s, err sealed_error)
      else (let (kr, r) = Keyring.create_key lib random now s.keyring name key_type [] in
          with_keyring s (kr, r >>= λ policy. ok tt))

  unfoldable pub get_key : LockService lib → Text → Result Error KeyPolicy
  get_key s name = if s.sealed then err sealed_error else wrap (Keyring.get_key lib s.keyring name)

  unfoldable pub get_encryption_key : LockService lib → Text → ℤ → Result Error Key
  get_encryption_key s name version =
      if s.sealed
      then err sealed_error
      else wrap (Keyring.get_key_version lib s.keyring name version)

  unfoldable pub rotate_key :
      (ℕ → Option Text) → ℕ → LockService lib → Text → LockService lib × Result Error ℤ
  unfolding with_keyring
  rotate_key random now s name =
      if s.sealed
      then (s, err sealed_error)
      else with_keyring s (Keyring.rotate_key lib random now s.keyring name)

  unfoldable pub list_keys : LockService lib → Result Error (List Text)
  list_keys s = if s.sealed then err sealed_error else ok (Keyring.list_keys lib s.keyring)
