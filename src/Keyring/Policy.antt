-- ===== src/Keyring/Policy.antt =====
-- keyring.go: the types, the options, and what is done with one policy or its keys.
use grpc_vault_ha.Prelude.{
  ℕ, Bool, false, Option, none, some, List, [], ◌∷◌, ◌++◌, map, if◌then◌else◌, replicate, length,
  Result, ok, ◌>>=◌, or_err,
}
use grpc_vault_ha.Prelude.Int.{ℤ, pos, eqb_ℤ, int_inc}
use grpc_vault_ha.Prelude.Text.{Text}
use grpc_vault_ha.Prelude.Map.{Map}
use grpc_vault_ha.Aes

pub data KeyType : Type 0 where
  aes256_gcm chacha20_poly1305 rsa2048 rsa4096 ecdsa_p256 ecdsa_p384 ed25519 fpe_ff1 : KeyType

pub data Error : Type 0 where
  key_not_found version_not_found keyring_sealed version_below_min : Error
  key_exists deletion_not_allowed random_failed invalid_json : Error
  cipher_error : Aes.Error → Error

pub record Key : Type 0 where
  pub version : ℤ
  pub key : Text
  pub public_key : Text
  pub key_type : KeyType
  pub created_at : ℕ

pub record KeyPolicy : Type 0 where
  pub name : Text
  pub key_type : KeyType
  pub latest_version : ℤ
  pub min_decryption_version : ℤ
  pub min_encryption_version : ℤ
  pub exportable : Bool
  pub derived : Bool
  pub convergent_encryption : Bool
  pub auto_rotate_period : ℤ
  pub deletion_allowed : Bool
  pub keys : List Key
  pub created_at : ℕ
  pub updated_at : ℕ

-- The functions `WithExportable`, …, `WithDeletionAllowed`.
pub data KeyOption : Type 0 where
  with_exportable with_derived with_convergent_encryption with_deletion_allowed : Bool → KeyOption
  with_min_decryption_version with_min_encryption_version : ℤ → KeyOption
  with_auto_rotate_period : ℤ → KeyOption

unfoldable pub apply_option : KeyPolicy → KeyOption → KeyPolicy
apply_option p (with_exportable b) = record p { exportable = b }
apply_option p (with_derived b) = record p { derived = b }
apply_option p (with_convergent_encryption b) = record p { convergent_encryption = b }
apply_option p (with_deletion_allowed b) = record p { deletion_allowed = b }
apply_option p (with_min_decryption_version v) = record p { min_decryption_version = v }
apply_option p (with_min_encryption_version v) = record p { min_encryption_version = v }
apply_option p (with_auto_rotate_period s) = record p { auto_rotate_period = s }

-- `for _, opt := range opts { opt(policy) }`
unfoldable pub apply_options : KeyPolicy → List KeyOption → KeyPolicy
apply_options p [] = p
apply_options p (o ∷ os) = apply_options (apply_option p o) os

-- Both branches of the `switch` choose 32 bytes.
abbrev pub key_size : KeyType → ℕ
key_size aes256_gcm = 32
key_size chacha20_poly1305 = 32
key_size fpe_ff1 = 32
key_size _ = 32

-- The version that follows a policy's latest.
abbrev pub new_key : KeyPolicy → ℕ → Text → Key
new_key p now key_bytes = record {
  version = int_inc p.latest_version;
  key = key_bytes;
  public_key = [];
  key_type = p.key_type;
  created_at = now;
}

unfoldable pub generate_key_version : (ℕ → Option Text) → ℕ → KeyPolicy → Result Error KeyPolicy
generate_key_version random now p =
    or_err (random (key_size p.key_type)) random_failed >>= λ key_bytes. ok (record p {
      latest_version = int_inc p.latest_version;
      keys = p.keys ++ new_key p now key_bytes ∷ [];
    })

-- The policy that `CreateKey` starts from; version 0 for encryption means the latest.
abbrev pub default_policy : Text → KeyType → ℕ → KeyPolicy
default_policy name key_type now = record {
  name = name;
  key_type = key_type;
  latest_version = pos 0;
  min_decryption_version = pos 1;
  min_encryption_version = pos 0;
  exportable = false;
  derived = false;
  convergent_encryption = false;
  auto_rotate_period = pos 0;
  deletion_allowed = false;
  keys = [];
  created_at = now;
  updated_at = now;
}

-- The loops over `policy.Keys`.
unfoldable pub find_version : ℤ → List Key → Option Key
find_version v [] = none
find_version v (k ∷ ks) = if eqb_ℤ k.version v then some k else find_version v ks

-- Version 0 means the latest.
abbrev pub resolve_version : KeyPolicy → ℤ → ℤ
resolve_version p v = if eqb_ℤ v (pos 0) then p.latest_version else v

-- `for i := range key.Key { key.Key[i] = 0 }` over all keys of a policy.
abbrev pub zero_key : Key → Key
zero_key k = record k { key = replicate (length k.key) 0 }

unfoldable pub zero_keys : Map Text KeyPolicy → Map Text KeyPolicy
zero_keys [] = []
zero_keys ((name, p) ∷ m) = (name, record p { keys = map zero_key p.keys }) ∷ zero_keys m
