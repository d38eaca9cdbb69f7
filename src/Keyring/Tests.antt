-- ===== src/Keyring/Tests.antt =====
-- Runs of keyring.go, and the witnesses of its theorems.
use grpc_vault_ha.Prelude.{
  ℕ, ◌≡◌, refl, Option, some, List, [], ◌∷◌, arith, ok, err, false, replicate, ◌>>=◌,
}
use grpc_vault_ha.Prelude.Int.{pos, ℤ_discrete}
use grpc_vault_ha.Prelude.Text.{Text, codes, text_dec, text_eq}
use grpc_vault_ha.Prelude.Map.{lookup, insert}
use grpc_vault_ha.Aes.{new_cipher}
use grpc_vault_ha.Aes.Toy.{toy}
use grpc_vault_ha.Keyring.Policy.{
  KeyPolicy, Key, aes256_gcm, with_min_decryption_version, version_below_min, find_version,
  generate_key_version, apply_options, resolve_version, new_key, apply_option,
}
use grpc_vault_ha.Keyring.{
  Keyring, new_keyring, get_policy, create_key, get_key_version, get_cipher, make_cipher,
  rotate_key, update_config, seal,
}
use grpc_vault_ha.Keyring.Invariant.{IsValid}
use grpc_vault_ha.Keyring.History.{
  Call, creates, rotates, configures, ciphers, run, step, run-new_keyring-IsValid,
}
use grpc_vault_ha.Keyring.Cache.{get_cipher-make_cipher, get_cipher_below_min}
use grpc_vault_ha.Keyring.Rotation.{rotate_key-get_key_version}
use grpc_vault_ha.Keyring.Sealed.{Refuses, run-seal-Refuses}

abbrev sevens : ℕ → Option Text
sevens n = some (replicate n 7)

abbrev master : Text
master = codes "m"

-- Two versions of a key, of which only the second may decrypt; the first is cached.
abbrev history : List Call
history =
    creates sevens 1 master aes256_gcm []
    ∷ ciphers master (pos 1)
    ∷ rotates sevens 2 master
    ∷ configures 3 master (with_min_decryption_version (pos 2) ∷ [])
    ∷ []

abbrev kept : Keyring toy
kept = run toy (new_keyring toy) history

run-new_keyring-IsValid_example : IsValid toy kept
run-new_keyring-IsValid_example = run-new_keyring-IsValid toy history (omega arith)

abbrev key_of : ℕ → ℕ → Key
key_of version now = record {
  version = pos version;
  key = replicate 32 7;
  public_key = [];
  key_type = aes256_gcm;
  created_at = now;
}

abbrev policy : KeyPolicy
policy = record {
  name = master;
  key_type = aes256_gcm;
  latest_version = pos 2;
  min_decryption_version = pos 2;
  min_encryption_version = pos 0;
  exportable = false;
  derived = false;
  convergent_encryption = false;
  auto_rotate_period = pos 0;
  deletion_allowed = false;
  keys = key_of 1 1 ∷ key_of 2 2 ∷ [];
  created_at = 1;
  updated_at = 3;
}

get_policy-kept : get_policy toy kept master ≡ ok policy
unfolding get_policy run step new_keyring create_key generate_key_version apply_options rotate_key
    get_cipher update_config apply_option lookup insert text_dec make_cipher find_version new_cipher
    ℤ_discrete
get_policy-kept = refl

get_cipher-make_cipher_example :
    (get_cipher toy kept master (pos 1)).1
    ≡ (get_policy toy kept master >>= λ p. make_cipher toy p (resolve_version p (pos 1)))
get_cipher-make_cipher_example =
    get_cipher-make_cipher toy kept master (pos 1) run-new_keyring-IsValid_example

get_cipher_below_min_example :
    (get_key_version toy kept master (pos 1) ≡ err version_below_min)
    × ((get_cipher toy kept master (pos 1)).1 ≡ make_cipher toy policy (pos 1))
get_cipher_below_min_example =
    get_cipher_below_min toy kept master (pos 1) policy run-new_keyring-IsValid_example
      get_policy-kept (omega arith)

rotate_key-get_key_version_example :
    get_key_version toy (rotate_key toy sevens 4 kept master).0 master (pos 0)
    ≡ ok (new_key policy 4 (replicate 32 7))
rotate_key-get_key_version_example =
    (rotate_key-get_key_version toy sevens 4 kept master policy (replicate 32 7)
      run-new_keyring-IsValid_example get_policy-kept refl (omega arith) (omega arith)).1

run-seal-Refuses_example :
    Refuses toy (run toy (seal toy kept).0 (creates sevens 5 master aes256_gcm [] ∷ [])) master
run-seal-Refuses_example =
    run-seal-Refuses toy kept (creates sevens 5 master aes256_gcm [] ∷ []) master

lookup-kept : lookup master kept.policies ≡ some policy
unfolding run step new_keyring create_key generate_key_version apply_options rotate_key get_cipher
    get_policy update_config apply_option lookup insert text_dec make_cipher find_version new_cipher
    ℤ_discrete
lookup-kept = refl
