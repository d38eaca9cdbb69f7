-- ===== src/Lock/Tests.antt =====
-- Runs of lock_service.go, and the witnesses of its theorems.
use mathlib.Core.List.{Memᴰ}
use grpc_vault_ha.Prelude.{ℕ, ◌≡◌, refl, Option, some, List, [], ◌∷◌, arith, ok, true, replicate}
use grpc_vault_ha.Prelude.Int.{pos}
use grpc_vault_ha.Prelude.Text.{Text, codes, text_eq, text_dec}
use grpc_vault_ha.Prelude.Map.{lookup, insert}
use grpc_vault_ha.Aes.Toy.{toy, toy-Laws}
use grpc_vault_ha.Keyring
use grpc_vault_ha.Keyring.{new_keyring}
use grpc_vault_ha.Lock.Shamir.{shares_from, shamir_split, shamir_combine, bytes_equal}
use grpc_vault_ha.Lock.{LockService, new_lock_service, initialize, unseal, seal_vault, panics}
use grpc_vault_ha.Lock.Secrets.{put_secret, get_secret, list_secrets}
use grpc_vault_ha.Lock.Secrets.{new_secret}
use grpc_vault_ha.Lock.Storage.{put_secret-get_secret}
use grpc_vault_ha.Lock.Quorum.{unseal_all, unseal-Opening, Opening}
use grpc_vault_ha.Lock.Shares.{initialize-IsFresh, seal-unseal_all}
use grpc_vault_ha.Lock.Invariant.{IsValid, run-new_lock_service-IsValid}
use grpc_vault_ha.Lock.Lifecycle.{initializes, unseals, seals, puts, run, IsShut, run_sealed}
use grpc_vault_ha.Lock.Losses.{HasNoKeys, seal_vault-HasNoKeys, unseal_empty_share}

abbrev sevens : ℕ → ℕ → Option Text
sevens i n = some (replicate n 7)

abbrev fresh : LockService toy
fresh = new_lock_service toy (pos 3)

abbrev vault : LockService toy
vault = (initialize toy sevens fresh (pos 3) (pos 2)).0

abbrev keys : List Text
keys = (1 ∷ replicate 32 7) ∷ (2 ∷ replicate 32 7) ∷ (3 ∷ replicate 32 7) ∷ []

abbrev token : Text
token = replicate 32 7

initialize-vault : (initialize toy sevens fresh (pos 3) (pos 2)).1 ≡ ok (keys, token)
unfolding initialize shamir_split shares_from new_lock_service new_keyring
initialize-vault = refl

-- The first key twice.
seal-unseal_all_example :
    unseal_all toy (seal_vault toy vault).0 ((1 ∷ replicate 32 7) ∷ (1 ∷ replicate 32 7) ∷ [])
    ≡ record vault { keyring = (Keyring.seal toy vault.keyring).0; unseal_keys = [] }
seal-unseal_all_example =
    seal-unseal_all toy toy-Laws vault 3 keys (1 ∷ replicate 32 7) ((1 ∷ replicate 32 7) ∷ [])
      (initialize-IsFresh toy toy-Laws sevens fresh 3 (pos 2) keys token initialize-vault)
      (Memᴰ.head refl, (Memᴰ.head refl, tt))

run-new_lock_service-IsValid_example :
    IsValid toy (run toy fresh (initializes sevens (pos 3) (pos 2) ∷ seals ∷ unseals [] ∷ []))
run-new_lock_service-IsValid_example =
    run-new_lock_service-IsValid toy (pos 3)
      (initializes sevens (pos 3) (pos 2) ∷ seals ∷ unseals [] ∷ [])

abbrev closed : LockService toy
closed = (seal_vault toy vault).0

closed-sealed : closed.sealed ≡ true
unfolding seal_vault initialize shamir_split shares_from new_lock_service
closed-sealed = refl

run_sealed_example :
    (run toy closed (puts 5 (codes "a") [] ∷ seals ∷ []) ≡ closed)
    × IsShut toy (run toy closed (puts 5 (codes "a") [] ∷ seals ∷ []))
run_sealed_example =
    run_sealed toy closed (puts 5 (codes "a") [] ∷ seals ∷ []) closed-sealed (tt, (tt, tt))

seal-vault : (seal_vault toy vault).1 ≡ ok tt
unfolding seal_vault initialize shamir_split shares_from new_lock_service
seal-vault = refl

seal_vault-HasNoKeys_example : HasNoKeys toy (run toy closed (unseals (1 ∷ replicate 32 7) ∷ []))
seal_vault-HasNoKeys_example =
    seal_vault-HasNoKeys toy vault (unseals (1 ∷ replicate 32 7) ∷ []) seal-vault

-- A vault with threshold 1 is handed the empty text.
abbrev single : LockService toy
single = (seal_vault toy (initialize toy sevens fresh (pos 1) (pos 1)).0).0

unseal_empty_share_example :
    ((unseal toy single []).1 ≡ panics) × ((unseal toy single []).0.unseal_keys ≡ [] ∷ [])
unfolding seal_vault initialize shamir_split shares_from new_lock_service
unseal_empty_share_example =
    unseal_empty_share toy single [] [] [] refl refl refl refl (omega arith)

unseal-Opening_example : (single.initialized ≡ true) × Opening toy single (1 ∷ replicate 32 7)
unfolding unseal seal_vault initialize shamir_split shamir_combine bytes_equal shares_from
    new_lock_service
unseal-Opening_example = unseal-Opening toy single (1 ∷ replicate 32 7) refl refl

abbrev path : Text
path = codes "db"

put_secret-get_secret_example : (put_secret toy 5 vault path []).1 ≡ ok (pos 1)
unfolding seal_vault initialize shamir_split shares_from new_lock_service lookup
put_secret-get_secret_example = (put_secret-get_secret toy 5 vault path [] refl).0

abbrev stored : LockService toy
stored = (put_secret toy 5 vault path []).0

stored-secret : get_secret toy stored path ≡ ok (new_secret toy 5 vault path [])
unfolding put_secret get_secret initialize shamir_split shares_from new_lock_service lookup insert
    text_dec
stored-secret = refl

stored-listed : list_secrets toy stored (codes "d") ≡ ok (path ∷ [])
unfolding put_secret list_secrets initialize shamir_split shares_from new_lock_service lookup insert
    text_dec
stored-listed = refl
