-- ===== src/Crypto/Tests.antt =====
-- Runs of crypto_service.go, and the witnesses of its theorems.
use grpc_vault_ha.Prelude.{
  ℕ, zero, suc, ◌≡◌, refl, inr, true, Option, none, some, List, [], ◌∷◌, ◌++◌, arith, replicate,
  get_elem?, ok,
}
use grpc_vault_ha.Prelude.Int.{pos, negsuc}
use grpc_vault_ha.Prelude.Text.{Text, codes, text_eq, text_dec}
use grpc_vault_ha.Strings.Split.{split}
use grpc_vault_ha.Strings.Decimal.{print_int, atoi}
use grpc_vault_ha.Aes
use grpc_vault_ha.Aes.{Library, parse_ciphertext, new_cipher}
use grpc_vault_ha.Aes.Toy.{toy, toy-Laws}
use grpc_vault_ha.Cache.Slot.{slot, slot-Laws}
use grpc_vault_ha.Crypto.Keys.{KeyInfo, LockClient, cache_key, request_key}
use grpc_vault_ha.Crypto.{
  CryptoService, BatchItem, BatchDecryptItem, new_crypto_service, get_key, encrypt, decrypt,
  decrypt_batch, decrypted,
}
use grpc_vault_ha.Crypto.Pool.{Schedule}
use grpc_vault_ha.Crypto.Transparent.{Known, Answers}
use grpc_vault_ha.Crypto.RoundTrip.{Event, grows, encrypts, run, decrypt-encrypt_service}
use grpc_vault_ha.Crypto.Batch.{decrypt_batch-item}
use grpc_vault_ha.Crypto.Collision.{get_key-Confused}

abbrev numbered : ℕ → KeyInfo
numbered n = record { key = replicate 32 7; version = pos (suc n); key_type = pos 0 }

-- A lock service that has one version of every key.
abbrev one_version : LockClient
one_version name (pos zero) = some (numbered 0)
one_version name (pos (suc zero)) = some (numbered 0)
one_version name v = none

-- And one that has gained a second.
abbrev two_versions : LockClient
two_versions name (pos zero) = some (numbered 1)
two_versions name (pos (suc zero)) = some (numbered 0)
two_versions name (pos (suc (suc zero))) = some (numbered 1)
two_versions name v = none

abbrev fresh : CryptoService toy (slot KeyInfo)
fresh = record { key_cache = none; connected = true }

one-Answers : Answers toy (slot KeyInfo) (slot-Laws KeyInfo) one_version
one-Answers name (pos zero) info e = (0, ground (arith, e), omega arith, e)
one-Answers name (pos (suc zero)) info e = (0, ground (arith, e), omega arith, e)
one-Answers name (pos (suc (suc n))) info e = cc
one-Answers name (negsuc n) info e = cc

two-Answers : Answers toy (slot KeyInfo) (slot-Laws KeyInfo) two_versions
two-Answers name (pos zero) info e = (1, ground (arith, e), omega arith, e)
two-Answers name (pos (suc zero)) info e = (0, ground (arith, e), omega arith, e)
two-Answers name (pos (suc (suc zero))) info e = (1, ground (arith, e), omega arith, e)
two-Answers name (pos (suc (suc (suc n)))) info e = cc
two-Answers name (negsuc n) info e = cc

abbrev zeros : ℕ → Option Text
zeros n = some (replicate n 0)

-- "hi" under version 1.
abbrev hidden : Text
hidden = codes "vault:v1:" ++ replicate 13 0 ++ codes "ij"

abbrev rotation : List Event
rotation = grows two_versions ∷ encrypts zeros (codes "k") (codes "x") [] ∷ []

made :
    (encrypt toy (slot KeyInfo) zeros one_version fresh (codes "k") (codes "hi") []).1
    ≡ ok (hidden, pos 1)
unfolding encrypt get_key cache_key request_key new_cipher Aes.encrypt print_int
made = refl

decrypt-encrypt_service_example :
    (decrypt toy
      (slot KeyInfo)
      (run toy
        (slot KeyInfo)
        (
          one_version,
          (encrypt toy (slot KeyInfo) zeros one_version fresh (codes "k") (codes "hi") []).0,
        )
        rotation).0
      (run toy
        (slot KeyInfo)
        (
          one_version,
          (encrypt toy (slot KeyInfo) zeros one_version fresh (codes "k") (codes "hi") []).0,
        )
        rotation).1
      (codes "k")
      hidden
      []).1
    ≡ ok (codes "hi", pos 1)
unfolding new_crypto_service run
decrypt-encrypt_service_example =
    decrypt-encrypt_service toy (slot KeyInfo) (slot-Laws KeyInfo) toy-Laws one_version fresh []
      rotation zeros (codes "k") [] (replicate 12 0) hidden (codes "i") b'h' (pos 1) refl
      one-Answers tt (λ e. absurd (omega arith), tt) refl refl made
      ((two-Answers, grown), ((λ e. absurd (omega arith), tt), tt))
  where
    grown :
        (name : Text) (n : ℕ) (info : KeyInfo)
        → one_version name (pos (suc n)) ≡ some info
        → two_versions name (pos (suc n)) ≡ some info
    grown name zero info e = e
    grown name (suc n) info e = cc

-- A ciphertext with the version -4294967295 makes the service fetch version 1, which then is its
-- latest one.
get_key-Confused_example :
    (get_key toy
      (slot KeyInfo)
      two_versions
      (get_key toy (slot KeyInfo) two_versions fresh (codes "k") (negsuc 4294967294)).0
      (codes "k")
      (pos 0)).1
    ≡ ok (numbered 0)
unfolding request_key
get_key-Confused_example =
    get_key-Confused toy (slot KeyInfo) (slot-Laws KeyInfo) two_versions two_versions fresh
      (codes "k") (codes "k") (negsuc 4294967294) (numbered 0) (inr (4294967294, refl, refl)) refl
      refl refl

abbrev item : BatchItem
item = record { plaintext = codes "hi"; context = []; reference = codes "r" }

abbrev other_item : BatchItem
other_item = record { plaintext = codes "ho"; context = []; reference = codes "s" }

two-Schedule : Schedule 2 (1 ∷ 0 ∷ [])
two-Schedule i = (λ h. ground (arith, h), λ h. ground (arith, h))

abbrev sealed : BatchDecryptItem
sealed = record { ciphertext = hidden; context = []; reference = codes "r" }

fresh-Known : Known toy (slot KeyInfo) (slot-Laws KeyInfo) one_version fresh
fresh-Known = record {
  connected = refl;
  pinned = λ name n info f h p. cc;
  latest = λ name info f p. cc;
}

decrypt_batch-item_example :
    get_elem?
      (decrypt_batch toy
        (slot KeyInfo)
        one_version
        fresh
        (codes "k")
        (sealed ∷ sealed ∷ [])
        (1 ∷ 0 ∷ [])).1
      0
    ≡ some (
        decrypted
          (codes "r")
          (decrypt toy (slot KeyInfo) one_version fresh (codes "k") hidden []).1)
unfolding parse_ciphertext split atoi text_dec
decrypt_batch-item_example =
    decrypt_batch-item toy (slot KeyInfo) (slot-Laws KeyInfo) one_version (codes "k")
      (sealed ∷ sealed ∷ []) (λ e. absurd (omega arith), tt) one-Answers fresh (1 ∷ 0 ∷ []) 0 sealed
      fresh-Known two-Schedule refl (omega arith)
