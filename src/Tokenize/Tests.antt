-- ===== src/Tokenize/Tests.antt =====
-- Runs of tokenize_service.go, and the witnesses of its theorems.
use mathlib.Core.List.{Memᴰ}
use grpc_vault_ha.Prelude.{
  ◌≡◌, ◌↔◌, ◌+◌, ◌*◌, ◌-◌, refl, true, none, some, List, [], ◌∷◌, arith, replicate, length, take,
  get_elem?, ok, err, panic,
}
use grpc_vault_ha.Prelude.Int.{pos, negsuc}
use grpc_vault_ha.Prelude.Text.{Text, codes, text_eq, text_dec}
use grpc_vault_ha.Prelude.Map.{lookup}
use grpc_vault_ha.Strings.Utf8.{runes, contains_rune}
use grpc_vault_ha.Cache.Slot.{slot, slot-Laws}
use grpc_vault_ha.Crypto.Pool.{Schedule}
use grpc_vault_ha.Fpe
use grpc_vault_ha.Fpe.Toy.{toy_ff1, toy_ff1-Laws}
use grpc_vault_ha.Fpe.Transformations.{alphabet_numeric}
use grpc_vault_ha.Tokenize.Keys.{
  KeyInfo, LockClient, TokenizeService, invalid_input, override_built_in, delete_built_in,
}
use grpc_vault_ha.Tokenize.Masking.{mask}
use grpc_vault_ha.Tokenize.Masked.{mask-Hidden, mask-panic}
use grpc_vault_ha.Tokenize.Custom.{
  get_alphabet, get_transformation, list_transformations, create_transformation,
  delete_transformation,
}
use grpc_vault_ha.Tokenize.Names.{
  IsValid, Change, creates, deletes, changes, get_transformation-Listed,
}
use grpc_vault_ha.Tokenize.{
  FpeBatchItem, FpeResult, fpe_encrypt, fpe_decrypt, fpe_encrypt_batch, get_key, invalidate_key,
}
use grpc_vault_ha.Tokenize.Consistent.{Consistent}
use grpc_vault_ha.Tokenize.Calls.{Call, invalidates, encrypts, run}
use grpc_vault_ha.Tokenize.RoundTrip.{fpe_decrypt-fpe_encrypt}
use grpc_vault_ha.Tokenize.Batch.{Agrees, fpe_encrypt_batch-item}

mask-Hidden_example :
    (mask (codes "4111-x") (pos 1) (pos 2) (codes "")
      ≡ mask (codes "4abc-x") (pos 1) (pos 2) (codes ""))
    × (r : Text) × (mask (codes "4abc-x") (pos 1) (pos 2) (codes "") ≡ ok r)
    × (take 1 r ≡ codes "4")
    × (length r ≡ 1 + 2 + (6 - (1 + 2)) * 1)
unfolding text_dec
mask-Hidden_example =
    mask-Hidden (codes "4abc-x") (codes "4111-x") (codes "") 1 2 (omega arith) (omega arith) refl
      refl refl

masked : mask (codes "4abc-x") (pos 1) (pos 2) (codes "") ≡ ok (codes "4***-x")
unfolding mask text_dec
masked = refl

mask-panic_example :
    (mask (codes "abc") (pos 5) (negsuc 3) (codes "*") ≡ panic)
    × (mask (codes "abc") (negsuc 3) (pos 5) (codes "*") ≡ panic)
mask-panic_example =
    mask-panic (codes "abc") (codes "*") 5 3 (omega arith) (omega arith) (omega arith) (omega arith)
      (omega arith)

nothing_to_mask : mask (codes "") (pos 1) (pos 2) (codes "*") ≡ err invalid_input
unfolding mask
nothing_to_mask = refl

abbrev fresh : TokenizeService (slot KeyInfo)
fresh = record { key_cache = none; connected = true; custom = [] }

abbrev hex_then_ssn : List (Change (slot KeyInfo))
hex_then_ssn = creates (codes "bits") (codes "01") [] [] ∷ deletes (codes "ssn") ∷ []

get_transformation-Listed_example :
    IsValid (slot KeyInfo) (changes (slot KeyInfo) fresh hex_then_ssn)
    × ((t : _)
        → Memᴰ t (list_transformations (slot KeyInfo) (changes (slot KeyInfo) fresh hex_then_ssn))
          ↔ (get_transformation (slot KeyInfo) (changes (slot KeyInfo) fresh hex_then_ssn) t.name
              ≡ ok t))
get_transformation-Listed_example = get_transformation-Listed (slot KeyInfo) fresh hex_then_ssn tt

no_override :
    (create_transformation (slot KeyInfo) fresh (codes "ssn") (codes "01") [] []).1
    ≡ err override_built_in
unfolding create_transformation lookup text_dec Fpe.get_transformation
no_override = refl

no_delete : (delete_transformation (slot KeyInfo) fresh (codes "ssn")).1 ≡ some delete_built_in
unfolding delete_transformation lookup text_dec Fpe.get_transformation
no_delete = refl

abbrev lock : LockClient
lock name version = some (record { key = replicate 16 7; version = pos 1 })

fresh-Consistent : Consistent (slot KeyInfo) lock fresh
fresh-Consistent = record { connected = refl; cached = λ name info e. cc }

-- Another key takes the only place in the cache meanwhile.
abbrev calls : List (Call (slot KeyInfo))
calls = encrypts (codes "j") (codes "00") [] [] none ∷ invalidates (codes "k") ∷ []

abbrev after : TokenizeService (slot KeyInfo)
after =
    run toy_ff1 (slot KeyInfo) lock
      (fpe_encrypt toy_ff1 (slot KeyInfo) lock fresh (codes "k") (codes "0125") (codes "ssn") []
        none).0
      calls

fpe_decrypt-fpe_encrypt_example :
    (length (codes "1025") ≡ length (codes "0125"))
    × ((fpe_decrypt toy_ff1
          (slot KeyInfo)
          lock
          after
          (codes "k")
          (codes "1025")
          (codes "ssn")
          []
          none).1
        ≡ ok (codes "0125", pos 1))
unfolding get_alphabet lookup text_dec fpe_encrypt runes contains_rune run invalidate_key
    Fpe.get_transformation get_key Fpe.new_cipher Fpe.encrypt
fpe_decrypt-fpe_encrypt_example =
    fpe_decrypt-fpe_encrypt toy_ff1 (slot KeyInfo) (slot-Laws KeyInfo) lock toy_ff1-Laws fresh calls
      (codes "k") (codes "0125") (codes "ssn") [] alphabet_numeric (codes "1025") none (pos 1)
      fresh-Consistent refl refl refl refl

abbrev items : List FpeBatchItem
items =
    record { value = codes "10"; tweak = none; reference = codes "a" }
    ∷ record { value = codes "x"; tweak = none; reference = codes "b" }
    ∷ []

backwards : Schedule 2 (1 ∷ 0 ∷ [])
backwards i = (λ h. ground (arith, h), λ h. ground (arith, h))

fpe_encrypt_batch-item_example :
    (r : FpeResult) × (get_elem?
        (fpe_encrypt_batch toy_ff1
          (slot KeyInfo)
          lock
          fresh
          (codes "k")
          (codes "ssn")
          []
          items
          (1 ∷ 0 ∷ [])).1
        1
      ≡ some r)
    × Agrees
        (codes "b")
        (fpe_encrypt toy_ff1
          (slot KeyInfo)
          lock
          fresh
          (codes "k")
          (codes "x")
          (codes "ssn")
          []
          none).1
        r
fpe_encrypt_batch-item_example =
    fpe_encrypt_batch-item toy_ff1 (slot KeyInfo) lock fresh (codes "k") (codes "ssn") [] items
      (1 ∷ 0 ∷ []) 1 (record { value = codes "x"; tweak = none; reference = codes "b" }) backwards
      refl
