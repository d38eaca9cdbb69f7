-- ===== src/Lock/Losses.antt =====
-- lock_service.go: the keys that `Seal` loses, and the share that makes `Unseal` panic.
use grpc_vault_ha.Prelude.{
  ℕ, ◌+◌, ◌≡◌, refl, ap, ◌∙◌, true, Option, some, List, [], ◌∷◌, ◌++◌, length, length-append, arith,
  Result, ok, err, panic, if◌then◌else◌,
}
use grpc_vault_ha.Prelude.Int.{ℤ, pos, ◌≤ℤ◌}
use grpc_vault_ha.Prelude.Text.{Text, text_eq}
use grpc_vault_ha.Aes.{Library}
use grpc_vault_ha.Keyring
use grpc_vault_ha.Keyring.Policy.{KeyType, keyring_sealed}
use grpc_vault_ha.Keyring.Sealed.{sealed-Refuses}
use grpc_vault_ha.Lock.Shamir.{Error, sealed_error, keyring_error, shamir_combine}
use grpc_vault_ha.Lock.{
  LockService, panics, initialize, store_keys, make_keys, unseal, add_share, combine, conclude,
  seal_vault,
}
use grpc_vault_ha.Lock.Secrets.{
  put_secret, delete_secret, create_key, get_key, get_encryption_key, rotate_key, with_keyring,
}
use grpc_vault_ha.Lock.Lifecycle.{
  Call, initializes, unseals, seals, puts, deletes, creates, rotates, step, run,
}

module _ (lib : Library) where
  -- The error of a method on keys: of the vault's seal, or of the keyring's.
  abbrev pub key_error : LockService lib → Error
  key_error s = if s.sealed then sealed_error else keyring_error keyring_sealed

  -- No key can be made, read or rotated.
  pub record HasNoKeys (s : LockService lib) : Type 0 where
    pub creates_none :
        (random : ℕ → Option Text) (now : ℕ) (name : Text) (t : KeyType)
        → (create_key lib random now s name t).1 ≡ err (key_error s)
    pub gets_none : (name : Text) → get_key lib s name ≡ err (key_error s)
    pub reads_none : (name : Text) (v : ℤ) → get_encryption_key lib s name v ≡ err (key_error s)
    pub rotates_none :
        (random : ℕ → Option Text) (now : ℕ) (name : Text)
        → (rotate_key lib random now s name).1 ≡ err (key_error s)

  sealed-HasNoKeys : (s : LockService lib) → s.keyring.sealed ≡ true → HasNoKeys s
  unfolding create_key get_key get_encryption_key rotate_key with_keyring
  sealed-HasNoKeys s h = record {
    creates_none = λ random now name t.
        ground (arith, (sealed-Refuses lib s.keyring name h).creates_no_key random now t []);
    gets_none = λ name. ground (arith, (sealed-Refuses lib s.keyring name h).gets_no_key);
    reads_none = λ name v. ground (arith, (sealed-Refuses lib s.keyring name h).gets_no_version v);
    rotates_none = λ random now name.
        ground (arith, (sealed-Refuses lib s.keyring name h).rotates_no_key random now);
  }

  conclude-keyring :
      (s : LockService lib) (r : Result Error Text) → (conclude lib s r).0.keyring ≡ s.keyring
  unfolding conclude
  conclude-keyring s (ok secret) = ground arith
  conclude-keyring s (err e) = refl
  conclude-keyring s panic = refl

  unseal-keyring : (s : LockService lib) (k : Text) → (unseal lib s k).0.keyring ≡ s.keyring
  unfolding unseal add_share combine
  unseal-keyring s k = ground (
    arith,
    λ (share : Text).
        conclude-keyring (record s { unseal_keys = s.unseal_keys ++ share ∷ [] })
          (shamir_combine (s.unseal_keys ++ share ∷ [])),
  )

  store_keys-keyring :
      (s : LockService lib) (threshold : ℤ) (r : Result Error (Text × List Text × Text × Text))
      → (store_keys lib s threshold r).0.keyring ≡ s.keyring
  unfolding store_keys
  store_keys-keyring s threshold (ok keys) = refl
  store_keys-keyring s threshold (err e) = refl
  store_keys-keyring s threshold panic = refl

  step-keyring_sealed :
      (s : LockService lib) (c : Call)
      → s.keyring.sealed ≡ true
      → (step lib s c).keyring.sealed ≡ true
  unfolding step initialize seal_vault put_secret delete_secret create_key rotate_key with_keyring
  step-keyring_sealed s (initializes random shares threshold) h =
      ground (arith, h, store_keys-keyring s threshold (make_keys lib random shares))
  step-keyring_sealed s (unseals k) h = ap (λ kr. kr.sealed) (unseal-keyring s k) ∙ h
  step-keyring_sealed s seals h = unfold Keyring.seal in ground (arith, h)
  step-keyring_sealed s (puts now path fields) h = ground (arith, h)
  step-keyring_sealed s (deletes path) h = ground (arith, h)
  step-keyring_sealed s (creates random now name t) h =
      ground (arith, h, (sealed-Refuses lib s.keyring name h).creates_no_key random now t [])
  step-keyring_sealed s (rotates random now name) h =
      ground (arith, h, (sealed-Refuses lib s.keyring name h).rotates_no_key random now)

  run-keyring_sealed :
      (s : LockService lib) (cs : List Call)
      → s.keyring.sealed ≡ true
      → (run lib s cs).keyring.sealed ≡ true
  unfolding run
  run-keyring_sealed s [] h = h
  run-keyring_sealed s (c ∷ cs) h = run-keyring_sealed (step lib s c) cs (step-keyring_sealed s c h)

  -- The bug: once a vault was sealed, no key can be made, read or rotated again, whatever calls
  -- follow. `Unseal` takes the vault's seal off, but never the keyring's.
  pub seal_vault-HasNoKeys :
      (s : LockService lib) (cs : List Call)
      → (seal_vault lib s).1 ≡ ok tt
      → HasNoKeys (run lib (seal_vault lib s).0 cs)
  seal_vault-HasNoKeys s cs h =
      sealed-HasNoKeys _ (run-keyring_sealed (seal_vault lib s).0 cs closed)
    where
      closed : (seal_vault lib s).0.keyring.sealed ≡ true
      closed = unfold seal_vault Keyring.seal in ground (arith, h)

  pub unseal_empty_share :
      (s : LockService lib) (k bytes : Text) (rest : List Text)
      → s.initialized ≡ true
      → s.sealed ≡ true
      → lib.decode k ≡ some bytes
      → s.unseal_keys ++ bytes ∷ [] ≡ [] ∷ rest
      → s.threshold ≤ℤ pos (length s.unseal_keys + 1)
      → ((unseal lib s k).1 ≡ panics) × ((unseal lib s k).0.unseal_keys ≡ [] ∷ rest)
  unfolding unseal add_share combine conclude shamir_combine
  unseal_empty_share s k bytes rest i c good first enough =
      ground (arith, i, c, good, first, enough, length-append s.unseal_keys (bytes ∷ []))
