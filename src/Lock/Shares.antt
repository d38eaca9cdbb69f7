-- ===== src/Lock/Shares.antt =====
-- lock_service.go, `Initialize`: what it hands out opens the vault that it sets up.
use grpc_vault_ha.Prelude.{
  ℕ, zero, suc, ◌+◌, ◌≡◌, refl, sym, ap, subst, ◌∙◌, true, false, Option, List, [], ◌∷◌, map,
  length, All, arith, Result, ok, err, panic, Bool-cases, inl, inr, ◌%◌,
}
use mathlib.Core.List.{Memᴰ}
use grpc_vault_ha.Prelude.Int.{ℤ, pos}
use grpc_vault_ha.Prelude.Text.{Text}
use grpc_vault_ha.Aes.{Library}
use grpc_vault_ha.Aes.RoundTrip.{Laws}
use grpc_vault_ha.Keyring
use grpc_vault_ha.Lock.Shamir.{Error, share, shares_from, shamir_split}
use grpc_vault_ha.Lock.{LockService, initialize, store_keys, make_keys, seal_vault}
use grpc_vault_ha.Lock.Quorum.{IsShare, IsBase64, unseal_all, unseal_all_lem}

module _ (lib : Library) (laws : Laws lib) where
  shares_from-IsShare :
      (master : Text) (i n : ℕ) → All (IsShare lib master) (map lib.encode (shares_from master i n))
  unfolding shares_from
  shares_from-IsShare master i zero = tt
  shares_from-IsShare master i (suc n) =
      (((i + 1) % 256, laws.decode-encode (share master i)), shares_from-IsShare master (i + 1) n)

  length-shares_from :
      (master : Text) (i n : ℕ) → length (map lib.encode (shares_from master i n)) ≡ n
  unfolding shares_from
  length-shares_from master i zero = refl
  length-shares_from master i (suc n) = ap suc (length-shares_from master (i + 1) n)

  -- A vault that `Initialize` has just set up with these keys.
  pub record IsFresh (s : LockService lib) (n : ℕ) (threshold : ℤ) (keys : List Text) : Type 0 where
    pub initialized : s.initialized ≡ true
    pub unsealed : s.sealed ≡ false
    pub threshold_set : s.threshold ≡ threshold
    pub count : length keys ≡ n
    pub shares : All (IsShare lib s.master_key) keys

  store_keys-IsFresh :
      (s : LockService lib) (n : ℕ) (threshold : ℤ)
      (r : Result Error (Text × List Text × Text × Text)) (keys : List Text) (token : Text)
      → ((master barrier root : Text) (parts : List Text)
          → r ≡ ok (master, parts, barrier, root)
          → parts ≡ shares_from master 0 n)
      → (store_keys lib s threshold r).1 ≡ ok (keys, token)
      → IsFresh (store_keys lib s threshold r).0 n threshold keys
  unfolding store_keys
  store_keys-IsFresh s n threshold (err e) keys token parts h = cc
  store_keys-IsFresh s n threshold panic keys token parts h = cc
  store_keys-IsFresh s n threshold (ok (master, shamir_keys, barrier, root)) keys token parts h =
      record {
        initialized = refl;
        unsealed = refl;
        threshold_set = refl;
        count = rw (← same) (length-shares_from master 0 n);
        shares = rw (← same) (shares_from-IsShare master 0 n);
      }
    where
      same : map lib.encode (shares_from master 0 n) ≡ keys
      same =
          ap (map lib.encode) (sym (parts master barrier root shamir_keys refl)) ∙ ground (arith, h)

  make_keys-parts :
      (random : ℕ → ℕ → Option Text) (n : ℕ) (master barrier root : Text) (parts : List Text)
      → make_keys lib random (pos n) ≡ ok (master, parts, barrier, root)
      → parts ≡ shares_from master 0 n
  unfolding make_keys shamir_split
  make_keys-parts random n master barrier root parts h = ground (arith, h)

  -- A successful `Initialize` for n shares hands out n keys, each of which decodes to an index byte
  -- and the master key that the vault keeps; the vault is initialized with the threshold that was
  -- asked for, and unsealed.
  pub initialize-IsFresh :
      (random : ℕ → ℕ → Option Text) (s : LockService lib) (n : ℕ) (threshold : ℤ)
      (keys : List Text) (token : Text)
      → (initialize lib random s (pos n) threshold).1 ≡ ok (keys, token)
      → IsFresh (initialize lib random s (pos n) threshold).0 n threshold keys
  unfolding initialize
  initialize-IsFresh random s n threshold keys token h = elim (Bool-cases s.initialized) [
    | inl again ↦ absurd (refused again)
    | inr first ↦ simp first (
        store_keys-IsFresh s n threshold _ keys token
          (λ m b r parts e. make_keys-parts random n m b r parts e) (simp first at h))
  ]
    where
      refused : s.initialized ≡ true → ⊥
      refused again = ground (arith, again, h)

  IsShare-mem :
      (master : Text) (keys : List Text) {k : Text}
      → All (IsShare lib master) keys
      → Memᴰ k keys
      → IsShare lib master k
  IsShare-mem master [] h m = elim m [ ]
  IsShare-mem master (key ∷ keys) (p, h) (Memᴰ.head e) = subst (IsShare lib master) (sym e) p
  IsShare-mem master (key ∷ keys) (p, h) (Memᴰ.tail m) = IsShare-mem master keys h m

  -- Any selection of the keys handed out by `Initialize`, as many as the threshold says and with
  -- repetitions allowed, opens the vault again after `Seal`. Its secrets and settings are as
  -- before; its keyring stays sealed.
  pub seal-unseal_all :
      (s : LockService lib) (n : ℕ) (keys : List Text) (k : Text) (ks : List Text)
      → IsFresh s n (pos (length (k ∷ ks))) keys
      → All (λ x. Memᴰ x keys) (k ∷ ks)
      → unseal_all lib (seal_vault lib s).0 (k ∷ ks)
        ≡ record s { keyring = (Keyring.seal lib s.keyring).0; unseal_keys = [] }
  seal-unseal_all s n keys k ks fresh (picked, picks) =
      ap (λ r. unseal_all lib r (k ∷ ks)) shut
      ∙ unseal_all_lem lib closed k ks fresh.initialized refl refl fresh.threshold_set
          (IsShare-mem s.master_key keys fresh.shares picked) (base64 ks picks)
      ∙ reopened
    where
      closed : LockService lib
      closed = record s {
        keyring = (Keyring.seal lib s.keyring).0;
        unseal_keys = [];
        sealed = true;
      }

      shut : (seal_vault lib s).0 ≡ closed
      shut = unfold seal_vault in simp (fresh.initialized, fresh.unsealed)

      reopened :
          record closed { sealed = false }
          ≡ record s { keyring = (Keyring.seal lib s.keyring).0; unseal_keys = [] }
      reopened j = record closed { sealed = sym fresh.unsealed j }

      base64 : (xs : List Text) → All (λ x. Memᴰ x keys) xs → All (IsBase64 lib) xs
      base64 [] h = tt
      base64 (x ∷ xs) (m, h) =
          let (index, e) = IsShare-mem s.master_key keys fresh.shares m in
          ((index ∷ s.master_key, e), base64 xs h)
