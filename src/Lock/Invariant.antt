-- ===== src/Lock/Invariant.antt =====
-- lock_service.go: what holds between two calls, and what a sealed keyring means for the vault.
use grpc_vault_ha.Prelude.{
  ℕ, ◌≡◌, ◌⊎◌, refl, sym, ◌∙◌, Bool, true, false, not, Option, none, some, List, [], ◌∷◌, ◌++◌,
  length, arith, Result, ok, err, panic, Bool-cases, inl, inr, if◌then◌else◌,
}
use grpc_vault_ha.Prelude.Int.{ℤ, pos, ◌<ℤ◌, leb_ℤ}
use grpc_vault_ha.Prelude.Text.{Text, text_eq}
use grpc_vault_ha.Prelude.Map.{lookup, erase}
use grpc_vault_ha.Aes.{Library}
use grpc_vault_ha.Keyring
use grpc_vault_ha.Keyring.{Keyring}
use grpc_vault_ha.Lock.Shamir.{Error, secret_not_found, shamir_combine}
use grpc_vault_ha.Lock.{
  Secret, LockService, new_lock_service, initialize, store_keys, unseal, add_share, combine,
  conclude, seal_vault,
}
use grpc_vault_ha.Lock.Secrets.{put_secret, delete_secret, create_key, rotate_key, with_keyring}
use grpc_vault_ha.Lock.Lifecycle.{
  Call, initializes, unseals, seals, puts, deletes, creates, rotates, step, run,
}

-- An unsealed vault is initialized and holds no shares. A sealed one holds fewer shares than its
-- threshold, or none, or began its collection with an empty share. Before `Initialize` it has no
-- shares, no secrets and an open keyring.
pub record IsValid (lib : Library) (s : LockService lib) : Type 0 where
  pub initialized_first : s.sealed ≡ false → s.initialized ≡ true
  pub cleared : s.sealed ≡ false → s.unseal_keys ≡ []
  pub pending :
      (s.unseal_keys ≡ [])
      ⊎ (pos (length s.unseal_keys) <ℤ s.threshold)
      ⊎ ((rest : List Text) × (s.unseal_keys ≡ [] ∷ rest))
  pub untouched :
      s.initialized ≡ false → (s.unseal_keys ≡ []) × (s.secrets ≡ []) × (s.keyring.sealed ≡ false)

module _ (lib : Library) where
  conclude-IsValid :
      (s : LockService lib) (shares : List Text)
      → s.initialized ≡ true
      → s.sealed ≡ true
      → s.unseal_keys ≡ shares
      → IsValid lib (conclude lib s (shamir_combine shares)).0
  unfolding conclude shamir_combine
  conclude-IsValid s [] i c e = ground (arith, i, c, e)
  conclude-IsValid s ([] ∷ rest) i c e = record {
    initialized_first = λ o. cc;
    cleared = λ o. cc;
    pending = inr (inr (rest, e));
    untouched = λ u. cc;
  }
  conclude-IsValid s ((index ∷ secret) ∷ rest) i c e = ground (arith, i, c, e)

  -- A method that leaves the service alone when its test says so.
  guarded :
      {A : Type 0} (b : Bool) (s : LockService lib) (e : A) (p : LockService lib × A)
      → IsValid lib s
      → (b ≡ false → IsValid lib p.0)
      → IsValid lib (if b then (s, e) else p).0
  guarded true s e p v h = v
  guarded false s e p v h = h refl

  guarded_not :
      {A : Type 0} (b : Bool) (s : LockService lib) (e : A) (p : LockService lib × A)
      → IsValid lib s
      → (b ≡ true → IsValid lib p.0)
      → IsValid lib (if not b then (s, e) else p).0
  guarded_not true s e p v h = h refl
  guarded_not false s e p v h = v

  combine-IsValid :
      (s : LockService lib) → s.initialized ≡ true → s.sealed ≡ true → IsValid lib (combine lib s).0
  unfolding combine
  combine-IsValid s i c = elim (Bool-cases (leb_ℤ s.threshold (pos (length s.unseal_keys)))) [
    | inl enough ↦ rw enough (conclude-IsValid s s.unseal_keys i c refl)
    | inr few ↦ rw few (record {
      initialized_first = λ o. cc;
      cleared = λ o. cc;
      pending = inr (inl (ground (arith, few)));
      untouched = λ u. cc;
    })
  ]

  add_share-IsValid :
      (s : LockService lib) (share : Option Text)
      → s.initialized ≡ true
      → s.sealed ≡ true
      → IsValid lib s
      → IsValid lib (add_share lib s share).0
  unfolding add_share
  add_share-IsValid s none i c v = v
  add_share-IsValid s (some bytes) i c v =
      combine-IsValid (record s { unseal_keys = s.unseal_keys ++ bytes ∷ [] }) i c

  unseal-IsValid : (s : LockService lib) (k : Text) → IsValid lib s → IsValid lib (unseal lib s k).0
  unfolding unseal
  unseal-IsValid s k v =
      guarded_not s.initialized s _ _ v
        (λ i. guarded_not s.sealed s _ _ v (λ c. add_share-IsValid s (lib.decode k) i c v))

  store_keys-IsValid :
      (s : LockService lib) (threshold : ℤ) (r : Result Error (Text × List Text × Text × Text))
      → s.unseal_keys ≡ []
      → IsValid lib s
      → IsValid lib (store_keys lib s threshold r).0
  unfolding store_keys
  store_keys-IsValid s threshold (err e) empty v = v
  store_keys-IsValid s threshold panic empty v = v
  store_keys-IsValid s threshold (ok (master, parts, barrier, root)) empty v = record {
    initialized_first = λ o. refl;
    cleared = λ o. empty;
    pending = inl empty;
    untouched = λ u. cc;
  }

  initialize-IsValid :
      (random : ℕ → ℕ → Option Text) (s : LockService lib) (shares threshold : ℤ)
      → IsValid lib s
      → IsValid lib (initialize lib random s shares threshold).0
  unfolding initialize
  initialize-IsValid random s shares threshold v =
      guarded s.initialized s _ _ v
        (λ first. store_keys-IsValid s threshold _ (v.untouched first).0 v)

  seal_vault-IsValid : (s : LockService lib) → IsValid lib s → IsValid lib (seal_vault lib s).0
  unfolding seal_vault
  seal_vault-IsValid s v = guarded_not s.initialized s _ _ v (λ i. guarded s.sealed s _ _ v (λ o.
      record {
        initialized_first = λ _. i;
        cleared = λ _. refl;
        pending = inl refl;
        untouched = λ u. cc;
      }))

  -- A change of the contents of an unsealed vault.
  contents-IsValid :
      (s t : LockService lib)
      → IsValid lib s
      → s.sealed ≡ false
      → t.initialized ≡ s.initialized
      → t.sealed ≡ s.sealed
      → t.unseal_keys ≡ s.unseal_keys
      → IsValid lib t
  contents-IsValid s t v o i c e = record {
    initialized_first = λ _. i ∙ v.initialized_first o;
    cleared = λ _. e ∙ v.cleared o;
    pending = inl (e ∙ v.cleared o);
    untouched = λ u. absurd (clash (sym (v.initialized_first o) ∙ sym i ∙ u));
  }
    where
      clash : true ≡ false → ⊥
      clash h = cc

  step-IsValid : (s : LockService lib) (c : Call) → IsValid lib s → IsValid lib (step lib s c)
  unfolding step put_secret delete_secret create_key rotate_key with_keyring
  step-IsValid s (initializes random shares threshold) v =
      initialize-IsValid random s shares threshold v
  step-IsValid s (unseals k) v = unseal-IsValid s k v
  step-IsValid s seals v = seal_vault-IsValid s v
  step-IsValid s (puts now path fields) v =
      guarded s.sealed s _ _ v (λ o. contents-IsValid s _ v o refl refl refl)
  step-IsValid s (deletes path) v =
      guarded s.sealed s _ _ v (λ o. deleted o (lookup path s.secrets))
    where
      deleted :
          s.sealed ≡ false
          → (found : Option Secret)
          → IsValid lib (
              let r : LockService lib × Result Error (Unit {0}) = elim found [
                | none ↦ (s, err secret_not_found)
                | some secret ↦ (record s { secrets = erase path s.secrets }, ok tt)
              ] in
              r.0)
      deleted o none = v
      deleted o (some secret) = contents-IsValid s _ v o refl refl refl
  step-IsValid s (creates random now name key_type) v =
      guarded s.sealed s _ _ v (λ o. contents-IsValid s _ v o refl refl refl)
  step-IsValid s (rotates random now name) v =
      guarded s.sealed s _ _ v (λ o. contents-IsValid s _ v o refl refl refl)

  run-IsValid : (s : LockService lib) (cs : List Call) → IsValid lib s → IsValid lib (run lib s cs)
  unfolding run
  run-IsValid s [] v = v
  run-IsValid s (c ∷ cs) v = run-IsValid (step lib s c) cs (step-IsValid s c v)

  -- After any history of calls on a new service, whatever threshold its configuration names: an
  -- unsealed vault is initialized and holds no shares; a sealed one holds fewer shares than its
  -- threshold, or none, or began its collection with an empty share; before `Initialize` there are
  -- no shares and no secrets, and the keyring is open.
  pub run-new_lock_service-IsValid :
      (threshold : ℤ) (cs : List Call) → IsValid lib (run lib (new_lock_service lib threshold) cs)
  run-new_lock_service-IsValid threshold cs = run-IsValid (new_lock_service lib threshold) cs (
      unfold new_lock_service Keyring.new_keyring in
      record {
        initialized_first = λ o. cc;
        cleared = λ o. refl;
        pending = inl refl;
        untouched = λ u. (refl, refl, refl);
      })
