-- ===== src/Lock/Quorum.antt =====
-- lock_service.go, `Initialize` and `Unseal`: which shares open the vault.
use grpc_vault_ha.Prelude.{
  ℕ, suc, ◌+◌, ◌≡◌, ◌≢◌, refl, sym, ap, ◌∙◌, true, false, some, List, [], ◌∷◌, ◌++◌, length,
  length-append, All, arith, Option-cases, inl, inr,
}
use grpc_vault_ha.Prelude.Int.{pos, ◌≤ℤ◌, ◌<ℤ◌}
use grpc_vault_ha.Prelude.Text.{Text}
use grpc_vault_ha.Aes.{Library}
use grpc_vault_ha.Lock.Shamir.{shamir_combine, bytes_equal_iff}
use grpc_vault_ha.Lock.{LockService, unseal, add_share, combine, conclude}

module _ (lib : Library) where
  -- A text that decodes to an index byte and the master key.
  abbrev pub IsShare : Text → Text → Type 0
  IsShare master k = (index : ℕ) × (lib.decode k ≡ some (index ∷ master))

  abbrev pub IsBase64 : Text → Type 0
  IsBase64 k = (bytes : Text) × (lib.decode k ≡ some bytes)

  -- The shares are handed in one after the other.
  pub unseal_all : LockService lib → List Text → LockService lib
  unseal_all s [] = s
  unseal_all s (k ∷ ks) = unseal_all (unseal lib s k).0 ks

  -- A sealed vault with the given shares collected.
  abbrev collected : LockService lib → List Text → LockService lib
  collected s shares = record s { initialized = true; sealed = true; unseal_keys = shares }

  abbrev opened : LockService lib → LockService lib
  opened s = record s { initialized = true; sealed = false; unseal_keys = [] }

  unseal_pending :
      (s : LockService lib) (shares : List Text) (k bytes : Text)
      → lib.decode k ≡ some bytes
      → pos (length shares + 1) <ℤ s.threshold
      → (unseal lib (collected s shares) k).0 ≡ collected s (shares ++ bytes ∷ [])
  unfolding unseal add_share combine
  unseal_pending s shares k bytes e few =
      rw (e, add_share) (ground (arith, length-append shares (bytes ∷ [])))

  unseal_quorum :
      (s : LockService lib) (index : ℕ) (rest shares : List Text) (k bytes : Text)
      → lib.decode k ≡ some bytes
      → shares ++ bytes ∷ [] ≡ (index ∷ s.master_key) ∷ rest
      → s.threshold ≤ℤ pos (length shares + 1)
      → (unseal lib (collected s shares) k).0 ≡ opened s
  unfolding unseal add_share combine conclude shamir_combine
  unseal_quorum s index rest shares k bytes e first enough =
      rw (e, add_share)
        (ground (
          arith,
          first,
          length-append shares (bytes ∷ []),
          (bytes_equal_iff s.master_key s.master_key).1 refl,
        ))

  -- Later shares complete the quorum, whatever bytes they hold.
  unseal_all-later :
      (s : LockService lib) (index : ℕ) (held : List Text) (ks : List Text)
      → s.threshold ≡ pos (suc (length held) + length ks)
      → ks ≢ []
      → All IsBase64 ks
      → unseal_all (collected s ((index ∷ s.master_key) ∷ held)) ks ≡ opened s
  unfolding unseal_all
  unseal_all-later s index held [] t ne h = absurd (ne refl)
  unseal_all-later s index held (k ∷ []) t ne ((bytes, e), h) =
      unseal_quorum s index (held ++ bytes ∷ []) ((index ∷ s.master_key) ∷ held) k bytes e refl
        (rw t (omega arith))
  unseal_all-later s index held (k ∷ l ∷ ks) t ne ((bytes, e), h) =
      rw (unseal_pending s ((index ∷ s.master_key) ∷ held) k bytes e (rw t (omega arith))) (
        unseal_all-later s index (held ++ bytes ∷ []) (l ∷ ks)
          (t ∙ ap pos (omega (arith, length-append held (bytes ∷ [])))) (λ c. cc) h)

  unseal_all-collected :
      (s : LockService lib) (k : Text) (ks : List Text)
      → s.threshold ≡ pos (length (k ∷ ks))
      → IsShare s.master_key k
      → All IsBase64 ks
      → unseal_all (collected s []) (k ∷ ks) ≡ opened s
  unfolding unseal_all
  unseal_all-collected s k [] t (index, e) h =
      unseal_quorum s index [] [] k (index ∷ s.master_key) e refl (rw t (omega arith))
  unseal_all-collected s k (l ∷ ks) t (index, e) h =
      rw (unseal_pending s [] k (index ∷ s.master_key) e (rw t (omega arith)))
        (unseal_all-later s index [] (l ∷ ks) (t ∙ ap pos (omega arith)) (λ c. cc) h)

  -- A sealed vault that holds no share yet is opened by as many shares as its threshold says. The
  -- first one must hold the master key; of the others it is only asked that they are base64, so the
  -- first one again will do.
  pub unseal_all_lem :
      (s : LockService lib) (k : Text) (ks : List Text)
      → s.initialized ≡ true
      → s.sealed ≡ true
      → s.unseal_keys ≡ []
      → s.threshold ≡ pos (length (k ∷ ks))
      → IsShare s.master_key k
      → All IsBase64 ks
      → unseal_all s (k ∷ ks) ≡ record s { sealed = false }
  unseal_all_lem s k ks i c none_yet t share_of h =
      ap (λ r. unseal_all r (k ∷ ks)) start ∙ unseal_all-collected s k ks t share_of h ∙ end_state
    where
      start : s ≡ collected s []
      start j = record s { initialized = i j; sealed = c j; unseal_keys = none_yet j }

      end_state : opened s ≡ record s { sealed = false }
      end_state j = record s { initialized = sym i j; sealed = false; unseal_keys = sym none_yet j }

  -- What can open a sealed vault at all.
  abbrev pub Opening : LockService lib → Text → Type 0
  Opening s k =
      (bytes : Text) × (index : ℕ) × (rest : List Text) × (lib.decode k ≡ some bytes)
      × (s.unseal_keys ++ bytes ∷ [] ≡ (index ∷ s.master_key) ∷ rest)
      × (s.threshold ≤ℤ pos (length s.unseal_keys + 1))

  combine-opens :
      (s : LockService lib) (shares : List Text)
      → s.sealed ≡ true
      → s.unseal_keys ≡ shares
      → (combine lib s).0.sealed ≡ false
      → (index : ℕ) × (rest : List Text) × (shares ≡ (index ∷ s.master_key) ∷ rest)
        × (s.threshold ≤ℤ pos (length shares))
  unfolding combine conclude shamir_combine
  combine-opens s [] c e o = absurd (ground (arith, c, e, o))
  combine-opens s ([] ∷ rest) c e o = absurd (ground (arith, c, e, o))
  combine-opens s ((index ∷ secret) ∷ rest) c e o = (
    index,
    rest,
    ground (arith, c, e, o, bytes_equal_iff secret s.master_key),
    ground (arith, c, e, o),
  )

  -- A call of `Unseal` that opens a sealed vault completed a quorum: the vault is initialized, the
  -- share is base64, the first share collected holds the master key, and with this share there are
  -- as many as the threshold says.
  pub unseal-Opening :
      (s : LockService lib) (k : Text)
      → s.sealed ≡ true
      → (unseal lib s k).0.sealed ≡ false
      → (s.initialized ≡ true) × Opening s k
  unfolding unseal add_share
  unseal-Opening s k c o = elim (Option-cases (lib.decode k)) [
    | inl bad ↦ absurd (ground (arith, c, o, bad))
    | inr (bytes, good) ↦
        let (index, rest, first, enough) =
          combine-opens (record s { unseal_keys = s.unseal_keys ++ bytes ∷ [] }) _ c refl
            (ground (arith, c, o, good)) in
        (
          ground (arith, c, o),
          (
            bytes,
            index,
            rest,
            good,
            first,
            omega (arith, enough, length-append s.unseal_keys (bytes ∷ [])),
          ),
        )
  ]
