-- ===== src/Keyring/Preserved.antt =====
-- keyring.go: creating, rotating and configuring a key keep the invariant.
use grpc_vault_ha.Prelude.{
  ℕ, suc, ◌≤◌, ◌<◌, ◌≡◌, ◌⊎◌, refl, ap, ◌∙◌, false, Option, none, some, List, [], ◌∷◌, arith,
  Result, ok, err, panic, Option-cases, Bool-cases, inl, inr, length, length-append,
}
use grpc_vault_ha.Prelude.Int.{ℤ, pos, max_int, int_eq}
use grpc_vault_ha.Prelude.Text.{Text, text_eq}
use grpc_vault_ha.Prelude.Map.{lookup, insert, lookup-insert_inv}
use grpc_vault_ha.Aes.{Library, Cipher}
use grpc_vault_ha.Keyring.Policy.{
  KeyPolicy, KeyType, keyring_sealed, key_not_found, KeyOption, Error, apply_options,
  default_policy,
}
use grpc_vault_ha.Keyring.Versions.{
  IsVersioned, Extends, Extends-IsVersioned, generate_key_version-Extends, apply_options_keeps,
}
use grpc_vault_ha.Keyring.{
  Keyring, get_policy, create_key, create_policy, rotate_key, rotate_policy, update_config,
  configure, cipher_map, make_cipher,
}
use grpc_vault_ha.Keyring.Invariant.{IsValid, insert-IsValid, make_cipher-keys, make_cipher-Extends}

module _ (lib : Library) where
  -- No policy has more than n versions.
  abbrev pub AtMost : ℕ → Keyring lib → Type 0
  AtMost n kr = (name : Text) (p : KeyPolicy) → lookup name kr.policies ≡ some p → length p.keys ≤ n

  abbrev pub Kept : ℕ → Keyring lib → Type 0
  Kept n kr = IsValid lib kr × AtMost n kr

  pub AtMost-suc : (n : ℕ) (kr : Keyring lib) → AtMost n kr → AtMost (suc n) kr
  AtMost-suc n kr h name p e = omega (arith, h name p e)

  -- What every change of one policy comes to.
  put :
      (n : ℕ) (kr : Keyring lib) (name : Text) (p : KeyPolicy)
      → Kept n kr
      → kr.sealed ≡ false
      → IsVersioned p
      → p.name ≡ name
      → length p.keys ≤ suc n
      → ((v : ℤ) (c : Cipher lib)
          → lookup v (cipher_map lib kr name) ≡ some c
          → make_cipher lib p v ≡ ok c)
      → Kept (suc n) (record kr { policies = insert name p kr.policies })
  put n kr name p (valid, small) unsealed numbered named short kept =
      (insert-IsValid lib kr name p valid unsealed numbered named kept, small')
    where
      small' : AtMost (suc n) (record kr { policies = insert name p kr.policies })
      small' m q e = elim (lookup-insert_inv m name p q kr.policies e) [
        | inl (_, same) ↦ rw same short
        | inr (_, old) ↦ omega (arith, small m q old)
      ]

  -- A method fails at once, or has a policy of an unsealed keyring.
  pub get_policy_cases :
      (kr : Keyring lib) (name : Text)
      → ((e : Error) × (get_policy lib kr name ≡ err e))
        ⊎ ((p : KeyPolicy) × (get_policy lib kr name ≡ ok p)
            × (kr.sealed ≡ false)
            × (lookup name kr.policies ≡ some p))
  unfolding get_policy
  get_policy_cases kr name = elim (Bool-cases kr.sealed) [
    | inl closed ↦ inl (keyring_sealed, ground (arith, closed))
    | inr opened ↦ elim (Option-cases (lookup name kr.policies)) [
      | inl absent ↦ inl (key_not_found, ground (arith, opened, absent))
      | inr (p, found) ↦ inr (p, ground (arith, opened, found), opened, found)
    ]
  ]

  create_policy-Kept :
      (n : ℕ) (kr : Keyring lib) (name : Text) (p : KeyPolicy) (r : Result Error KeyPolicy)
      → n < max_int
      → Kept n kr
      → kr.sealed ≡ false
      → lookup name kr.policies ≡ none
      → p.keys ≡ []
      → p.latest_version ≡ pos 0
      → p.name ≡ name
      → ((q : KeyPolicy) → r ≡ ok q → Extends p q)
      → Kept (suc n) (create_policy lib kr name r).0
  unfolding create_policy
  create_policy-Kept n kr name p (err e) room k unsealed fresh empty latest named x =
      (k.0, AtMost-suc n kr k.1)
  create_policy-Kept n kr name p panic room k unsealed fresh empty latest named x =
      (k.0, AtMost-suc n kr k.1)
  create_policy-Kept n kr name p (ok q) room k unsealed fresh empty latest named x =
      put n kr name q k unsealed (Extends-IsVersioned (x q refl) (ground (arith, empty)) start)
        ((x q refl).name ∙ named) short none_cached
    where
      start : IsVersioned p
      start = record { numbered = rw empty tt; latest = rw empty latest }

      short : length q.keys ≤ suc n
      short = rw ((x q refl).keys, empty) (omega arith)

      none_cached :
          (v : ℤ) (c : Cipher lib)
          → lookup v (cipher_map lib kr name) ≡ some c
          → make_cipher lib q v ≡ ok c
      none_cached v c e = let (o, stands, _) = k.0.cached name v c e in cc (fresh, stands)

  pub create_key-Kept :
      (n : ℕ) (kr : Keyring lib) (random : ℕ → Option Text) (now : ℕ) (name : Text)
      (key_type : KeyType) (opts : List KeyOption)
      → n < max_int
      → Kept n kr
      → Kept (suc n) (create_key lib random now kr name key_type opts).0
  unfolding create_key
  create_key-Kept n kr random now name key_type opts room k = elim (Bool-cases kr.sealed) [
    | inl closed ↦ simp (closed) (k.0, AtMost-suc n kr k.1)
    | inr opened ↦ elim (Option-cases (lookup name kr.policies)) [
      | inr (p, taken) ↦ simp (opened, taken) (k.0, AtMost-suc n kr k.1)
      | inl fresh ↦
          let (keys, latest, named) = apply_options_keeps (default_policy name key_type now) opts in
          simp (opened, fresh)
            (create_policy-Kept n kr name (apply_options (default_policy name key_type now) opts) _
              room k opened fresh keys latest named
              (λ q e. generate_key_version-Extends random now _ e))
    ]
  ]

  rotate_policy-Kept :
      (n now : ℕ) (kr : Keyring lib) (name : Text) (p : KeyPolicy) (r : Result Error KeyPolicy)
      → n < max_int
      → Kept n kr
      → kr.sealed ≡ false
      → lookup name kr.policies ≡ some p
      → ((q : KeyPolicy) → r ≡ ok q → Extends p q)
      → Kept (suc n) (rotate_policy lib now kr name r).0
  unfolding rotate_policy
  rotate_policy-Kept n now kr name p (err e) room k unsealed found x = (k.0, AtMost-suc n kr k.1)
  rotate_policy-Kept n now kr name p panic room k unsealed found x = (k.0, AtMost-suc n kr k.1)
  rotate_policy-Kept n now kr name p (ok q) room k unsealed found x =
      put n kr name (record q { updated_at = now }) k unsealed
        (record { numbered = next.numbered; latest = next.latest })
        ((x q refl).name ∙ (k.0.versioned name p found).1) short made
    where
      next : IsVersioned q
      next =
          Extends-IsVersioned (x q refl) (omega (arith, k.1 name p found))
            (k.0.versioned name p found).0

      short : length q.keys ≤ suc n
      short = omega (
        arith,
        ap length (x q refl).keys,
        length-append p.keys ((x q refl).fresh ∷ []),
        k.1 name p found,
      )

      made :
          (v : ℤ) (c : Cipher lib)
          → lookup v (cipher_map lib kr name) ≡ some c
          → make_cipher lib (record q { updated_at = now }) v ≡ ok c
      made v c e =
          let (o, stands, m) = k.0.cached name v c e in
          let same : o ≡ p = cc (stands, found) in
          make_cipher-keys lib q (record q { updated_at = now }) v refl
          ∙ make_cipher-Extends lib v c (x q refl) (rw (← same) m)

  pub rotate_key-Kept :
      (n : ℕ) (kr : Keyring lib) (random : ℕ → Option Text) (now : ℕ) (name : Text)
      → n < max_int
      → Kept n kr
      → Kept (suc n) (rotate_key lib random now kr name).0
  unfolding rotate_key
  rotate_key-Kept n kr random now name room k = elim (get_policy_cases kr name) [
    | inl (e, failed) ↦ rw (failed, rotate_policy) (k.0, AtMost-suc n kr k.1)
    | inr (p, got, opened, found) ↦ rw got (
        rotate_policy-Kept n now kr name p _ room k opened found
          (λ q e. generate_key_version-Extends random now p e))
  ]

  pub update_config-Kept :
      (n : ℕ) (kr : Keyring lib) (now : ℕ) (name : Text) (opts : List KeyOption)
      → Kept n kr
      → Kept (suc n) (update_config lib now kr name opts).0
  unfolding update_config configure
  update_config-Kept n kr now name opts k = elim (get_policy_cases kr name) [
    | inl (e, failed) ↦ rw (failed, configure) (k.0, AtMost-suc n kr k.1)
    | inr (p, got, opened, found) ↦ rw (got, configure) (configured p opened found)
  ]
    where
      configured :
          (p : KeyPolicy)
          → kr.sealed ≡ false
          → lookup name kr.policies ≡ some p
          → Kept (suc n) (record kr {
            policies = insert name (record (apply_options p opts) { updated_at = now }) kr.policies;
          })
      configured p opened found =
          let (keys, latest, named) = apply_options_keeps p opts in
          let (v, at_name) = k.0.versioned name p found in
          put n kr name (record (apply_options p opts) { updated_at = now }) k opened
            (record { numbered = rw keys v.numbered; latest = latest ∙ v.latest ∙ rw keys refl })
            (named ∙ at_name) (rw keys (omega (arith, k.1 name p found)))
            (λ w c e.
              let (o, stands, m) = k.0.cached name w c e in
              let same : o ≡ p = cc (stands, found) in
              make_cipher-keys lib p _ w keys ∙ rw (← same) m)
