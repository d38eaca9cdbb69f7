-- ===== src/Keyring/Invariant.antt =====
-- keyring.go: what holds of a keyring between two calls, and the state changes that keep it.
use grpc_vault_ha.Prelude.{
  ◌≡◌, refl, ap, sym, subst, ◌∙◌, true, false, none, some, [], arith, ok, Option-cases, inl, inr,
  Eq,
}
use grpc_vault_ha.Prelude.Int.{ℤ, int_eq}
use grpc_vault_ha.Prelude.Text.{Text, text_eq}
use grpc_vault_ha.Prelude.Map.{
  Map, or_empty, lookup, insert, erase, lookup-insert_inv, lookup-insert_self, lookup-insert_ne,
  lookup-erase_inv, lookup-erase_ne, lookup-erase_self, erase-nil, lookup-nil,
}
use grpc_vault_ha.Aes.{Library, Cipher}
use grpc_vault_ha.Keyring.Policy.{KeyPolicy, Key, find_version}
use grpc_vault_ha.Keyring.Versions.{IsVersioned, Extends, find_version-concat}
use grpc_vault_ha.Keyring.{Keyring, cipher_map, make_cipher}

pub nowhere : {K C : Type 0} ⦃e : Eq K⦄ (v : K) (c : C) → lookup v [] ≡ some c → ⊥
nowhere v c h = cc (sym (lookup-nil v) ∙ h)

module _ (lib : Library) where
  -- Policies are numbered and stand under their names; a cached cipher is the one that the key of
  -- its version gives; a sealed keyring holds no policy.
  pub record IsValid (kr : Keyring lib) : Type 0 where
    pub versioned :
        (name : Text) (p : KeyPolicy)
        → lookup name kr.policies ≡ some p
        → IsVersioned p × (p.name ≡ name)
    pub cached :
        (name : Text) (v : ℤ) (c : Cipher lib)
        → lookup v (cipher_map lib kr name) ≡ some c
        → (p : KeyPolicy) × (lookup name kr.policies ≡ some p) × (make_cipher lib p v ≡ ok c)
    pub emptied : kr.sealed ≡ true → kr.policies ≡ []

  -- A policy with the same keys has the same ciphers.
  pub make_cipher-keys :
      (p q : KeyPolicy) (v : ℤ) → q.keys ≡ p.keys → make_cipher lib q v ≡ make_cipher lib p v
  unfolding make_cipher
  make_cipher-keys p q v e = rw (e) refl

  -- A new version takes no cipher away.
  pub make_cipher-Extends :
      {p q : KeyPolicy} (v : ℤ) (c : Cipher lib)
      → Extends p q
      → make_cipher lib p v ≡ ok c
      → make_cipher lib q v ≡ ok c
  make_cipher-Extends {p} {q} v c x e = elim (Option-cases (find_version v p.keys)) [
    | inl absent ↦ absurd (lost absent)
    | inr (k, found) ↦ kept k found ∙ e
  ]
    where
      lost : find_version v p.keys ≡ none → ⊥
      lost absent = unfold make_cipher in ground (arith, absent, e)

      kept : (k : Key) → find_version v p.keys ≡ some k → make_cipher lib q v ≡ make_cipher lib p v
      kept k found =
          unfold make_cipher in rw (x.keys, find_version-concat v p.keys x.fresh, found) refl

  -- The policy of one name is put in place, and the cached ciphers of the name are still right.
  pub insert-IsValid :
      (kr : Keyring lib) (name : Text) (p : KeyPolicy)
      → IsValid kr
      → kr.sealed ≡ false
      → IsVersioned p
      → p.name ≡ name
      → ((v : ℤ) (c : Cipher lib)
          → lookup v (cipher_map lib kr name) ≡ some c
          → make_cipher lib p v ≡ ok c)
      → IsValid (record kr { policies = insert name p kr.policies })
  insert-IsValid kr name p valid unsealed numbered named kept = record {
    versioned = versioned';
    cached = cached';
    emptied = λ sealed. cc;
  }
    where
      versioned' :
          (n : Text) (q : KeyPolicy)
          → lookup n (insert name p kr.policies) ≡ some q
          → IsVersioned q × (q.name ≡ n)
      versioned' n q e = elim (lookup-insert_inv n name p q kr.policies e) [
        | inl (n-eq, q-eq) ↦ rw (n-eq, q-eq) (numbered, named)
        | inr (other, old) ↦ valid.versioned n q old
      ]

      cached' :
          (n : Text) (v : ℤ) (c : Cipher lib)
          → lookup v (cipher_map lib kr n) ≡ some c
          → (q : KeyPolicy) × (lookup n (insert name p kr.policies) ≡ some q)
            × (make_cipher lib q v ≡ ok c)
      cached' n v c e = elim (text_eq.dec n name) [
        | yes same ↦ (
          p,
          rw same (lookup-insert_self name p kr.policies),
          kept v c (subst (λ m. lookup v (cipher_map lib kr m) ≡ some c) same e),
        )
        | no other ↦
            let (q, stands, made) = valid.cached n v c e in
            (q, lookup-insert_ne n name p kr.policies other ∙ stands, made)
      ]

  -- A policy goes away together with its ciphers.
  pub erase-IsValid :
      (kr : Keyring lib) (name : Text)
      → IsValid kr
      → IsValid (record kr { policies = erase name kr.policies; ciphers = erase name kr.ciphers })
  erase-IsValid kr name valid = record {
    versioned = λ n q e. valid.versioned n q (lookup-erase_inv n name q kr.policies e).1;
    cached = cached';
    emptied = λ sealed. ap (erase name) (valid.emptied sealed) ∙ erase-nil name;
  }
    where
      cached' :
          (n : Text) (v : ℤ) (c : Cipher lib)
          → lookup v (
              cipher_map lib
                (record kr { policies = erase name kr.policies; ciphers = erase name kr.ciphers })
                n)
            ≡ some c
          → (q : KeyPolicy) × (lookup n (erase name kr.policies) ≡ some q)
            × (make_cipher lib q v ≡ ok c)
      cached' n v c e = elim (text_eq.dec n name) [
        | yes same ↦
            let gone : lookup n (erase name kr.ciphers) ≡ none =
              rw same (lookup-erase_self name kr.ciphers) in
            let found : lookup v (or_empty none) ≡ some c =
              subst (λ o. lookup v (or_empty o) ≡ some c) gone e in
            absurd (nowhere v c found)
        | no other ↦
            let (q, stands, made) = valid.cached n v c (
              subst (λ o. lookup v (or_empty o) ≡ some c) (lookup-erase_ne n name kr.ciphers other)
                e) in
            (q, lookup-erase_ne n name kr.policies other ∙ stands, made)
      ]

  -- A cipher that was made from its key is put into the cache.
  pub cache-IsValid :
      (kr : Keyring lib) (name : Text) (v : ℤ) (p : KeyPolicy) (c : Cipher lib)
      → IsValid kr
      → lookup name kr.policies ≡ some p
      → make_cipher lib p v ≡ ok c
      → IsValid
          (record kr { ciphers = insert name (insert v c (cipher_map lib kr name)) kr.ciphers })
  cache-IsValid kr name v p c valid stands made = record {
    versioned = valid.versioned;
    cached = cached';
    emptied = valid.emptied;
  }
    where
      inner : Map ℤ (Cipher lib)
      inner = insert v c (cipher_map lib kr name)

      cached' :
          (n : Text) (w : ℤ) (d : Cipher lib)
          → lookup w (or_empty (lookup n (insert name inner kr.ciphers))) ≡ some d
          → (q : KeyPolicy) × (lookup n kr.policies ≡ some q) × (make_cipher lib q w ≡ ok d)
      cached' n w d e = elim (text_eq.dec n name) [
        | yes same ↦
            let here : lookup w inner ≡ some d =
              subst (λ o. lookup w (or_empty o) ≡ some d)
                (ap (λ k. lookup k (insert name inner kr.ciphers)) same
                  ∙ lookup-insert_self name inner kr.ciphers)
                e in
            elim (lookup-insert_inv w v c d (cipher_map lib kr name) here) [
              | inl (w-eq, d-eq) ↦ (p, rw same stands, rw (w-eq, d-eq) made)
              | inr (_, old) ↦
                  let (q, stood, m) = valid.cached name w d old in (q, rw same stood, m)
            ]
        | no other ↦ valid.cached n w d (
            subst (λ o. lookup w (or_empty o) ≡ some d)
              (lookup-insert_ne n name inner kr.ciphers other) e)
      ]
