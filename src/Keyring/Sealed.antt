-- ===== src/Keyring/Sealed.antt =====
-- keyring.go, `Seal`: what it leaves behind. No method but `Unmarshal` opens a keyring again.
use grpc_vault_ha.Prelude.{
  ℕ, zero, suc, ◌≡◌, refl, ap, ◌∙◌, Option, some, List, [], ◌∷◌, map, arith, err, true, All, length,
  replicate,
}
use grpc_vault_ha.Prelude.Int.{ℤ}
use grpc_vault_ha.Prelude.Text.{Text, text_eq}
use grpc_vault_ha.Prelude.Map.{Map, lookup}
use grpc_vault_ha.Aes.{Library}
use grpc_vault_ha.Keyring.Policy.{
  KeyPolicy, KeyType, KeyOption, Key, keyring_sealed, zero_key, zero_keys,
}
use grpc_vault_ha.Keyring.{
  Keyring, get_policy, create_key, get_key, get_key_version, get_cipher, cipher_from, rotate_key,
  rotate_policy, delete_key, delete_policy, update_config, configure, seal,
}
use grpc_vault_ha.Keyring.History.{
  Call, creates, rotates, configures, deletes, ciphers, seals, step, run,
}

module _ (lib : Library) where
  get_policy_sealed :
      (kr : Keyring lib) (name : Text)
      → kr.sealed ≡ true
      → get_policy lib kr name ≡ err keyring_sealed
  unfolding get_policy
  get_policy_sealed kr name h = simp h

  -- What every method of a sealed keyring answers.
  pub record Refuses (kr : Keyring lib) (name : Text) : Type 0 where
    pub creates_no_key :
        (random : ℕ → Option Text) (now : ℕ) (t : KeyType) (opts : List KeyOption)
        → create_key lib random now kr name t opts ≡ (kr, err keyring_sealed)
    pub gets_no_key : get_key lib kr name ≡ err keyring_sealed
    pub gets_no_version : (v : ℤ) → get_key_version lib kr name v ≡ err keyring_sealed
    pub gets_no_cipher : (v : ℤ) → get_cipher lib kr name v ≡ (kr, err keyring_sealed)
    pub rotates_no_key :
        (random : ℕ → Option Text) (now : ℕ)
        → rotate_key lib random now kr name ≡ (kr, err keyring_sealed)
    pub configures_no_key :
        (now : ℕ) (opts : List KeyOption)
        → update_config lib now kr name opts ≡ (kr, err keyring_sealed)
    pub deletes_no_key : delete_key lib kr name ≡ (kr, err keyring_sealed)

  pub sealed-Refuses : (kr : Keyring lib) (name : Text) → kr.sealed ≡ true → Refuses kr name
  unfolding create_key get_key get_key_version get_cipher cipher_from rotate_key rotate_policy
      update_config configure delete_key delete_policy
  sealed-Refuses kr name h = record {
    creates_no_key = λ random now t opts. simp h;
    gets_no_key = get_policy_sealed kr name h;
    gets_no_version = λ v. rw (get_policy_sealed kr name h) refl;
    gets_no_cipher = λ v. rw (get_policy_sealed kr name h) refl;
    rotates_no_key = λ random now. rw (get_policy_sealed kr name h) refl;
    configures_no_key = λ now opts. rw (get_policy_sealed kr name h) refl;
    deletes_no_key = rw (get_policy_sealed kr name h) refl;
  }

  stays :
      {A : Type 0} {kr : Keyring lib} {a : A} {r : Keyring lib × A}
      → r ≡ (kr, a)
      → kr.sealed ≡ true
      → r.0.sealed ≡ true
  stays e h = ap (λ x. x.0.sealed) e ∙ h

  step_sealed : (kr : Keyring lib) (c : Call) → kr.sealed ≡ true → (step lib kr c).sealed ≡ true
  unfolding step seal
  step_sealed kr (creates random now name t opts) h =
      stays ((sealed-Refuses kr name h).creates_no_key random now t opts) h
  step_sealed kr (rotates random now name) h =
      stays ((sealed-Refuses kr name h).rotates_no_key random now) h
  step_sealed kr (configures now name opts) h =
      stays ((sealed-Refuses kr name h).configures_no_key now opts) h
  step_sealed kr (deletes name) h = stays (sealed-Refuses kr name h).deletes_no_key h
  step_sealed kr (ciphers name v) h = stays ((sealed-Refuses kr name h).gets_no_cipher v) h
  step_sealed kr seals h = refl

  pub run_sealed :
      (kr : Keyring lib) (cs : List Call) → kr.sealed ≡ true → (run lib kr cs).sealed ≡ true
  unfolding run
  run_sealed kr [] h = h
  run_sealed kr (c ∷ cs) h = run_sealed (step lib kr c) cs (step_sealed kr c h)

  pub run-seal-Refuses :
      (kr : Keyring lib) (cs : List Call) (name : Text) → Refuses (run lib (seal lib kr).0 cs) name
  run-seal-Refuses kr cs name =
      sealed-Refuses _ name (run_sealed (seal lib kr).0 cs (unfold seal in refl))

-- Key material of zeros.
abbrev pub Wiped : Key → Type 0
Wiped k = All (λ (b : ℕ). b ≡ 0) k.key

replicate-zero : (n : ℕ) → All (λ (b : ℕ). b ≡ 0) (replicate n 0)
replicate-zero zero = tt
replicate-zero (suc n) = (refl, replicate-zero n)

zero_key-Wiped : (ks : List Key) → All Wiped (map zero_key ks)
zero_key-Wiped [] = tt
zero_key-Wiped (k ∷ ks) = (replicate-zero (length k.key), zero_key-Wiped ks)

lookup-zero_keys :
    (name : Text) (m : Map Text KeyPolicy) (p : KeyPolicy)
    → lookup name m ≡ some p
    → lookup name (zero_keys m) ≡ some (record p { keys = map zero_key p.keys })
unfolding lookup zero_keys
lookup-zero_keys name [] p e = cc
lookup-zero_keys name ((n, q) ∷ m) p e = ground (arith, lookup-zero_keys name m p)

-- `Seal` overwrites the key material of every policy that the keyring held with zeros, also where
-- a caller still points to the policy.
pub seal-Wiped :
    (lib : Library) (kr : Keyring lib) (name : Text) (p : KeyPolicy)
    → lookup name kr.policies ≡ some p
    → (q : KeyPolicy) × (lookup name (seal lib kr).1 ≡ some q)
      × (length q.keys ≡ length p.keys)
      × All Wiped q.keys
unfolding seal
seal-Wiped lib kr name p e = (
  record p { keys = map zero_key p.keys },
  lookup-zero_keys name kr.policies p e,
  length-map p.keys,
  zero_key-Wiped p.keys,
)
  where
    length-map : (ks : List Key) → length (map zero_key ks) ≡ length ks
    length-map [] = refl
    length-map (k ∷ ks) = ap suc (length-map ks)
