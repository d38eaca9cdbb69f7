-- ===== src/Keyring/History.antt =====
-- keyring.go: every method keeps the invariant, and so does every history of calls.
use grpc_vault_ha.Prelude.{
  ℕ, suc, ◌+◌, ◌≤◌, ◌<◌, ◌≡◌, refl, false, Option, some, List, [], ◌∷◌, arith, Result, ok, err,
  panic, Option-cases, Bool-cases, inl, inr, length,
}
use grpc_vault_ha.Prelude.Int.{ℤ, max_int, int_eq}
use grpc_vault_ha.Prelude.Text.{Text, text_eq}
use grpc_vault_ha.Prelude.Map.{lookup, lookup-erase_inv, lookup-nil}
use grpc_vault_ha.Aes.{Library, Cipher}
use grpc_vault_ha.Keyring.Policy.{KeyPolicy, KeyType, KeyOption, Error, resolve_version}
use grpc_vault_ha.Keyring.Versions.{}
use grpc_vault_ha.Keyring.{
  Keyring, new_keyring, create_key, rotate_key, update_config, delete_key, delete_policy,
  get_cipher, cipher_from, cipher_of, cache_cipher, seal, cipher_map, make_cipher,
}
use grpc_vault_ha.Keyring.Preserved.{
  Kept, AtMost-suc, get_policy_cases, create_key-Kept, rotate_key-Kept, update_config-Kept,
}
use grpc_vault_ha.Keyring.Invariant.{IsValid, nowhere, erase-IsValid, cache-IsValid}

-- The calls that change a keyring.
pub data Call : Type 0 where
  creates : (ℕ → Option Text) → ℕ → Text → KeyType → List KeyOption → Call
  rotates : (ℕ → Option Text) → ℕ → Text → Call
  configures : ℕ → Text → List KeyOption → Call
  deletes : Text → Call
  ciphers : Text → ℤ → Call
  seals : Call

module _ (lib : Library) where
  unfoldable pub step : Keyring lib → Call → Keyring lib
  step kr (creates random now name key_type opts) =
      (create_key lib random now kr name key_type opts).0
  step kr (rotates random now name) = (rotate_key lib random now kr name).0
  step kr (configures now name opts) = (update_config lib now kr name opts).0
  step kr (deletes name) = (delete_key lib kr name).0
  step kr (ciphers name version) = (get_cipher lib kr name version).0
  step kr seals = (seal lib kr).0

  unfoldable pub run : Keyring lib → List Call → Keyring lib
  run kr [] = kr
  run kr (c ∷ cs) = run (step kr c) cs

  delete_key-Kept :
      (n : ℕ) (kr : Keyring lib) (name : Text)
      → Kept lib n kr
      → Kept lib n (delete_key lib kr name).0
  unfolding delete_key delete_policy
  delete_key-Kept n kr name k = elim (get_policy_cases lib kr name) [
    | inl (e, failed) ↦ rw (failed, delete_policy) k
    | inr (p, got, _, _) ↦ elim (Bool-cases p.deletion_allowed) [
      | inl allowed ↦
          rw (got, delete_policy, allowed)
            (
              erase-IsValid lib kr name k.0,
              λ m q e. k.1 m q (lookup-erase_inv m name q kr.policies e).1,
            )
      | inr refused ↦ rw (got, delete_policy, refused) k
    ]
  ]

  cache_cipher-Kept :
      (n : ℕ) (kr : Keyring lib) (name : Text) (v : ℤ) (p : KeyPolicy)
      (r : Result Error (Cipher lib))
      → Kept lib n kr
      → lookup name kr.policies ≡ some p
      → make_cipher lib p v ≡ r
      → Kept lib n (cache_cipher lib kr name v r).0
  unfolding cache_cipher
  cache_cipher-Kept n kr name v p (ok c) k found made =
      (cache-IsValid lib kr name v p c k.0 found made, k.1)
  cache_cipher-Kept n kr name v p (err e) k found made = k
  cache_cipher-Kept n kr name v p panic k found made = k

  get_cipher-Kept :
      (n : ℕ) (kr : Keyring lib) (name : Text) (version : ℤ)
      → Kept lib n kr
      → Kept lib n (get_cipher lib kr name version).0
  unfolding get_cipher cipher_from cipher_of
  get_cipher-Kept n kr name version k = elim (get_policy_cases lib kr name) [
    | inl (e, failed) ↦ rw (failed, cipher_from) k
    | inr (p, got, _, found) ↦
        let v = resolve_version p version in
        elim (Option-cases (lookup v (cipher_map lib kr name))) [
          | inr (c, hit) ↦ rw (got, cipher_from) (rw (hit, cipher_of) k)
          | inl miss ↦
              rw (got, cipher_from)
                (rw (miss, cipher_of) (cache_cipher-Kept n kr name v p _ k found refl))
        ]
  ]

  seal-Kept : (n : ℕ) (kr : Keyring lib) → Kept lib n (seal lib kr).0
  unfolding seal
  seal-Kept n kr = (
    record {
      versioned = λ name p e. absurd (nowhere name p e);
      cached = λ name v c e. absurd (nowhere v c (rw (lookup-nil name) at e));
      emptied = λ _. refl;
    },
    λ name p e. absurd (nowhere name p e),
  )

  pub step-Kept :
      (n : ℕ) (kr : Keyring lib) (c : Call)
      → n < max_int
      → Kept lib n kr
      → Kept lib (suc n) (step kr c)
  unfolding step
  step-Kept n kr (creates random now name key_type opts) room k =
      create_key-Kept lib n kr random now name key_type opts room k
  step-Kept n kr (rotates random now name) room k = rotate_key-Kept lib n kr random now name room k
  step-Kept n kr (configures now name opts) room k = update_config-Kept lib n kr now name opts k
  step-Kept n kr (deletes name) room k =
      let (v, small) = delete_key-Kept n kr name k in
      (v, AtMost-suc lib n (delete_key lib kr name).0 small)
  step-Kept n kr (ciphers name version) room k =
      let (v, small) = get_cipher-Kept n kr name version k in
      (v, AtMost-suc lib n (get_cipher lib kr name version).0 small)
  step-Kept n kr seals room k =
      let (v, small) = seal-Kept n kr in (v, AtMost-suc lib n (seal lib kr).0 small)

  run-Kept :
      (n : ℕ) (kr : Keyring lib) (cs : List Call)
      → n + length cs ≤ max_int
      → Kept lib n kr
      → IsValid lib (run kr cs)
  unfolding run
  run-Kept n kr [] room k = k.0
  run-Kept n kr (c ∷ cs) room k =
      run-Kept (suc n) (step kr c) cs (omega arith) (step-Kept n kr c (omega arith) k)

  -- After any history of calls on a new keyring, no longer than the largest version number:
  -- every policy stands under its name, its keys are numbered from 1 to its latest version without
  -- a gap, every cached cipher is the one that the key of its version gives, and a sealed keyring
  -- holds no policy.
  pub run-new_keyring-IsValid :
      (cs : List Call) → length cs ≤ max_int → IsValid lib (run (new_keyring lib) cs)
  run-new_keyring-IsValid cs room =
      run-Kept 0 (new_keyring lib) cs (omega arith) (unfold new_keyring in empty_kept)
    where
      empty_kept : Kept lib 0 (record { policies = []; ciphers = []; sealed = false })
      empty_kept = (
        record {
          versioned = λ name p e. absurd (nowhere name p e);
          cached = λ name v c e. absurd (nowhere v c (rw (lookup-nil name) at e));
          emptied = λ e. cc;
        },
        λ name p e. absurd (nowhere name p e),
      )
