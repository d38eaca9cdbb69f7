-- ===== src/Keyring/Rotation.antt =====
-- keyring.go, `RotateKey` against `GetKeyVersion`.
use grpc_vault_ha.Prelude.{
  ℕ, suc, ◌≡◌, ◌≢◌, ◌<◌, refl, ap, ◌∙◌, Option, none, some, ◌∷◌, [], ◌++◌, arith, ok, inl, inr,
  length, false,
}
use grpc_vault_ha.Prelude.Int.{ℤ, pos, eqb_ℤ→eq, eqb_ℤ_refl, max_int, int_inc, ◌≤ℤ◌}
use grpc_vault_ha.Prelude.Text.{Text, text_eq}
use grpc_vault_ha.Prelude.Map.{lookup, insert, lookup-insert_self, lookup-insert_ne}
use grpc_vault_ha.Aes.{Library}
use grpc_vault_ha.Keyring.Policy.{
  KeyPolicy, KeyType, new_key, key_size, generate_key_version, find_version, aes256_gcm,
}
use grpc_vault_ha.Keyring.Versions.{find_version-concat, find_version_beyond}
use grpc_vault_ha.Keyring.{
  Keyring, get_policy, rotate_key, rotate_policy, get_key_version, version_of,
}
use grpc_vault_ha.Keyring.Invariant.{IsValid}
use grpc_vault_ha.Keyring.Preserved.{get_policy_cases}

pub key_size_lem : (t : KeyType) → key_size t ≡ 32
key_size_lem aes256_gcm = refl
key_size_lem _ = refl

module _ (lib : Library) (random : ℕ → Option Text) (now : ℕ) (kr : Keyring lib) (name : Text)
    (p : KeyPolicy) (bytes : Text) (valid : IsValid lib kr) (got : get_policy lib kr name ≡ ok p)
    (drawn : random 32 ≡ some bytes) (room : length p.keys < max_int) where
  -- The policy after the rotation, and the keyring that holds it.
  abbrev rotated : KeyPolicy
  rotated = record p {
    latest_version = int_inc p.latest_version;
    keys = p.keys ++ new_key p now bytes ∷ [];
    updated_at = now;
  }

  abbrev after : Keyring lib
  after = record kr { policies = insert name rotated kr.policies }

  opened : (kr.sealed ≡ false) × (lookup name kr.policies ≡ some p)
  opened = elim (get_policy_cases lib kr name) [
    | inl (e, failed) ↦ cc (failed, got)
    | inr (q, found, unsealed, stands) ↦
        let same : q ≡ p = cc (found, got) in (unsealed, rw (← same) stands)
  ]

  rotate_key_lem : rotate_key lib random now kr name ≡ (after, ok (int_inc p.latest_version))
  unfolding rotate_key rotate_policy generate_key_version
  rotate_key_lem = rw (got, key_size_lem p.key_type, drawn, rotate_policy) refl

  latest : int_inc p.latest_version ≡ pos (suc (length p.keys))
  latest = ground (arith, (valid.versioned name p opened.1).0.latest)

  get_policy_self : get_policy lib after name ≡ ok rotated
  unfolding get_policy
  get_policy_self = rw (opened.0, lookup-insert_self name rotated kr.policies) refl

  get_policy_other :
      (other : Text) → other ≢ name → get_policy lib after other ≡ get_policy lib kr other
  unfolding get_policy
  get_policy_other other ne = rw (lookup-insert_ne other name rotated kr.policies ne) refl

  -- Looking for an old version in the longer list of keys.
  version_of_old :
      (v : ℤ) → v ≢ int_inc p.latest_version → version_of lib rotated v ≡ version_of lib p v
  unfolding version_of
  version_of_old v ne =
      rw (find_version-concat v p.keys (new_key p now bytes))
        (ground (arith, eqb_ℤ→eq (int_inc p.latest_version) v))

  found_new : find_version (int_inc p.latest_version) rotated.keys ≡ some (new_key p now bytes)
  found_new =
      let absent : find_version (int_inc p.latest_version) p.keys ≡ none = rw latest (
        find_version_beyond (suc (length p.keys)) 0 p.keys
          (valid.versioned name p opened.1).0.numbered (omega arith)) in
      rw
        (
          find_version-concat (int_inc p.latest_version) p.keys (new_key p now bytes),
          absent,
          eqb_ℤ_refl (int_inc p.latest_version),
        )
        refl

  version_of_new :
      p.min_decryption_version ≤ℤ int_inc p.latest_version
      → version_of lib rotated (int_inc p.latest_version) ≡ ok (new_key p now bytes)
  unfolding version_of
  version_of_new min = rw found_new (ground arith)

  pub rotate_key-get_key_version :
      p.min_decryption_version ≤ℤ pos (suc (length p.keys))
      → ((rotate_key lib random now kr name).1 ≡ ok (pos (suc (length p.keys))))
        × (get_key_version lib (rotate_key lib random now kr name).0 name (pos 0)
            ≡ ok (new_key p now bytes))
        × ((v : ℤ)
            → v ≢ pos 0
            → v ≢ pos (suc (length p.keys))
            → get_key_version lib (rotate_key lib random now kr name).0 name v
              ≡ get_key_version lib kr name v)
        × ((other : Text) (v : ℤ)
            → other ≢ name
            → get_key_version lib (rotate_key lib random now kr name).0 other v
              ≡ get_key_version lib kr other v)
  unfolding get_key_version
  rotate_key-get_key_version min = rw rotate_key_lem (
    ap ok latest,
    rw get_policy_self (version_of_new (rw latest min)),
    λ v nonzero ne. old v nonzero (λ e. ne (e ∙ latest)),
    λ other v ne. rw (get_policy_other other ne) refl,
  )
    where
      old :
          (v : ℤ)
          → v ≢ pos 0
          → v ≢ int_inc p.latest_version
          → get_key_version lib after name v ≡ get_key_version lib kr name v
      old v nonzero ne =
          unfold get_key_version in
          rw (get_policy_self, got) (ground (arith, eqb_ℤ→eq v (pos 0), version_of_old v ne))
