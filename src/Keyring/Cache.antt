-- ===== src/Keyring/Cache.antt =====
-- keyring.go, `GetCipher`: the cache is only a cache, and the minimum version is not looked at.
use grpc_vault_ha.Prelude.{
  ◌≡◌, refl, sym, subst, ◌∙◌, arith, Result, ok, err, panic, ◌>>=◌, Option-cases, inl, inr,
}
use grpc_vault_ha.Prelude.Int.{ℤ, ◌<ℤ◌, int_eq}
use grpc_vault_ha.Prelude.Text.{Text, text_eq}
use grpc_vault_ha.Prelude.Map.{lookup}
use grpc_vault_ha.Aes.{Library, Cipher}
use grpc_vault_ha.Keyring.Policy.{KeyPolicy, Error, version_below_min, resolve_version}
use grpc_vault_ha.Keyring.{
  Keyring, get_policy, get_cipher, cipher_from, cipher_of, cache_cipher, cipher_map, make_cipher,
  get_key_version, version_of,
}
use grpc_vault_ha.Keyring.Invariant.{IsValid}
use grpc_vault_ha.Keyring.Preserved.{get_policy_cases}

module _ (lib : Library) (kr : Keyring lib) (name : Text) (version : ℤ)
    (valid : IsValid lib kr) where
  cache_cipher-result :
      (v : ℤ) (r : Result Error (Cipher lib)) → (cache_cipher lib kr name v r).1 ≡ r
  unfolding cache_cipher
  cache_cipher-result v (ok c) = refl
  cache_cipher-result v (err e) = refl
  cache_cipher-result v panic = refl

  -- In a valid keyring the cipher that `GetCipher` returns, from the cache or not, is the one made
  -- from the key of the version; with version 0, of the latest one. Its errors are those of the
  -- policy's lookup, of the missing version and of `aes.NewCipher`.
  pub get_cipher-make_cipher :
      (get_cipher lib kr name version).1
      ≡ (get_policy lib kr name >>= λ p. make_cipher lib p (resolve_version p version))
  unfolding get_cipher cipher_from cipher_of
  get_cipher-make_cipher = elim (get_policy_cases lib kr name) [
    | inl (e, failed) ↦ rw (failed, cipher_from) refl
    | inr (p, got, _, found) ↦
        let v : ℤ = resolve_version p version in
        elim (Option-cases (lookup v (cipher_map lib kr name))) [
          | inr (c, hit) ↦
              let (q, stands, made) = valid.cached name v c hit in
              let same : q ≡ p = cc (stands, found) in
              rw (got, cipher_from)
                (rw (hit, cipher_of) (sym (subst (λ r. make_cipher lib r v ≡ ok c) same made)))
          | inl miss ↦ rw (got, cipher_from) (rw (miss, cipher_of) (cache_cipher-result v _))
        ]
  ]

pub get_cipher_below_min :
    (lib : Library) (kr : Keyring lib) (name : Text) (version : ℤ) (p : KeyPolicy)
    → IsValid lib kr
    → get_policy lib kr name ≡ ok p
    → resolve_version p version <ℤ p.min_decryption_version
    → (get_key_version lib kr name version ≡ err version_below_min)
      × ((get_cipher lib kr name version).1 ≡ make_cipher lib p (resolve_version p version))
get_cipher_below_min lib kr name version p valid got below = (refused, made)
  where
    refused : get_key_version lib kr name version ≡ err version_below_min
    refused = unfold get_key_version version_of in rw got (ground arith)

    made : (get_cipher lib kr name version).1 ≡ make_cipher lib p (resolve_version p version)
    made = get_cipher-make_cipher lib kr name version valid ∙ rw got refl
