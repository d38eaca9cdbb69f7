-- ===== src/Lock/Storage.antt =====
-- lock_service.go: what `PutSecret`, `GetSecret`, `DeleteSecret` and `ListSecrets` promise together.
use grpc_vault_ha.Prelude.{
  ℕ, ◌≡◌, ◌≢◌, refl, sym, ap, ◌∙◌, any, ◌↔◌, is_some, Bool, true, false, ◌&&◌, some, List, [], ◌∷◌,
  keep, arith, ◌==◌, ok, err, or_err, Bool-cases, inl, inr,
}
use grpc_vault_ha.Prelude.Int.{pos}
use grpc_vault_ha.Prelude.Text.{Text, text_eq}
use grpc_vault_ha.Prelude.Map
use grpc_vault_ha.Prelude.Map.{
  Map, lookup, insert, erase, lookup-insert_self, lookup-insert_ne, lookup-erase_self,
  lookup-erase_ne,
}
use grpc_vault_ha.Aes.{Library}
use grpc_vault_ha.Lock.Shamir.{secret_not_found}
use grpc_vault_ha.Lock.{LockService, Secret}
use grpc_vault_ha.Lock.Secrets.{
  under, next_version, new_secret, put_secret, get_secret, delete_secret, list_secrets,
}

any-keep-keys :
    (f : Text → Bool) (path : Text) (m : Map Text Secret)
    → any (λ p. path == p) (keep f (Map.keys m)) ≡ (f path && is_some (lookup path m))
unfolding lookup
any-keep-keys f path [] = ground arith
any-keep-keys f path ((p, secret) ∷ m) = elim (text_eq.dec path p) [
  | yes same ↦ rw same (ground (arith, rw same at (any-keep-keys f path m)))
  | no other ↦ ground (arith, other, any-keep-keys f path m)
]

module _ (lib : Library) where
  -- An unsealed vault with other secrets.
  abbrev holding : LockService lib → Map Text Secret → LockService lib
  holding s secrets = record s { secrets = secrets }

  put_secret-opened :
      (now : ℕ) (s : LockService lib) (path : Text) (fields : Map Text Text)
      → s.sealed ≡ false
      → put_secret lib now s path fields ≡ (
        holding s (insert path (new_secret lib now s path fields) s.secrets),
        ok (next_version (lookup path s.secrets)),
      )
  unfolding put_secret
  put_secret-opened now s path fields opened = simp opened

  get_secret-opened :
      (s : LockService lib) (path : Text)
      → s.sealed ≡ false
      → get_secret lib s path ≡ or_err (lookup path s.secrets) secret_not_found
  unfolding get_secret
  get_secret-opened s path opened = simp opened

  delete_secret-opened :
      (s : LockService lib) (path : Text) (secret : Secret)
      → s.sealed ≡ false
      → lookup path s.secrets ≡ some secret
      → delete_secret lib s path ≡ (holding s (erase path s.secrets), ok tt)
  unfolding delete_secret
  delete_secret-opened s path secret opened found = simp (opened, found)

  pub put_secret-get_secret :
      (now : ℕ) (s : LockService lib) (path : Text) (fields : Map Text Text)
      → s.sealed ≡ false
      → ((put_secret lib now s path fields).1 ≡ ok (next_version (lookup path s.secrets)))
        × ((secret : Secret) × (get_secret lib (put_secret lib now s path fields).0 path
              ≡ ok secret)
            × (secret.fields ≡ fields)
            × (secret.version ≡ next_version (lookup path s.secrets)))
        × ((other : Text)
            → other ≢ path
            → get_secret lib (put_secret lib now s path fields).0 other ≡ get_secret lib s other)
  put_secret-get_secret now s path fields opened = rw (put_secret-opened now s path fields opened) (
    refl,
    (
      new,
      get_secret-opened _ path opened ∙ rw (lookup-insert_self path new s.secrets) refl,
      refl,
      refl,
    ),
    λ other ne.
        get_secret-opened _ other opened
        ∙ rw (lookup-insert_ne other path new s.secrets ne)
            (sym (get_secret-opened s other opened)),
  )
    where
      new : Secret
      new = new_secret lib now s path fields

  -- In an unsealed vault a secret that is deleted is gone, the other paths read as before, and the
  -- next `PutSecret` on the path starts again with version 1.
  pub delete_secret-get_secret :
      (now : ℕ) (s : LockService lib) (path : Text) (secret : Secret) (fields : Map Text Text)
      → s.sealed ≡ false
      → get_secret lib s path ≡ ok secret
      → ((delete_secret lib s path).1 ≡ ok tt)
        × (get_secret lib (delete_secret lib s path).0 path ≡ err secret_not_found)
        × ((other : Text)
            → other ≢ path
            → get_secret lib (delete_secret lib s path).0 other ≡ get_secret lib s other)
        × ((put_secret lib now (delete_secret lib s path).0 path fields).1 ≡ ok (pos 1))
  delete_secret-get_secret now s path secret fields opened got =
      rw (delete_secret-opened s path secret opened found) (
        refl,
        get_secret-opened _ path opened ∙ rw (lookup-erase_self path s.secrets) refl,
        λ other ne.
            get_secret-opened _ other opened
            ∙ rw (lookup-erase_ne other path s.secrets ne) (sym (get_secret-opened s other opened)),
        ap (λ x. x.1) (put_secret-opened now (holding s (erase path s.secrets)) path fields opened)
            ∙ rw (lookup-erase_self path s.secrets) refl,
      )
    where
      found : lookup path s.secrets ≡ some secret
      found = ground (arith, got, get_secret-opened s path opened)

  -- `ListSecrets` names exactly the stored paths that begin with the prefix.
  pub list_secrets_iff :
      (s : LockService lib) (prefix path : Text) (paths : List Text)
      → list_secrets lib s prefix ≡ ok paths
      → (any (λ p. path == p) paths ≡ true)
        ↔ ((under prefix path ≡ true) × (is_some (lookup path s.secrets) ≡ true))
  unfolding list_secrets
  list_secrets_iff s prefix path paths listed = elim (Bool-cases s.sealed) [
    | inl closed ↦ absurd (refused closed)
    | inr opened ↦ ground (arith, opened, listed, any-keep-keys (under prefix) path s.secrets)
  ]
    where
      refused : s.sealed ≡ true → ⊥
      refused closed = ground (arith, closed, listed)
