-- ===== src/Auth/Revoked.antt =====
-- auth_service.go: tokens after they are revoked.
use grpc_vault_ha.Prelude.{
  ℕ, ◌≡◌, refl, Option, none, some, arith, Option-cases, inl, inr, Result, ok, err, panic,
}
use grpc_vault_ha.Prelude.Int.{ℤ, pos}
use grpc_vault_ha.Prelude.Text.{Text, text_eq}
use grpc_vault_ha.Prelude.Map.{lookup, lookup-insert_self}
use grpc_vault_ha.Cache
use grpc_vault_ha.Cache.{CacheEntry, LruCache}
use grpc_vault_ha.Cache.Lru.{LruList}
use grpc_vault_ha.Acl.Rules.{Policy}
use grpc_vault_ha.Jwt
use grpc_vault_ha.Jwt.{JwtLibrary, Claims}
use grpc_vault_ha.Auth.Tokens
use grpc_vault_ha.Auth.Tokens.{Token, TokenRepository, token_revoked, token_not_found}
use grpc_vault_ha.Auth.ApiKeys.{}
use grpc_vault_ha.Auth.{
  AuthService, invalid_token, map_err, token_error, cached_or, check_revoked, cache_claims,
  validate_token, revoke_token,
}

-- A token that is revoked is refused by the repository.
revoke-get :
    (now later : ℤ) (r : TokenRepository) (id : Text)
    → (Tokens.revoke now r id).1 ≡ ok tt
    → Tokens.get later (Tokens.revoke now r id).0 id ≡ err token_revoked
unfolding Tokens.revoke Tokens.get
revoke-get now later r id h = elim (Option-cases (lookup id r.tokens)) [
  | inl missing ↦ absurd (refused missing)
  | inr (t, there) ↦
      ground (arith, there, lookup-insert_self id (record t { revoked_at = some now }) r.tokens)
]
  where
    refused : lookup id r.tokens ≡ none → ⊥
    refused missing = ground (arith, missing, h)

map_err-ok : {D E A : Type 0} (f : D → E) (r : Result D A) (a : A) → map_err f r ≡ ok a → r ≡ ok a
map_err-ok f (ok b) a h = cc
map_err-ok f (err e) a h = cc
map_err-ok f panic a h = cc

module _ (jwt : JwtLibrary) (claims_lru : LruList Text (CacheEntry Claims))
    (policy_lru : LruList Text (CacheEntry Policy)) where
  cached_or-hit :
      (now : ℕ) (s : AuthService jwt claims_lru policy_lru) (token : Text)
      (r : LruCache Text Claims claims_lru × Option Claims) (c : Claims)
      → r.1 ≡ some c
      → (cached_or jwt claims_lru policy_lru now s token r).1 ≡ ok c
  unfolding cached_or
  cached_or-hit now s token (cache, some d) c e = ground (arith, e)
  cached_or-hit now s token (cache, none) c e = cc

  cache_claims-revoked :
      (now : ℕ) (s : AuthService jwt claims_lru policy_lru) (token : Text) (c : Claims)
      → (cache_claims jwt claims_lru policy_lru now s token c (err token_revoked)).1
        ≡ err invalid_token
  unfolding cache_claims
  cache_claims-revoked now s token c = refl

  cached_or-miss :
      (now : ℕ) (s : AuthService jwt claims_lru policy_lru) (token : Text)
      (r : LruCache Text Claims claims_lru × Option Claims) (c : Claims)
      → r.1 ≡ none
      → Jwt.validate_token jwt (pos now) s.jwt_manager token ≡ ok c
      → Tokens.get (pos now) s.token_repo c.token_id ≡ err token_revoked
      → (cached_or jwt claims_lru policy_lru now s token r).1 ≡ err invalid_token
  unfolding cached_or check_revoked
  cached_or-miss now s token (cache, some d) c e v g = cc
  cached_or-miss now s token (cache, none) c e v g =
      rw (v, g) (cache_claims-revoked now (record s { token_cache = cache }) token c)

  -- After `RevokeToken` has succeeded for a token, `ValidateToken` refuses it if the cache does not
  -- hold its claims, and goes on accepting it as long as the cache does.
  pub revoke_token-validate_token :
      (now later : ℕ) (s : AuthService jwt claims_lru policy_lru) (token : Text) (c : Claims)
      → (revoke_token jwt claims_lru policy_lru now s c.token_id).1 ≡ ok tt
      → Jwt.validate_token jwt (pos later) s.jwt_manager token ≡ ok c
      → ((Cache.get Text Claims claims_lru later s.token_cache token).1 ≡ none
          → (validate_token jwt claims_lru policy_lru later
              (revoke_token jwt claims_lru policy_lru now s c.token_id).0
              token).1
            ≡ err invalid_token)
        × ((d : Claims)
            → (Cache.get Text Claims claims_lru later s.token_cache token).1 ≡ some d
            → (validate_token jwt claims_lru policy_lru later
                (revoke_token jwt claims_lru policy_lru now s c.token_id).0
                token).1
              ≡ ok d)
  unfolding validate_token revoke_token
  revoke_token-validate_token now later s token c revoked valid = (
    λ miss.
        cached_or-miss later (revoke_token jwt claims_lru policy_lru now s c.token_id).0 token
          (Cache.get Text Claims claims_lru later s.token_cache token) c miss valid
          (revoke-get (pos now) (pos later) s.token_repo c.token_id
            (map_err-ok token_error _ tt revoked)),
    λ d hit.
        cached_or-hit later (revoke_token jwt claims_lru policy_lru now s c.token_id).0 token
          (Cache.get Text Claims claims_lru later s.token_cache token) d hit,
  )
