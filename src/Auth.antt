-- ===== src/Auth.antt =====
-- services/auth/internal/service/auth_service.go: tokens, API keys and policies. golang-jwt, the LRU
-- lists, SHA-256 and base64 are parameters. Nanoseconds count time; what a goroutine of
-- `UpdateLastUsed` writes is written by a call of its own. Every step has one reading of the clock.
pub mod Page
pub mod Tokens
pub mod ApiKeys
pub mod Policies
pub mod Stored
pub mod Synced
pub mod Revoked
pub mod Issued
mod Tests
use grpc_vault_ha.Prelude.{
  ℕ, ◌+◌, Bool, true, false, Option, none, some, List, [], ◌∷◌, ◌++◌, any, if◌then◌else◌, ◌==◌,
  Result, ok, err, panic, ◌>>=◌, or_err,
}
use grpc_vault_ha.Prelude.Int.{ℤ, pos, negsuc, pos_part, ◌+ℤ◌, ltb_ℤ}
use grpc_vault_ha.Prelude.Text.{Text, codes, text_eq}
use grpc_vault_ha.Prelude.Map.{Map}
use grpc_vault_ha.Cache
use grpc_vault_ha.Cache.{CacheEntry, LruCache, new_lru_cache_with_ttl}
use grpc_vault_ha.Cache.Lru.{LruList}
use grpc_vault_ha.Acl
use grpc_vault_ha.Acl.{Evaluator, new_evaluator, add_policy, remove_policy}
use grpc_vault_ha.Acl.Actions.{action_to_capability}
use grpc_vault_ha.Acl.Rules.{Rule, Policy, EvaluationResult}
use grpc_vault_ha.Jwt
use grpc_vault_ha.Jwt.{JwtLibrary, Claims, Manager, new_manager, expired_token}
use Tokens.{Token, TokenRepository, token_not_found, token_revoked}
use ApiKeys.{ApiKey, ApiKeyRepository}
use Policies.{StoredPolicy, PolicyRepository}

pub data Error : Type 0 where
  invalid_token token_expired invalid_api_key permission_denied random_failed cache_failed : Error
  jwt_error : Jwt.Error → Error
  token_error : Tokens.Error → Error
  api_key_error : ApiKeys.Error → Error
  policy_error : Policies.Error → Error

-- An error of a repository, passed on.
abbrev pub map_err : {D E A : Type 0} → (D → E) → Result D A → Result E A
map_err f (ok a) = ok a
map_err f (err e) = err (f e)
map_err f panic = panic

-- `time.Time{}`, the first of January of the year 1.
abbrev pub zero_time : ℤ
zero_time = negsuc 62135596799999999999

abbrev pub with_default : List Text → List Text
with_default policies =
    if any (λ p. p == codes "default") policies
    then policies
    else policies ++ (codes "default" ∷ [])

module _ (jwt : JwtLibrary) (claims_lru : LruList Text (CacheEntry Claims))
    (policy_lru : LruList Text (CacheEntry Policy)) where
  pub record AuthService : Type 0 where
    pub jwt_manager : Manager jwt
    pub token_repo : TokenRepository
    pub api_key_repo : ApiKeyRepository
    pub policy_repo : PolicyRepository
    pub token_cache : LruCache Text Claims claims_lru
    pub policy_cache : LruCache Text Policy policy_lru
    pub policy_evaluator : Evaluator

  -- What the evaluator is given of a stored policy.
  abbrev pub to_policy : StoredPolicy → Policy
  to_policy p = record { name = p.name; rules = p.rules; description = [] }

  unfoldable pub load : Evaluator → List StoredPolicy → Evaluator
  load e [] = e
  load e (p ∷ policies) = load (add_policy e (to_policy p)) policies

  -- An error of the listing is ignored, as no policies.
  abbrev pub listed : Result Policies.Error (List StoredPolicy × ℕ) → List StoredPolicy
  listed (ok (policies, total)) = policies
  listed (err e) = []
  listed panic = []

  unfoldable pub new_auth_service :
      Option jwt.PrivateKey
      → Jwt.Config jwt
      → ℤ
      → ℕ
      → TokenRepository
      → ApiKeyRepository
      → PolicyRepository
      → Result Error AuthService
  unfolding load
  new_auth_service generated cfg l1_size l2_ttl token_repo api_key_repo policy_repo =
      map_err jwt_error (new_manager jwt generated (record cfg { private_key = none }))
      >>= λ manager.
          or_err (new_lru_cache_with_ttl Text Claims claims_lru l1_size l2_ttl) cache_failed
          >>= λ token_cache.
              or_err (new_lru_cache_with_ttl Text Policy policy_lru (pos 1000) 300000000000)
                cache_failed
              >>= λ policy_cache. ok (record {
                jwt_manager = manager;
                token_repo = token_repo;
                api_key_repo = api_key_repo;
                policy_repo = policy_repo;
                token_cache = token_cache;
                policy_cache = policy_cache;
                policy_evaluator =
                    load new_evaluator (listed (Policies.list policy_repo (pos 1000) (pos 0)));
              })

  store_token :
      ℕ
      → AuthService
      → Text
      → List Text
      → Map Text Text
      → Result Jwt.Error (Text × Text × ℤ)
      → AuthService × Result Error (Text × Text × ℤ)
  store_token now s identity policies metadata (err e) = (s, err (jwt_error e))
  store_token now s identity policies metadata panic = (s, panic)
  store_token now s identity policies metadata (ok (token, token_id, expires_at)) = (
    record s {
      token_repo = Tokens.create s.token_repo (record {
        id = token_id;
        identity = identity;
        policies = policies;
        metadata = metadata;
        created_at = pos now;
        expires_at = expires_at;
        revoked_at = none;
        last_used_at = none;
      });
    },
    ok (token, token_id, expires_at),
  )

  -- The token, its id, and when it expires.
  unfoldable pub create_token :
      ℕ
      → Text
      → AuthService
      → Text
      → List Text
      → ℤ
      → Map Text Text
      → AuthService × Result Error (Text × Text × ℤ)
  unfolding store_token
  create_token now token_id s identity policies ttl metadata =
      store_token now s identity (with_default policies) metadata (
        Jwt.create_token jwt (pos now) token_id s.jwt_manager identity (with_default policies) ttl
          metadata)

  -- A token that is not stored is accepted.
  unfoldable pub cache_claims :
      ℕ
      → AuthService
      → Text
      → Claims
      → Result Tokens.Error Token
      → AuthService × Result Error Claims
  cache_claims now s token claims (err token_revoked) = (s, err invalid_token)
  cache_claims now s token claims (err token_not_found) = (
    record s { token_cache = Cache.set Text Claims claims_lru now s.token_cache token claims },
    ok claims,
  )
  cache_claims now s token claims (ok stored) = (
    record s { token_cache = Cache.set Text Claims claims_lru now s.token_cache token claims },
    ok claims,
  )
  cache_claims now s token claims panic = (s, panic)

  unfoldable pub check_revoked :
      ℕ → AuthService → Text → Result Jwt.Error Claims → AuthService × Result Error Claims
  unfolding cache_claims
  check_revoked now s token (ok claims) =
      cache_claims now s token claims (Tokens.get (pos now) s.token_repo claims.token_id)
  check_revoked now s token (err expired_token) = (s, err token_expired)
  check_revoked now s token (err _) = (s, err invalid_token)
  check_revoked now s token panic = (s, panic)

  unfoldable pub cached_or :
      ℕ
      → AuthService
      → Text
      → LruCache Text Claims claims_lru × Option Claims
      → AuthService × Result Error Claims
  unfolding check_revoked
  cached_or now s token (cache, some claims) = (record s { token_cache = cache }, ok claims)
  cached_or now s token (cache, none) =
      check_revoked now (record s { token_cache = cache }) token
        (Jwt.validate_token jwt (pos now) s.jwt_manager token)

  unfoldable pub validate_token : ℕ → AuthService → Text → AuthService × Result Error Claims
  unfolding cached_or
  validate_token now s token =
      cached_or now s token (Cache.get Text Claims claims_lru now s.token_cache token)

  unfoldable pub validate_token_with_policy :
      (Text → Text → Bool)
      → ℕ
      → AuthService
      → Text
      → Text
      → Text
      → AuthService × Result Error Claims
  validate_token_with_policy glob now s token resource action =
      let (s', claims) = validate_token now s token in
      (
        s',
        claims >>= λ c.
            if Acl.check glob s'.policy_evaluator c.policies resource (action_to_capability action)
            then ok c
            else err permission_denied,
      )

  unfoldable pub revoke_token : ℕ → AuthService → Text → AuthService × Result Error (Unit {0})
  revoke_token now s token_id =
      let (repo, result) = Tokens.revoke (pos now) s.token_repo token_id in
      (record s { token_repo = repo }, map_err token_error result)

  -- `repository.HashAPIKey` and `base64.URLEncoding`.
  module _ (hash_api_key url_encode : Text → Text) where
    abbrev pub key_expiry : ℕ → ℤ → Option ℤ
    key_expiry now ttl = if ltb_ℤ (pos 0) ttl then some (pos now +ℤ ttl) else none

    -- The key and its id: 32 random bytes, `none` if there are none, and the 16 bytes of the id.
    unfoldable pub create_api_key :
        ℕ
        → Option Text
        → Text
        → AuthService
        → Text
        → Text
        → List Text
        → ℤ
        → Map Text Text
        → AuthService × Result Error (Text × Text)
    create_api_key now none id_bytes s name identity policies ttl metadata = (s, err random_failed)
    create_api_key now (some key_bytes) id_bytes s name identity policies ttl metadata = (
      record s {
        api_key_repo = ApiKeys.create s.api_key_repo (record {
          id = url_encode id_bytes;
          name = name;
          key_hash = hash_api_key (codes "vk_" ++ url_encode key_bytes);
          identity = identity;
          policies = policies;
          metadata = metadata;
          created_at = pos now;
          expires_at = key_expiry now ttl;
          revoked_at = none;
          last_used_at = none;
        });
      },
      ok (codes "vk_" ++ url_encode key_bytes, url_encode id_bytes),
    )

    abbrev pub or_invalid : Result ApiKeys.Error ApiKey → Result Error ApiKey
    or_invalid (ok api_key) = ok api_key
    or_invalid (err e) = err invalid_api_key
    or_invalid panic = panic

    unfoldable pub validate_api_key : ℕ → AuthService → Text → Result Error ApiKey
    validate_api_key now s api_key =
        or_invalid (ApiKeys.get_by_hash (pos now) s.api_key_repo (hash_api_key api_key))

  unfoldable pub revoke_api_key : ℕ → AuthService → Text → AuthService × Result Error (Unit {0})
  revoke_api_key now s key_id =
      let (repo, result) = ApiKeys.revoke (pos now) s.api_key_repo key_id in
      (record s { api_key_repo = repo }, map_err api_key_error result)

  abbrev stored : Text → Text → List Rule → StoredPolicy
  stored name description rules = record {
    name = name;
    description = description;
    rules = rules;
    created_at = zero_time;
    updated_at = zero_time;
  }

  -- What follows a change of the repository: the evaluator, and the cache.
  unfoldable pub policy_written :
      AuthService
      → Text
      → List Rule
      → PolicyRepository × Result Policies.Error (Unit {0})
      → AuthService × Result Error (Unit {0})
  policy_written s name rules (repo, ok _) = (
    record s {
      policy_repo = repo;
      policy_evaluator =
          add_policy s.policy_evaluator (record { name = name; rules = rules; description = [] });
      policy_cache = (Cache.delete Text Policy policy_lru s.policy_cache name).0;
    },
    ok tt,
  )
  policy_written s name rules (repo, err e) =
      (record s { policy_repo = repo }, err (policy_error e))
  policy_written s name rules (repo, panic) = (record s { policy_repo = repo }, panic)

  unfoldable pub create_policy :
      ℕ → AuthService → Text → Text → List Rule → AuthService × Result Error (Unit {0})
  unfolding policy_written
  create_policy now s name description rules =
      policy_written s name rules
        (Policies.create (pos now) s.policy_repo (stored name description rules))

  unfoldable pub update_policy :
      ℕ → AuthService → Text → Text → List Rule → AuthService × Result Error (Unit {0})
  unfolding policy_written
  update_policy now s name description rules =
      policy_written s name rules
        (Policies.update (pos now) s.policy_repo (stored name description rules))

  unfoldable pub policy_deleted :
      AuthService
      → Text
      → PolicyRepository × Result Policies.Error (Unit {0})
      → AuthService × Result Error (Unit {0})
  policy_deleted s name (repo, ok _) = (
    record s {
      policy_repo = repo;
      policy_evaluator = (remove_policy s.policy_evaluator name).0;
      policy_cache = (Cache.delete Text Policy policy_lru s.policy_cache name).0;
    },
    ok tt,
  )
  policy_deleted s name (repo, err e) = (record s { policy_repo = repo }, err (policy_error e))
  policy_deleted s name (repo, panic) = (record s { policy_repo = repo }, panic)

  unfoldable pub delete_policy : AuthService → Text → AuthService × Result Error (Unit {0})
  unfolding policy_deleted
  delete_policy s name = policy_deleted s name (Policies.delete s.policy_repo name)

  unfoldable pub get_policy : AuthService → Text → Result Error StoredPolicy
  get_policy s name = map_err policy_error (Policies.get s.policy_repo name)

  unfoldable pub list_policies : AuthService → ℤ → ℤ → Result Error (List StoredPolicy × ℕ)
  list_policies s limit offset = map_err policy_error (Policies.list s.policy_repo limit offset)

  unfoldable pub evaluate_policy :
      (Text → Text → Bool)
      → AuthService
      → List Text
      → Text
      → Text
      → Map Text Text
      → EvaluationResult
  evaluate_policy glob s policies resource action context =
      Acl.evaluate glob s.policy_evaluator policies resource (action_to_capability action) context

  unfoldable pub list_tokens : AuthService → Text → ℤ → ℤ → Result Error (List Token × ℕ)
  list_tokens s identity limit offset =
      map_err token_error (Tokens.list_by_identity s.token_repo identity limit offset)

  unfoldable pub list_api_keys : AuthService → Text → ℤ → ℤ → Result Error (List ApiKey × ℕ)
  list_api_keys s identity limit offset =
      map_err api_key_error (ApiKeys.list_by_identity s.api_key_repo identity limit offset)
