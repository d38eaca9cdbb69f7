-- ===== src/Auth/Tests.antt =====
-- Runs of auth_service.go and its repositories, and the witnesses of their theorems.
use grpc_vault_ha.Prelude.{
  ℕ, ◌≡◌, ◌≤◌, ◌<◌, ◌+◌, ◌&&◌, refl, true, false, none, some, List, [], ◌∷◌, arith, take, drop,
  length, ok, err, panic,
}
use grpc_vault_ha.Prelude.Int.{ℤ, pos, negsuc, ltb_ℤ, ◌+ℤ◌}
use grpc_vault_ha.Prelude.Text.{Text, codes, text_eq, text_dec}
use grpc_vault_ha.Prelude.Map.{lookup, insert}
use grpc_vault_ha.Cache
use grpc_vault_ha.Cache.{CacheEntry}
use grpc_vault_ha.Cache.Slot.{slot}
use grpc_vault_ha.Acl.{new_evaluator}
use grpc_vault_ha.Acl.Rules.{Policy}
use grpc_vault_ha.Acl.Actions.{action_to_capability}
use grpc_vault_ha.Strings.Utf8.{runes}
use grpc_vault_ha.Jwt
use grpc_vault_ha.Jwt.{Claims, Manager, Config}
use grpc_vault_ha.Jwt.Lifetime.{decoded}
use grpc_vault_ha.Jwt.Toy.{toy_jwt, bob}
use grpc_vault_ha.Auth.Page.{page, page-Bounds}
use grpc_vault_ha.Auth.Tokens
use grpc_vault_ha.Auth.Tokens.{TokenRepository}
use grpc_vault_ha.Auth.ApiKeys.{ApiKey}
use grpc_vault_ha.Auth.Policies
use grpc_vault_ha.Auth.Policies.{new_policy_repository}
use grpc_vault_ha.Auth.{
  AuthService, Error, invalid_token, invalid_api_key, load, listed, new_auth_service, create_token,
  validate_token, revoke_token, create_api_key, validate_api_key, revoke_api_key, get_policy,
  update_policy, zero_time,
}
use grpc_vault_ha.Auth.Synced.{Synced, Change, creates, deletes, changes, new_auth_service-Synced}
use grpc_vault_ha.Auth.Revoked.{revoke_token-validate_token}
use grpc_vault_ha.Auth.Issued.{validate_api_key-create_api_key}

abbrev letters : List ℕ
letters = 1 ∷ 2 ∷ 3 ∷ []

page-Bounds_example :
    (1 + 5 < 9223372036854775808
      → page {E = Error} (pos 5) (pos 1) letters ≡ ok (take 5 (drop 1 letters)))
    × (1 < length letters
        → 9223372036854775808 ≤ 1 + 5
        → page {E = Error} (pos 5) (pos 1) letters ≡ panic)
    × (1 < length letters → page {E = Error} (negsuc 5) (pos 1) letters ≡ panic)
    × ((limit : ℤ) → page {E = Error} limit (negsuc 1) letters ≡ panic)
page-Bounds_example = page-Bounds letters 1 5 (omega arith) (omega arith)

abbrev Claimed : Type 0
Claimed = CacheEntry Claims

abbrev Service : Type 0
Service = AuthService toy_jwt (slot Claimed) (slot (CacheEntry Policy))

abbrev config : Config toy_jwt
config = record {
  private_key = none;
  issuer = [];
  audience = [];
  default_ttl = pos 0;
  max_ttl = pos 10000000000;
}

abbrev service : Service
service = record {
  jwt_manager = record {
    private_key = tt;
    public_key = tt;
    issuer = codes "vault-auth";
    audience = codes "vault-platform";
    default_ttl = pos 3600000000000;
    max_ttl = pos 10000000000;
  };
  token_repo = record { tokens = [] };
  api_key_repo = record { keys = []; by_hash = [] };
  policy_repo = new_policy_repository (pos 5);
  token_cache = record { cache = none; ttl = 60; hits = 0; misses = 0; evictions = 0 };
  policy_cache = record { cache = none; ttl = 300000000000; hits = 0; misses = 0; evictions = 0 };
  policy_evaluator = load toy_jwt (slot Claimed) (slot (CacheEntry Policy)) new_evaluator (
      listed toy_jwt (slot Claimed) (slot (CacheEntry Policy))
        (Policies.list (new_policy_repository (pos 5)) (pos 1000) (pos 0)));
}

started :
    new_auth_service toy_jwt
      (slot Claimed)
      (slot (CacheEntry Policy))
      (some tt)
      config
      (pos 10)
      60
      (record { tokens = [] })
      (record { keys = []; by_hash = [] })
      (new_policy_repository (pos 5))
    ≡ ok service
unfolding new_auth_service Jwt.new_manager Cache.new_lru_cache_with_ttl text_dec
started = refl

abbrev some_changes : List (Change toy_jwt (slot Claimed) (slot (CacheEntry Policy)))
some_changes = creates 7 (codes "ops") [] [] ∷ deletes (codes "admin") ∷ deletes (codes "ops") ∷ []

new_auth_service-Synced_example :
    Synced toy_jwt
      (slot Claimed)
      (slot (CacheEntry Policy))
      (changes toy_jwt (slot Claimed) (slot (CacheEntry Policy)) service some_changes)
new_auth_service-Synced_example =
    new_auth_service-Synced toy_jwt (slot Claimed) (slot (CacheEntry Policy)) (some tt) config
      (pos 10) 60 (record { tokens = [] }) (record { keys = []; by_hash = [] }) (pos 5) service
      some_changes started

-- `UpdatePolicy` writes a policy that was made at no time.
made_never :
    (r : _) × (get_policy toy_jwt
        (slot Claimed)
        (slot (CacheEntry Policy))
        (update_policy toy_jwt
          (slot Claimed)
          (slot (CacheEntry Policy))
          9
          service
          (codes "admin")
          []
          []).0
        (codes "admin")
      ≡ ok r)
    × (r.created_at ≡ zero_time)
unfolding get_policy update_policy Policies.get Policies.update new_policy_repository lookup insert
    text_dec
made_never = (_, refl, refl)

-- A token of bob's, used once, and revoked.
abbrev in_use : Service
in_use =
    (validate_token toy_jwt (slot Claimed) (slot (CacheEntry Policy)) 20
      (create_token toy_jwt (slot Claimed) (slot (CacheEntry Policy)) 0 (codes "7") service
        (codes "bob") [] (pos 0) []).0
      (codes "signed")).0

revoke_token-validate_token_example :
    ((Cache.get Text Claims (slot Claimed) 30 in_use.token_cache (codes "signed")).1 ≡ none
      → (validate_token toy_jwt
          (slot Claimed)
          (slot (CacheEntry Policy))
          30
          (revoke_token toy_jwt (slot Claimed) (slot (CacheEntry Policy)) 25 in_use (codes "7")).0
          (codes "signed")).1
        ≡ err invalid_token)
    × ((d : Claims)
        → (Cache.get Text Claims (slot Claimed) 30 in_use.token_cache (codes "signed")).1 ≡ some d
        → (validate_token toy_jwt
            (slot Claimed)
            (slot (CacheEntry Policy))
            30
            (revoke_token toy_jwt (slot Claimed) (slot (CacheEntry Policy)) 25 in_use (codes "7")).0
            (codes "signed")).1
          ≡ ok d)
unfolding validate_token create_token revoke_token Tokens.revoke Tokens.create Tokens.get lookup
    insert text_dec Jwt.validate_token Jwt.create_token Jwt.key_func Cache.get Cache.set
revoke_token-validate_token_example =
    revoke_token-validate_token toy_jwt (slot Claimed) (slot (CacheEntry Policy)) 25 30 in_use
      (codes "signed") (decoded bob) refl refl

-- The cache does hold it.
still_cached :
    (Cache.get Text Claims (slot Claimed) 30 in_use.token_cache (codes "signed")).1
    ≡ some (decoded bob)
unfolding validate_token create_token Tokens.create Tokens.get lookup insert text_dec
    Jwt.validate_token Jwt.create_token Jwt.key_func Cache.get Cache.set
still_cached = refl

abbrev same : Text → Text
same s = s

abbrev with_key : Service
with_key =
    (create_api_key toy_jwt (slot Claimed) (slot (CacheEntry Policy)) same same 3
      (some (codes "abc")) (codes "id") service (codes "n") (codes "eve") [] (pos 0) []).0

validate_api_key-create_api_key_example :
    ((later : ℕ)
      → ltb_ℤ (pos 0) (pos 0) && ltb_ℤ (pos 3 +ℤ pos 0) (pos later) ≡ false
      → (k : ApiKey) × (validate_api_key toy_jwt
            (slot Claimed)
            (slot (CacheEntry Policy))
            same
            same
            later
            with_key
            (codes "vk_abc")
          ≡ ok k)
        × (k.identity ≡ codes "eve")
        × (k.policies ≡ []))
    × ((later : ℕ)
        → ltb_ℤ (pos 0) (pos 0) && ltb_ℤ (pos 3 +ℤ pos 0) (pos later) ≡ true
        → validate_api_key toy_jwt
            (slot Claimed)
            (slot (CacheEntry Policy))
            same
            same
            later
            with_key
            (codes "vk_abc")
          ≡ err invalid_api_key)
    × ((t later : ℕ)
        → validate_api_key toy_jwt
            (slot Claimed)
            (slot (CacheEntry Policy))
            same
            same
            later
            (revoke_api_key toy_jwt
              (slot Claimed)
              (slot (CacheEntry Policy))
              t
              with_key
              (codes "id")).0
            (codes "vk_abc")
          ≡ err invalid_api_key)
unfolding create_api_key
validate_api_key-create_api_key_example =
    validate_api_key-create_api_key toy_jwt (slot Claimed) (slot (CacheEntry Policy)) same same 3
      (codes "abc") (codes "id") service with_key (codes "n") (codes "eve") [] (pos 0) []
      (codes "vk_abc") (codes "id") refl

posted : action_to_capability (codes "POST") ≡ codes "create"
unfolding action_to_capability runes text_dec
posted = refl
