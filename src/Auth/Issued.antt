-- ===== src/Auth/Issued.antt =====
-- auth_service.go: API keys, from their making on.
use grpc_vault_ha.Prelude.{
  ℕ, ◌≡◌, refl, sym, ap, ◌∙◌, Bool, true, false, ◌&&◌, none, some, List, ◌++◌, arith, is_some,
  if◌then◌else◌, Bool-cases, inl, inr, Result, ok, err,
}
use grpc_vault_ha.Prelude.Int.{ℤ, pos, ltb_ℤ, ◌+ℤ◌}
use grpc_vault_ha.Prelude.Text.{Text, codes, text_eq}
use grpc_vault_ha.Prelude.Map.{Map, lookup, insert, lookup-insert_self}
use grpc_vault_ha.Cache.{CacheEntry}
use grpc_vault_ha.Cache.Lru.{LruList}
use grpc_vault_ha.Acl.Rules.{Policy}
use grpc_vault_ha.Jwt.{JwtLibrary, Claims}
use grpc_vault_ha.Auth.ApiKeys
use grpc_vault_ha.Auth.ApiKeys.{
  ApiKey, ApiKeyRepository, is_past, usable, get_by_hash, api_key_revoked, api_key_not_found,
}
use grpc_vault_ha.Auth.{
  AuthService, Error, invalid_api_key, create_api_key, key_expiry, or_invalid, validate_api_key,
  revoke_api_key,
}

get_by_hash_lem :
    (now : ℤ) (r : ApiKeyRepository) (hash id : Text) (k : ApiKey)
    → lookup hash r.by_hash ≡ some id
    → lookup id r.keys ≡ some k
    → get_by_hash now r hash ≡ (
        if is_some k.revoked_at
        then err api_key_revoked
        else if is_past now k.expires_at
        then err api_key_not_found
        else ok k)
unfolding get_by_hash usable
get_by_hash_lem now r hash id k h e = rw (h, e) refl

revoke_lem :
    (now : ℤ) (r : ApiKeyRepository) (id : Text) (k : ApiKey)
    → lookup id r.keys ≡ some k
    → (ApiKeys.revoke now r id).0
      ≡ record r { keys = insert id (record k { revoked_at = some now }) r.keys }
unfolding ApiKeys.revoke
revoke_lem now r id k h = ground (arith, h)

-- A key under its hash and its id.
abbrev Holds : ApiKeyRepository → Text → Text → ApiKey → Type 0
Holds r hash id k = (lookup hash r.by_hash ≡ some id) × (lookup id r.keys ≡ some k)

create-Holds : (r : ApiKeyRepository) (k : ApiKey) → Holds (ApiKeys.create r k) k.key_hash k.id k
unfolding ApiKeys.create
create-Holds r k = (lookup-insert_self k.key_hash k.id r.by_hash, lookup-insert_self k.id k r.keys)

revoke-Holds :
    (now : ℤ) (r : ApiKeyRepository) (hash id : Text) (k : ApiKey)
    → Holds r hash id k
    → Holds (ApiKeys.revoke now r id).0 hash id (record k { revoked_at = some now })
revoke-Holds now r hash id k (h, e) =
    rw (revoke_lem now r id k e)
      (h, lookup-insert_self id (record k { revoked_at = some now }) r.keys)

module _ (jwt : JwtLibrary) (claims_lru : LruList Text (CacheEntry Claims))
    (policy_lru : LruList Text (CacheEntry Policy)) (hash_api_key url_encode : Text → Text) where
  abbrev Validates : ℕ → AuthService jwt claims_lru policy_lru → Text → Result Error ApiKey
  Validates later s api_key =
      validate_api_key jwt claims_lru policy_lru hash_api_key url_encode later s api_key

  validate-Holds :
      (later : ℕ) (s : AuthService jwt claims_lru policy_lru) (api_key id : Text) (k : ApiKey)
      → Holds s.api_key_repo (hash_api_key api_key) id k
      → Validates later s api_key ≡ (
          if is_some k.revoked_at
          then err invalid_api_key
          else if is_past (pos later) k.expires_at
          then err invalid_api_key
          else ok k)
  unfolding validate_api_key
  validate-Holds later s api_key id k (h, e) =
      ap (or_invalid jwt claims_lru policy_lru hash_api_key url_encode)
        (get_by_hash_lem (pos later) s.api_key_repo (hash_api_key api_key) id k h e)
      ∙ moved (is_some k.revoked_at) (is_past (pos later) k.expires_at)
    where
      moved :
          (a b : Bool)
          → or_invalid jwt claims_lru policy_lru hash_api_key url_encode
              (if a then err api_key_revoked else if b then err api_key_not_found else ok k)
            ≡ (if a then err invalid_api_key else if b then err invalid_api_key else ok k)
      moved true b = refl
      moved false true = refl
      moved false false = refl

  abbrev new_key : ℕ → Text → Text → Text → Text → List Text → ℤ → Map Text Text → ApiKey
  new_key now key_bytes id_bytes name identity policies ttl metadata = record {
    id = url_encode id_bytes;
    name = name;
    key_hash = hash_api_key (codes "vk_" ++ url_encode key_bytes);
    identity = identity;
    policies = policies;
    metadata = metadata;
    created_at = pos now;
    expires_at = key_expiry jwt claims_lru policy_lru hash_api_key url_encode now ttl;
    revoked_at = none;
    last_used_at = none;
  }

  is_past-expiry :
      (now later : ℕ) (ttl : ℤ)
      → is_past (pos later) (key_expiry jwt claims_lru policy_lru hash_api_key url_encode now ttl)
        ≡ (ltb_ℤ (pos 0) ttl && ltb_ℤ (pos now +ℤ ttl) (pos later))
  is_past-expiry now later ttl = elim (Bool-cases (ltb_ℤ (pos 0) ttl)) [
    | inl positive ↦ rw positive refl
    | inr other ↦ rw other refl
  ]

  texts-eq :
      (a b c d : Text)
      → ◌≡◌ {A = Result Error (Text × Text)} (ok (a, b)) (ok (c, d))
      → (a ≡ c) × (b ≡ d)
  texts-eq a b c d e = (cc, cc)

  created-Holds :
      (now : ℕ) (key_bytes id_bytes : Text) (s s' : AuthService jwt claims_lru policy_lru)
      (name identity : Text) (policies : List Text) (ttl : ℤ) (metadata : Map Text Text)
      (api_key key_id : Text)
      → create_api_key jwt claims_lru policy_lru hash_api_key url_encode now
          (some key_bytes)
          id_bytes
          s
          name
          identity
          policies
          ttl
          metadata
        ≡ (s', ok (api_key, key_id))
      → Holds s'.api_key_repo
          (hash_api_key api_key)
          key_id
          (new_key now key_bytes id_bytes name identity policies ttl metadata)
  unfolding create_api_key
  created-Holds now key_bytes id_bytes s s' name identity policies ttl metadata api_key key_id
        made =
      let (keys, ids) =
        texts-eq (codes "vk_" ++ url_encode key_bytes) (url_encode id_bytes) api_key key_id
          (ap (λ r. r.1) made) in
      rw (ap (λ r. r.0.api_key_repo) (sym made), sym keys, sym ids)
        (create-Holds s.api_key_repo
          (new_key now key_bytes id_bytes name identity policies ttl metadata))

  revoked-refused :
      (t later : ℕ) (s : AuthService jwt claims_lru policy_lru) (api_key id : Text) (k : ApiKey)
      → Holds s.api_key_repo (hash_api_key api_key) id k
      → Validates later (revoke_api_key jwt claims_lru policy_lru t s id).0 api_key
        ≡ err invalid_api_key
  unfolding revoke_api_key
  revoked-refused t later s api_key id k held =
      validate-Holds later
        (record s { api_key_repo = (ApiKeys.revoke (pos t) s.api_key_repo id).0 }) api_key id
        (record k { revoked_at = some (pos t) })
        (revoke-Holds (pos t) s.api_key_repo (hash_api_key api_key) id k held)

  -- An API key that `CreateAPIKey` returns is accepted, with the identity and the policies it was
  -- made for, until it expires; without a positive lifetime it never does. Afterwards, and at any
  -- time once `RevokeAPIKey` was called with its id, it is refused.
  pub validate_api_key-create_api_key :
      (now : ℕ) (key_bytes id_bytes : Text) (s s' : AuthService jwt claims_lru policy_lru)
      (name identity : Text) (policies : List Text) (ttl : ℤ) (metadata : Map Text Text)
      (api_key key_id : Text)
      → create_api_key jwt claims_lru policy_lru hash_api_key url_encode now
          (some key_bytes)
          id_bytes
          s
          name
          identity
          policies
          ttl
          metadata
        ≡ (s', ok (api_key, key_id))
      → ((later : ℕ)
          → ltb_ℤ (pos 0) ttl && ltb_ℤ (pos now +ℤ ttl) (pos later) ≡ false
          → (k : ApiKey) × (validate_api_key jwt claims_lru policy_lru hash_api_key url_encode later
                s' api_key
              ≡ ok k)
            × (k.identity ≡ identity)
            × (k.policies ≡ policies))
        × ((later : ℕ)
            → ltb_ℤ (pos 0) ttl && ltb_ℤ (pos now +ℤ ttl) (pos later) ≡ true
            → validate_api_key jwt claims_lru policy_lru hash_api_key url_encode later s' api_key
              ≡ err invalid_api_key)
        × ((t later : ℕ)
            → validate_api_key jwt claims_lru policy_lru hash_api_key url_encode later
                (revoke_api_key jwt claims_lru policy_lru t s' key_id).0
                api_key
              ≡ err invalid_api_key)
  validate_api_key-create_api_key now key_bytes id_bytes s s' name identity policies ttl metadata
        api_key key_id made =
      let k = new_key now key_bytes id_bytes name identity policies ttl metadata in
      let held =
        created-Holds now key_bytes id_bytes s s' name identity policies ttl metadata api_key key_id
          made in
      (
        λ later fresh. (
          k,
          validate-Holds later s' api_key key_id k held
              ∙ ap (λ b. if b then err invalid_api_key else ok k)
                  (is_past-expiry now later ttl ∙ fresh),
          refl,
          refl,
        ),
        λ later past.
            validate-Holds later s' api_key key_id k held
            ∙ ap (λ b. if b then err invalid_api_key else ok k)
                (is_past-expiry now later ttl ∙ past),
        λ t later. revoked-refused t later s' api_key key_id k held,
      )
