-- ===== src/Jwt/Lifetime.antt =====
-- jwt.go: how long a token from `CreateToken` is accepted.
use grpc_vault_ha.Prelude.{
  ◌≡◌, refl, ap, ◌∙◌, Bool, true, Option, some, List, [], arith, Result, ok, err, panic, bind-ok,
  or_err-ok,
}
use grpc_vault_ha.Prelude.Int.{ℤ, pos, negsuc, ◌+ℤ◌, ◌≤ℤ◌, ◌<ℤ◌}
use grpc_vault_ha.Prelude.Text.{Text}
use grpc_vault_ha.Prelude.Map.{Map}
use grpc_vault_ha.Jwt.{
  JwtLibrary, Config, Manager, Claims, Error, parsed, token_expired, expired_token, numeric_date,
  new_manager, key_or, adjust_ttl, new_claims, create_token, key_func, from_parsed, validate_token,
  refresh_token, refresh_from,
}

-- A claim is written by its name, so the token's own id is what "jti" holds.
abbrev pub decoded : Claims → Claims
decoded claims = record claims { id = [] }

-- What golang-jwt documents: a token that was signed with the private key is read with the public
-- one, from its start until it expires.
pub record Laws (lib : JwtLibrary) : Type 0 where
  pub parse-signed :
      (now : ℤ) (key : lib.PrivateKey) (claims : Claims) (token : Text)
      (f : Bool → Result Error lib.PublicKey)
      → lib.signed_string key claims ≡ some token
      → f true ≡ ok (lib.public_key key)
      → claims.not_before ≤ℤ now
      → now <ℤ claims.expires_at
      → lib.parse_with_claims now f token ≡ parsed (decoded claims) true
  pub parse-expired :
      (now : ℤ) (key : lib.PrivateKey) (claims : Claims) (token : Text)
      (f : Bool → Result Error lib.PublicKey)
      → lib.signed_string key claims ≡ some token
      → f true ≡ ok (lib.public_key key)
      → claims.not_before ≤ℤ now
      → claims.expires_at ≤ℤ now
      → lib.parse_with_claims now f token ≡ token_expired

numeric_date_le : (t : ℤ) → numeric_date t ≤ℤ t
unfolding numeric_date
numeric_date_le (pos n) = omega arith
numeric_date_le (negsuc n) = omega arith

module _ (lib : JwtLibrary) where
  adjust_ttl_le : (m : Manager lib) (ttl : ℤ) → adjust_ttl lib m ttl ≤ℤ m.max_ttl
  unfolding adjust_ttl
  adjust_ttl_le m ttl = ground arith

  adjust_ttl_pos :
      (m : Manager lib) (ttl : ℤ)
      → pos 0 <ℤ m.default_ttl
      → pos 0 <ℤ m.max_ttl
      → pos 0 <ℤ adjust_ttl lib m ttl
  unfolding adjust_ttl
  adjust_ttl_pos m ttl d x = ground (arith, d, x)

  new_manager-key :
      (generated : Option lib.PrivateKey) (cfg : Config lib) (m : Manager lib)
      → new_manager lib generated cfg ≡ ok m
      → m.public_key ≡ lib.public_key m.private_key
  unfolding new_manager
  new_manager-key generated cfg m h =
      let (key, a, b) = bind-ok (key_or lib cfg.private_key generated) _ m h in ground (arith, b)

  abbrev expiry : ℤ → Manager lib → ℤ → ℤ
  expiry now m ttl = now +ℤ adjust_ttl lib m ttl

  expiry_after :
      (now : ℤ) (m : Manager lib) (ttl : ℤ)
      → pos 0 <ℤ m.default_ttl
      → pos 0 <ℤ m.max_ttl
      → now <ℤ expiry now m ttl
  expiry_after now m ttl d x = added now (adjust_ttl lib m ttl) (adjust_ttl_pos m ttl d x)
    where
      added : (a b : ℤ) → pos 0 <ℤ b → a <ℤ a +ℤ b
      added a b h = ground (arith, h)

  expiry_le : (now : ℤ) (m : Manager lib) (ttl : ℤ) → expiry now m ttl ≤ℤ now +ℤ m.max_ttl
  expiry_le now m ttl = added now (adjust_ttl lib m ttl) m.max_ttl (adjust_ttl_le m ttl)
    where
      added : (a b c : ℤ) → b ≤ℤ c → a +ℤ b ≤ℤ a +ℤ c
      added a b c h = ground (arith, h)

  -- What `CreateToken` has signed.
  record Signed (now : ℤ) (m : Manager lib) (identity : Text) (policies : List Text) (ttl : ℤ)
      (metadata : Map Text Text) (token_id token : Text) (expires_at : ℤ) : Type 0 where
    signed :
        lib.signed_string m.private_key
          (new_claims lib m now token_id identity policies (expiry now m ttl) metadata)
        ≡ some token
    expires : expiry now m ttl ≡ expires_at

  create_token_inv :
      (now : ℤ) (new_id : Text) (m : Manager lib) (identity : Text) (policies : List Text) (ttl : ℤ)
      (metadata : Map Text Text) (token token_id : Text) (expires_at : ℤ)
      → create_token lib now new_id m identity policies ttl metadata
        ≡ ok (token, token_id, expires_at)
      → (new_id ≡ token_id) × Signed now m identity policies ttl metadata new_id token expires_at
  unfolding create_token
  create_token_inv now new_id m identity policies ttl metadata token token_id expires_at h =
      let (t, a, b) = bind-ok _ _ _ h in
      let (texts, ids, times) = triple t token new_id token_id (expiry now m ttl) expires_at b in
      (ids, record { signed = or_err-ok _ _ t a ∙ ap some texts; expires = times })
    where
      triple :
          (t token a b : Text) (u v : ℤ)
          → ◌≡◌ {A = Result Error (Text × Text × ℤ)} (ok (t, a, u)) (ok (token, b, v))
          → (t ≡ token) × (a ≡ b) × (u ≡ v)
      triple t token a b u v e = (cc, cc, cc)

  module _ (laws : Laws lib) (generated : Option lib.PrivateKey) (cfg : Config lib)
      (m : Manager lib) where
    key_func-own :
        new_manager lib generated cfg ≡ ok m
        → key_func lib m true ≡ ok (lib.public_key m.private_key)
    key_func-own new = unfold key_func in ap ok (new_manager-key generated cfg m new)

    started : (now t : ℤ) → now ≤ℤ t → numeric_date now ≤ℤ t
    started now t h = later (numeric_date now) now t (numeric_date_le now) h
      where
        later : (a b c : ℤ) → a ≤ℤ b → b ≤ℤ c → a ≤ℤ c
        later a b c h i = omega (arith, h, i)

    validated :
        (now : ℤ) (identity : Text) (policies : List Text) (ttl : ℤ) (metadata : Map Text Text)
        (token_id token : Text) (expires_at t : ℤ)
        → new_manager lib generated cfg ≡ ok m
        → Signed now m identity policies ttl metadata token_id token expires_at
        → now ≤ℤ t
        → t <ℤ numeric_date expires_at
        → validate_token lib t m token
          ≡ ok (decoded (new_claims lib m now token_id identity policies expires_at metadata))
    validated now identity policies ttl metadata token_id token expires_at t new h after before =
        unfold validate_token in
        rw
          (laws.parse-signed t m.private_key
            (new_claims lib m now token_id identity policies expires_at metadata) token
            (key_func lib m) (rw (← h.expires) h.signed) (key_func-own new)
            (unfold new_claims in started now t after) (unfold new_claims in before))
          (unfold from_parsed in refl)

    outlived :
        (now : ℤ) (identity : Text) (policies : List Text) (ttl : ℤ) (metadata : Map Text Text)
        (token_id token : Text) (expires_at t : ℤ)
        → new_manager lib generated cfg ≡ ok m
        → Signed now m identity policies ttl metadata token_id token expires_at
        → now ≤ℤ t
        → numeric_date expires_at ≤ℤ t
        → validate_token lib t m token ≡ err expired_token
    outlived now identity policies ttl metadata token_id token expires_at t new h after end =
        unfold validate_token in
        rw
          (laws.parse-expired t m.private_key
            (new_claims lib m now token_id identity policies expires_at metadata) token
            (key_func lib m) (rw (← h.expires) h.signed) (key_func-own new)
            (unfold new_claims in started now t after) (unfold new_claims in end))
          (unfold from_parsed in refl)

    -- A token lives longer than 0 and at most the manager's longest time, whatever time is asked for,
    -- if the manager's times are positive. From its making until the whole second of its end,
    -- `ValidateToken` returns the claims it was made with; from then on, that it has expired.
    pub validate_token-create_token :
        (now ttl : ℤ) (new_id identity token token_id : Text) (policies : List Text)
        (metadata : Map Text Text) (expires_at : ℤ)
        → new_manager lib generated cfg ≡ ok m
        → pos 0 <ℤ m.default_ttl
        → pos 0 <ℤ m.max_ttl
        → create_token lib now new_id m identity policies ttl metadata
          ≡ ok (token, token_id, expires_at)
        → (now <ℤ expires_at)
          × (expires_at ≤ℤ now +ℤ m.max_ttl)
          × ((t : ℤ)
              → now ≤ℤ t
              → t <ℤ numeric_date expires_at
              → (c : Claims) × (validate_token lib t m token ≡ ok c)
                × (c.identity ≡ identity)
                × (c.policies ≡ policies)
                × (c.metadata ≡ metadata)
                × (c.token_id ≡ token_id))
          × ((t : ℤ)
              → now ≤ℤ t
              → numeric_date expires_at ≤ℤ t
              → validate_token lib t m token ≡ err expired_token)
    validate_token-create_token now ttl new_id identity token token_id policies metadata expires_at
          new d x h =
        let (ids, made) =
          create_token_inv now new_id m identity policies ttl metadata token token_id expires_at
            h in
        (
          rw (← made.expires) (expiry_after now m ttl d x),
          rw (← made.expires) (expiry_le now m ttl),
          λ t after before. (
            decoded (new_claims lib m now new_id identity policies expires_at metadata),
            validated now identity policies ttl metadata new_id token expires_at t new made after
                before,
            unfold new_claims in refl,
            unfold new_claims in refl,
            unfold new_claims in refl,
            unfold new_claims in ids,
          ),
          λ t after end.
              outlived now identity policies ttl metadata new_id token expires_at t new made after
                end,
        )

    -- `RefreshToken` panics for a token that has expired.
    pub refresh_token-panic :
        (now t ttl new_ttl : ℤ) (new_id other_id identity token token_id : Text)
        (policies : List Text) (metadata : Map Text Text) (expires_at : ℤ)
        → new_manager lib generated cfg ≡ ok m
        → create_token lib now new_id m identity policies ttl metadata
          ≡ ok (token, token_id, expires_at)
        → now ≤ℤ t
        → numeric_date expires_at ≤ℤ t
        → refresh_token lib t other_id m token new_ttl ≡ panic
    refresh_token-panic now t ttl new_ttl new_id other_id identity token token_id policies metadata
          expires_at new h after end =
        let (ids, made) =
          create_token_inv now new_id m identity policies ttl metadata token token_id expires_at
            h in
        unfold refresh_token in
        rw
          (outlived now identity policies ttl metadata new_id token expires_at t new made after end)
          (unfold refresh_from in refl)
