-- ===== src/Jwt.antt =====
-- pkg/auth/jwt/jwt.go: signed tokens. golang-jwt is the record `JwtLibrary`; keys and signatures are
-- its own. A time is a number of nanoseconds, and may be negative. `NewManager` is given what
-- `ecdsa.GenerateKey` returns, and `CreateToken` what `uuid.New` and the clock return.
pub mod Lifetime
pub mod Toy
mod Tests
use grpc_vault_ha.Prelude.{
  ℕ, suc, ◌+◌, ◌-◌, ◌*◌, ◌/◌, Bool, true, false, Option, none, some, List, [], ◌∷◌, if◌then◌else◌,
  ◌==◌, Result, ok, err, panic, ◌>>=◌, or_err,
}
use grpc_vault_ha.Prelude.Int.{ℤ, pos, negsuc, ◌+ℤ◌, ltb_ℤ, leb_ℤ, eqb_ℤ}
use grpc_vault_ha.Prelude.Text.{Text, codes, text_eq}
use grpc_vault_ha.Prelude.Map.{Map}

pub data Error : Type 0 where
  invalid_token expired_token invalid_signature invalid_claims key_failed sign_failed parse_error :
      Error

-- The registered claims and the manager's own. Both an `ID` and a `TokenID` are written as "jti".
pub record Claims : Type 0 where
  pub issuer : Text
  pub audience : List Text
  pub subject : Text
  pub expires_at : ℤ
  pub issued_at : ℤ
  pub not_before : ℤ
  pub id : Text
  pub identity : Text
  pub token_id : Text
  pub policies : List Text
  pub metadata : Map Text Text

-- What `ParseWithClaims` answers; a token comes with its field `Valid`.
pub data Parsed : Type 0 where
  parsed : Claims → Bool → Parsed
  token_expired parse_failed : Parsed

-- `parse_with_claims` is told the time and the function that gives the key for a token, by whether
-- its signing method is ECDSA.
pub record JwtLibrary : Type 1 where
  pub PrivateKey : Type 0
  pub PublicKey : Type 0
  pub public_key : PrivateKey → PublicKey
  pub signed_string : PrivateKey → Claims → Option Text
  pub parse_with_claims : ℤ → (Bool → Result Error PublicKey) → Text → Parsed
  pub parse_unverified : Text → Option Claims

abbrev pub second : ℕ
second = 1000000000

-- `jwt.NewNumericDate`: whole seconds.
unfoldable pub numeric_date : ℤ → ℤ
numeric_date (pos n) = pos (n / second * second)
numeric_date (negsuc n) = negsuc ((n / second + 1) * second - 1)

module _ (lib : JwtLibrary) where
  pub record Config : Type 0 where
    pub private_key : Option lib.PrivateKey
    pub issuer : Text
    pub audience : Text
    pub default_ttl : ℤ
    pub max_ttl : ℤ

  pub record Manager : Type 0 where
    pub private_key : lib.PrivateKey
    pub public_key : lib.PublicKey
    pub issuer : Text
    pub audience : Text
    pub default_ttl : ℤ
    pub max_ttl : ℤ

  abbrev pub key_or : Option lib.PrivateKey → Option lib.PrivateKey → Result Error lib.PrivateKey
  key_or (some key) generated = ok key
  key_or none generated = or_err generated key_failed

  unfoldable pub new_manager : Option lib.PrivateKey → Config → Result Error Manager
  new_manager generated cfg = key_or cfg.private_key generated >>= λ key. ok (record {
    private_key = key;
    public_key = lib.public_key key;
    issuer = if cfg.issuer == [] then codes "vault-auth" else cfg.issuer;
    audience = if cfg.audience == [] then codes "vault-platform" else cfg.audience;
    default_ttl = if eqb_ℤ cfg.default_ttl (pos 0) then pos (3600 * second) else cfg.default_ttl;
    max_ttl = if eqb_ℤ cfg.max_ttl (pos 0) then pos (86400 * second) else cfg.max_ttl;
  })

  -- The lifetime of a token.
  unfoldable pub adjust_ttl : Manager → ℤ → ℤ
  adjust_ttl m ttl =
      let ttl' = if leb_ℤ ttl (pos 0) then m.default_ttl else ttl in
      if ltb_ℤ m.max_ttl ttl' then m.max_ttl else ttl'

  unfoldable pub new_claims : Manager → ℤ → Text → Text → List Text → ℤ → Map Text Text → Claims
  unfolding numeric_date
  new_claims m now token_id identity policies expires_at metadata = record {
    issuer = m.issuer;
    audience = m.audience ∷ [];
    subject = identity;
    expires_at = numeric_date expires_at;
    issued_at = numeric_date now;
    not_before = numeric_date now;
    id = token_id;
    identity = identity;
    token_id = token_id;
    policies = policies;
    metadata = metadata;
  }

  -- The token, its id, and when it expires.
  unfoldable pub create_token :
      ℤ → Text → Manager → Text → List Text → ℤ → Map Text Text → Result Error (Text × Text × ℤ)
  unfolding adjust_ttl new_claims
  create_token now token_id m identity policies ttl metadata =
      let expires_at = now +ℤ adjust_ttl m ttl in
      or_err
        (lib.signed_string m.private_key
          (new_claims m now token_id identity policies expires_at metadata))
        sign_failed
      >>= λ token. ok (token, token_id, expires_at)

  -- Only tokens that are signed by an ECDSA method.
  unfoldable pub key_func : Manager → Bool → Result Error lib.PublicKey
  key_func m ecdsa = if ecdsa then ok m.public_key else err invalid_signature

  unfoldable pub from_parsed : Parsed → Result Error Claims
  from_parsed (parsed claims valid) = if valid then ok claims else err invalid_claims
  from_parsed token_expired = err expired_token
  from_parsed parse_failed = err invalid_token

  unfoldable pub validate_token : ℤ → Manager → Text → Result Error Claims
  unfolding key_func from_parsed
  validate_token now m token = from_parsed (lib.parse_with_claims now (key_func m) token)

  -- The claims are nil if the token has expired, and are read all the same.
  unfoldable pub refresh_from :
      ℤ → Text → Manager → ℤ → Result Error Claims → Result Error (Text × Text × ℤ)
  unfolding create_token
  refresh_from now token_id m ttl (ok claims) =
      create_token now token_id m claims.identity claims.policies ttl claims.metadata
  refresh_from now token_id m ttl (err expired_token) = panic
  refresh_from now token_id m ttl (err invalid_token) = err invalid_token
  refresh_from now token_id m ttl (err invalid_signature) = err invalid_signature
  refresh_from now token_id m ttl (err invalid_claims) = err invalid_claims
  refresh_from now token_id m ttl (err key_failed) = err key_failed
  refresh_from now token_id m ttl (err sign_failed) = err sign_failed
  refresh_from now token_id m ttl (err parse_error) = err parse_error
  refresh_from now token_id m ttl panic = panic

  unfoldable pub refresh_token : ℤ → Text → Manager → Text → ℤ → Result Error (Text × Text × ℤ)
  unfolding validate_token refresh_from
  refresh_token now token_id m token ttl =
      refresh_from now token_id m ttl (validate_token now m token)

  unfoldable pub parse_unverified : Text → Result Error Claims
  parse_unverified token = or_err (lib.parse_unverified token) parse_error
