-- ===== src/Auth/Tokens.antt =====
-- services/auth/internal/repository/token_repository.go: the tokens that were made.
use grpc_vault_ha.Prelude.{
  ℕ, not, ◌&&◌, Option, none, some, List, keep, count, if◌then◌else◌, ◌==◌, Result, ok, err,
  is_some, length, ◌>>=◌,
}
use grpc_vault_ha.Prelude.Int.{ℤ, ltb_ℤ}
use grpc_vault_ha.Prelude.Text.{Text, text_eq}
use grpc_vault_ha.Prelude.Map.{Map, lookup, insert, values}
use grpc_vault_ha.Auth.Page.{page}

pub data Error : Type 0 where
  token_not_found token_revoked : Error

pub record Token : Type 0 where
  pub id : Text
  pub identity : Text
  pub policies : List Text
  pub metadata : Map Text Text
  pub created_at : ℤ
  pub expires_at : ℤ
  pub revoked_at : Option ℤ
  pub last_used_at : Option ℤ

pub record TokenRepository : Type 0 where
  pub tokens : Map Text Token

unfoldable pub create : TokenRepository → Token → TokenRepository
create r token = record { tokens = insert token.id token r.tokens }

unfoldable pub get : ℤ → TokenRepository → Text → Result Error Token
get now r id = elim (lookup id r.tokens) [
  | none ↦ err token_not_found
  | some token ↦
      if is_some token.revoked_at
      then err token_revoked
      else if ltb_ℤ token.expires_at now
      then err token_not_found
      else ok token
]

unfoldable pub revoke : ℤ → TokenRepository → Text → TokenRepository × Result Error (Unit {0})
revoke now r id = elim (lookup id r.tokens) [
  | none ↦ (r, err token_not_found)
  | some token ↦
      (record { tokens = insert id (record token { revoked_at = some now }) r.tokens }, ok tt)
]

unfoldable pub update_last_used :
    ℤ → TokenRepository → Text → TokenRepository × Result Error (Unit {0})
update_last_used now r id = elim (lookup id r.tokens) [
  | none ↦ (r, err token_not_found)
  | some token ↦
      (record { tokens = insert id (record token { last_used_at = some now }) r.tokens }, ok tt)
]

unfoldable pub list_by_identity : TokenRepository → Text → ℤ → ℤ → Result Error (List Token × ℕ)
list_by_identity r identity limit offset =
    let filtered =
      keep (λ t. t.identity == identity && not (is_some t.revoked_at)) (values r.tokens) in
    page limit offset filtered >>= λ tokens. ok (tokens, length filtered)

unfoldable pub delete_expired : ℤ → TokenRepository → TokenRepository × ℕ
delete_expired now r = (
  record { tokens = keep (λ (id, t). not (ltb_ℤ t.expires_at now)) r.tokens },
  count (λ (id, t). ltb_ℤ t.expires_at now) r.tokens,
)
