-- ===== src/Auth/ApiKeys.antt =====
-- services/auth/internal/repository/apikey_repository.go: the API keys, by id and by hash.
use grpc_vault_ha.Prelude.{
  ℕ, Bool, false, not, ◌&&◌, Option, none, some, List, keep, if◌then◌else◌, ◌==◌, Result, ok, err,
  panic, is_some, length, ◌>>=◌, or_err,
}
use grpc_vault_ha.Prelude.Int.{ℤ, ltb_ℤ}
use grpc_vault_ha.Prelude.Text.{Text, text_eq}
use grpc_vault_ha.Prelude.Map.{Map, lookup, insert, values}
use grpc_vault_ha.Auth.Page.{page}

pub data Error : Type 0 where
  api_key_not_found api_key_revoked : Error

pub record ApiKey : Type 0 where
  pub id : Text
  pub name : Text
  pub key_hash : Text
  pub identity : Text
  pub policies : List Text
  pub metadata : Map Text Text
  pub created_at : ℤ
  pub expires_at : Option ℤ
  pub revoked_at : Option ℤ
  pub last_used_at : Option ℤ

pub record ApiKeyRepository : Type 0 where
  pub keys : Map Text ApiKey
  pub by_hash : Map Text Text

unfoldable pub create : ApiKeyRepository → ApiKey → ApiKeyRepository
create r api_key = record {
  keys = insert api_key.id api_key r.keys;
  by_hash = insert api_key.key_hash api_key.id r.by_hash;
}

abbrev pub is_past : ℤ → Option ℤ → Bool
is_past now none = false
is_past now (some expires_at) = ltb_ℤ expires_at now

-- A nil key is read all the same.
unfoldable pub usable : ℤ → Option ApiKey → Result Error ApiKey
usable now none = panic
usable now (some api_key) =
    if is_some api_key.revoked_at
    then err api_key_revoked
    else if is_past now api_key.expires_at
    then err api_key_not_found
    else ok api_key

unfoldable pub get_by_hash : ℤ → ApiKeyRepository → Text → Result Error ApiKey
unfolding usable
get_by_hash now r key_hash =
    or_err (lookup key_hash r.by_hash) api_key_not_found >>= λ id. usable now (lookup id r.keys)

unfoldable pub get_by_id : ApiKeyRepository → Text → Result Error ApiKey
get_by_id r id = or_err (lookup id r.keys) api_key_not_found

unfoldable pub revoke : ℤ → ApiKeyRepository → Text → ApiKeyRepository × Result Error (Unit {0})
revoke now r id = elim (lookup id r.keys) [
  | none ↦ (r, err api_key_not_found)
  | some api_key ↦
      (record r { keys = insert id (record api_key { revoked_at = some now }) r.keys }, ok tt)
]

unfoldable pub update_last_used :
    ℤ → ApiKeyRepository → Text → ApiKeyRepository × Result Error (Unit {0})
update_last_used now r id = elim (lookup id r.keys) [
  | none ↦ (r, err api_key_not_found)
  | some api_key ↦
      (record r { keys = insert id (record api_key { last_used_at = some now }) r.keys }, ok tt)
]

unfoldable pub list_by_identity : ApiKeyRepository → Text → ℤ → ℤ → Result Error (List ApiKey × ℕ)
list_by_identity r identity limit offset =
    let filtered =
      keep (λ k. k.identity == identity && not (is_some k.revoked_at)) (values r.keys) in
    page limit offset filtered >>= λ api_keys. ok (api_keys, length filtered)
