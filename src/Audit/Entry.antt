-- ===== src/Audit/Entry.antt =====
-- storage.go: the records of the audit log, and the filters of both stores.
use grpc_vault_ha.Prelude.{
  ℕ, Bool, true, false, not, ◌&&◌, ◌||◌, Option, none, some, List, [], ltb, eqb, if◌then◌else◌,
  ◌==◌,
}
use grpc_vault_ha.Prelude.Int.{ℤ}
use grpc_vault_ha.Prelude.Text.{Text, text_eq}
use grpc_vault_ha.Prelude.Map.{Map}

pub record AuthInfo : Type 0 where
  pub client_token : Text
  pub accessor : Text
  pub display_name : Text
  pub policies : List Text
  pub token_policies : List Text
  pub identity_policies : List Text
  pub entity_id : Text
  pub remote_addr : Text

pub record QueryOptions : Type 0 where
  pub start_time : ℕ
  pub end_time : ℕ
  pub entry_type : Text
  pub path : Text
  pub operation : Text
  pub client_token : Text
  pub limit : ℤ
  pub offset : ℤ

module _ (any : Type 0) where
  pub record RequestInfo : Type 0 where
    pub id : Text
    pub operation : Text
    pub path : Text
    pub fields : Map Text any
    pub remote_addr : Text
    pub wrap_ttl : ℤ
    pub headers : Map Text Text

  pub record ResponseInfo : Type 0 where
    pub mount_point : Text
    pub mount_type : Text
    pub mount_accessor : Text
    pub fields : Map Text any
    pub warnings : List Text

  -- A nil pointer is `none`.
  pub record AuditEntry : Type 0 where
    pub id : Text
    pub timestamp : ℕ
    pub entry_type : Text
    pub auth : Option AuthInfo
    pub request : Option RequestInfo
    pub response : Option ResponseInfo
    pub error : Text
    pub metadata : Map Text Text

  -- A filter on the request, which an entry without one passes.
  abbrev on_request : (RequestInfo → Text) → Text → Option RequestInfo → Bool
  on_request field wanted none = true
  on_request field wanted (some request) = (wanted == []) || (field request == wanted)

  -- The filters that both stores have.
  unfoldable pub matches_common : QueryOptions → AuditEntry → Bool
  matches_common opts entry =
      if not (eqb opts.start_time 0) && ltb entry.timestamp opts.start_time
      then false
      else if not (eqb opts.end_time 0) && ltb opts.end_time entry.timestamp
      then false
      else if not (opts.entry_type == []) && not (entry.entry_type == opts.entry_type)
      then false
      else if not (on_request (λ r. r.path) opts.path entry.request)
      then false
      else on_request (λ r. r.operation) opts.operation entry.request

  abbrev on_token : Text → Option AuthInfo → Bool
  on_token wanted none = true
  on_token wanted (some auth) = (wanted == []) || (auth.client_token == wanted)

  -- The file store looks at the token too.
  unfoldable pub matches_token : QueryOptions → AuditEntry → Bool
  unfolding matches_common
  matches_token opts entry = matches_common opts entry && on_token opts.client_token entry.auth
