-- ===== src/Tokenize/Keys.antt =====
-- tokenize_service.go: the state of the service, its keys and its errors.
use grpc_vault_ha.Prelude.{Bool, Option}
use grpc_vault_ha.Prelude.Int.{ℤ}
use grpc_vault_ha.Prelude.Text.{Text}
use grpc_vault_ha.Prelude.Map.{Map}
use grpc_vault_ha.Cache.Lru.{LruList}
use grpc_vault_ha.Fpe

pub record KeyInfo : Type 0 where
  pub key : Text
  pub version : ℤ

pub data Error : Type 0 where
  key_not_found transformation_not_found invalid_input encryption_failed decryption_failed : Error
  lock_service_required override_built_in delete_built_in : Error
  fpe_error : Fpe.Error → Error

-- `GetEncryptionKey` of the lock service, for a name and a version.
abbrev pub LockClient : Type 0
LockClient = Text → ℤ → Option KeyInfo

pub record Transformation : Type 0 where
  pub name : Text
  pub alphabet : Text
  pub pattern : Text
  pub description : Text
  pub built_in : Bool

pub record TokenizeService (lru : LruList Text KeyInfo) : Type 0 where
  pub key_cache : lru.State
  pub connected : Bool
  pub custom : Map Text Transformation
