-- ===== src/Crypto/Keys.antt =====
-- crypto_service.go: the keys, the errors, and the request to the lock service.
use grpc_vault_ha.Prelude.{Option, ◌∷◌, ◌++◌, if◌then◌else◌}
use grpc_vault_ha.Prelude.Int.{ℤ, pos, ltb_ℤ, to_int32}
use grpc_vault_ha.Prelude.Text.{Text}
use grpc_vault_ha.Strings.Decimal.{print_int}
use grpc_vault_ha.Aes

pub record KeyInfo : Type 0 where
  pub key : Text
  pub version : ℤ
  pub key_type : ℤ

pub data Error : Type 0 where
  key_not_found decrypt_failed invalid_input lock_service_required random_failed : Error
  cipher_error : Aes.Error → Error

-- `GetEncryptionKey` of the lock service.
abbrev pub LockClient : Type 0
LockClient = Text → ℤ → Option KeyInfo

-- `fmt.Sprintf("%s:%d", keyName, version)`
unfoldable pub cache_key : Text → ℤ → Text
cache_key name version = if ltb_ℤ (pos 0) version then name ++ b':' ∷ print_int version else name

-- The version travels as an `int32`.
unfoldable pub request_key : LockClient → Text → ℤ → Option KeyInfo
request_key lock name version = lock name (to_int32 version)
