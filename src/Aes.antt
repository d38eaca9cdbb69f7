-- ===== src/Aes.antt =====
-- pkg/crypto/aes/aes.go: AES-GCM ciphers and the text format of ciphertexts.
-- AES, GCM and base64 are a parameter (`Library`); what `rand.Read` delivers for a buffer of n
-- bytes is the argument `random`, `none` on failure.
pub mod Format
pub mod RoundTrip
pub mod Toy
mod Tests
use grpc_vault_ha.Prelude.{
  ℕ, ◌+◌, ◌≡◌, Bool, true, false, not, ◌&&◌, ◌||◌, Option, none, some, List, [], ◌∷◌, ◌++◌, ltb,
  eqb, if◌then◌else◌, ◌==◌, length, take, drop, tail, Result, ok, err, ◌>>=◌, or_err,
}
use grpc_vault_ha.Prelude.Int.{ℤ, pos}
use grpc_vault_ha.Prelude.Text.{Text, codes, text_eq}
use grpc_vault_ha.Strings.Split.{split}
use grpc_vault_ha.Strings.Decimal.{print_int, atoi}

-- crypto/aes, crypto/cipher and encoding/base64.
pub record Library : Type 1 where
  pub Block : Type 0
  pub Aead : Type 0
  -- `aes.NewCipher` and `cipher.NewGCM`
  pub new_block : Text → Option Block
  pub new_gcm : Block → Option Aead
  -- `aead.Seal(nil, nonce, plaintext, aad)` and `aead.Open(nil, nonce, ciphertext, aad)`
  pub seal : Aead → Text → Text → Text → Text
  pub open_sealed : Aead → Text → Text → Text → Option Text
  pub overhead : Aead → ℕ
  -- `base64.StdEncoding`
  pub encode : Text → Text
  pub decode : Text → Option Text

pub data Error : Type 0 where
  invalid_key_size invalid_ciphertext decryption_failed invalid_nonce_size : Error
  ciphertext_too_short : Error
  -- errors of the libraries, wrapped by `fmt.Errorf`
  cipher_failed gcm_failed random_failed decode_failed : Error

abbrev pub nonce_size : ℕ
nonce_size = 12

abbrev pub key_size_256 : ℕ
key_size_256 = 32

abbrev pub key_size_128 : ℕ
key_size_128 = 16

abbrev pub ciphertext_prefix : Text
ciphertext_prefix = codes "vault"

-- Splits off the `v` of the second part and reads the number behind it.
parse_version : Text → Text → Result Error (ℤ × Text)
parse_version [] payload = err invalid_ciphertext
parse_version (v ∷ digits) payload =
    if ltb (length (v ∷ digits)) 2 || not (eqb v b'v')
    then err invalid_ciphertext
    else (or_err (atoi digits) invalid_ciphertext >>= λ version. ok (version, payload))

-- `len(parts) != 3` is every shape but the third clause's.
parse_parts : List Text → Result Error (ℤ × Text)
unfolding parse_version
parse_parts (prefix ∷ version ∷ payload ∷ []) =
    if prefix == ciphertext_prefix then parse_version version payload else err invalid_ciphertext
parse_parts _ = err invalid_ciphertext

unfoldable pub parse_ciphertext : Text → Result Error (ℤ × Text)
unfolding parse_parts
parse_ciphertext ciphertext = parse_parts (split b':' ciphertext)

unfoldable pub generate_key : (ℕ → Option Text) → ℕ → Result Error Text
generate_key random size =
    if not (eqb size key_size_128) && (not (eqb size key_size_256) && not (eqb size 24))
    then err invalid_key_size
    else or_err (random size) random_failed

module _ (lib : Library) where
  open lib use {Aead, new_block, new_gcm, seal, open_sealed, overhead, encode, decode}

  pub record Cipher : Type 0 where
    pub aead : Aead
    pub version : ℤ

  unfoldable pub new_cipher : Text → ℤ → Result Error Cipher
  new_cipher key version =
      if not (eqb (length key) 16) && (not (eqb (length key) 24) && not (eqb (length key) 32))
      then err invalid_key_size
      else (or_err (new_block key) cipher_failed >>= λ block.
          or_err (new_gcm block) gcm_failed >>= λ aead.
          ok (record { aead = aead; version = version }))

  -- `fmt.Sprintf("%s:v%d:%s", CiphertextPrefix, c.version, encoded)`
  unfoldable pub encrypt_with_nonce : Cipher → Text → Text → Text → Result Error Text
  encrypt_with_nonce c plaintext aad nonce =
      if not (eqb (length nonce) nonce_size)
      then err invalid_nonce_size
      else (let encoded = encode (nonce ++ seal c.aead nonce plaintext aad) in
          ok (ciphertext_prefix ++ b':' ∷ ((b'v' ∷ print_int c.version) ++ b':' ∷ encoded)))

  unfoldable pub encrypt : (ℕ → Option Text) → Cipher → Text → Text → Result Error Text
  unfolding encrypt_with_nonce
  encrypt random c plaintext aad =
      or_err (random nonce_size) random_failed >>= λ nonce. encrypt_with_nonce c plaintext aad nonce

  -- What `Decrypt` and `DecryptRaw` do with the base64 data.
  unfoldable pub decrypt_raw : Cipher → Text → Text → Result Error Text
  decrypt_raw c encoded aad = do
    decoded ← or_err (decode encoded) decode_failed
    if ltb (length decoded) (nonce_size + overhead c.aead + 1)
        then err ciphertext_too_short
        else or_err (open_sealed c.aead (take nonce_size decoded) (drop nonce_size decoded) aad)
            decryption_failed

  unfoldable pub decrypt : Cipher → Text → Text → Result Error (Text × ℤ)
  unfolding decrypt_raw
  decrypt c ciphertext aad = do
    (version, payload) ← parse_ciphertext ciphertext
    plaintext ← decrypt_raw c payload aad
    ok (plaintext, version)
