-- ===== src/Fpe.antt =====
-- pkg/crypto/fpe/ff1.go: format-preserving encryption. The FF1 algorithm is a third-party library and
-- a parameter. The slice of built-in transformations stands for the map.
pub mod Transformations
pub mod RoundTrip
pub mod Toy
mod Tests
use grpc_vault_ha.Prelude.{
  ℕ, Bool, true, false, not, ◌&&◌, Option, none, some, List, [], ◌∷◌, all, ltb, eqb, length,
  if◌then◌else◌, Result, ok, err, ◌>>=◌, or_err,
}
use grpc_vault_ha.Prelude.Text.{Text, codes, text_eq}
use grpc_vault_ha.Prelude.Map
use grpc_vault_ha.Prelude.Map.{lookup}
use grpc_vault_ha.Strings.Utf8.{runes, contains_rune}
use Transformations.{Transformation, built_in_transformations}

-- github.com/capitalone/fpe/ff1; the largest length of a tweak is always 256.
pub record Ff1 : Type 1 where
  pub Cipher : Type 0
  -- `ff1.NewCipher(radix, 256, key, tweak)`
  pub new_cipher : ℕ → Text → Option Text → Option Cipher
  pub encrypt : Cipher → Text → Option Text
  pub decrypt : Cipher → Text → Option Text

pub data Error : Type 0 where
  invalid_alphabet invalid_plaintext plaintext_too_short invalid_key_size : Error
  unknown_transformation ff1_failed : Error

module _ (ff1 : Ff1) where
  pub record Cipher : Type 0 where
    pub key : Text
    pub alphabet : Text
    pub radix : ℕ
    pub cipher : ff1.Cipher

  unfoldable pub new_cipher : Text → Text → Result Error Cipher
  new_cipher key alphabet =
      if not (eqb (length key) 16) && (not (eqb (length key) 24) && not (eqb (length key) 32))
      then err invalid_key_size
      else if ltb (length alphabet) 2
      then err invalid_alphabet
      else (or_err (ff1.new_cipher (length alphabet) key none) ff1_failed >>= λ cipher.
          ok (record { key = key; alphabet = alphabet; radix = length alphabet; cipher = cipher }))

  unfoldable pub new_cipher_with_transformation : Text → Text → Result Error Cipher
  unfolding new_cipher
  new_cipher_with_transformation key name =
      or_err (lookup name built_in_transformations) unknown_transformation >>= λ transformation.
      new_cipher key transformation.alphabet

  unfoldable pub validate_string : Cipher → Text → Bool
  validate_string c s = all (contains_rune c.alphabet) (runes s)

  -- The cipher for a tweak, if there is one.
  unfoldable pub tweaked : Cipher → Option Text → Result Error ff1.Cipher
  tweaked c none = ok c.cipher
  tweaked c (some tweak) = or_err (ff1.new_cipher c.radix c.key (some tweak)) ff1_failed

  unfoldable pub encrypt_with_tweak : Cipher → Text → Option Text → Result Error Text
  unfolding tweaked validate_string
  encrypt_with_tweak c plaintext tweak =
      if ltb (length plaintext) 2
      then err plaintext_too_short
      else if not (validate_string c plaintext)
      then err invalid_plaintext
      else (tweaked c tweak >>= λ cipher. or_err (ff1.encrypt cipher plaintext) ff1_failed)

  unfoldable pub decrypt_with_tweak : Cipher → Text → Option Text → Result Error Text
  unfolding tweaked validate_string
  decrypt_with_tweak c ciphertext tweak =
      if ltb (length ciphertext) 2
      then err plaintext_too_short
      else if not (validate_string c ciphertext)
      then err invalid_plaintext
      else (tweaked c tweak >>= λ cipher. or_err (ff1.decrypt cipher ciphertext) ff1_failed)

  unfoldable pub encrypt : Cipher → Text → Result Error Text
  unfolding encrypt_with_tweak
  encrypt c plaintext = encrypt_with_tweak c plaintext none

  unfoldable pub decrypt : Cipher → Text → Result Error Text
  unfolding decrypt_with_tweak
  decrypt c ciphertext = decrypt_with_tweak c ciphertext none

unfoldable pub get_transformation : Text → Option Transformation
get_transformation name = lookup name built_in_transformations

unfoldable pub list_transformations : List Text
list_transformations = Map.keys built_in_transformations
