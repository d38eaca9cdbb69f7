-- ===== src/Fpe/Tests.antt =====
-- Runs of ff1.go with the concrete algorithm of Toy, and the witness of its theorem.
use grpc_vault_ha.Prelude.{◌≡◌, refl, true, some, replicate, length, if◌then◌else◌, ok, err}
use grpc_vault_ha.Prelude.Text.{Text, codes, text_eq, text_dec}
use grpc_vault_ha.Prelude.Map.{lookup}
use grpc_vault_ha.Strings.Utf8.{runes, contains_rune}
use grpc_vault_ha.Fpe.{
  Cipher, invalid_alphabet, invalid_plaintext, plaintext_too_short, invalid_key_size, ff1_failed,
  unknown_transformation, new_cipher, new_cipher_with_transformation, validate_string, encrypt,
  decrypt, encrypt_with_tweak, decrypt_with_tweak,
}
use grpc_vault_ha.Fpe.Transformations.{alphabet_numeric, alphabet_alpha_lower}
use grpc_vault_ha.Fpe.RoundTrip.{Covers, decrypt-encrypt_fpe}
use grpc_vault_ha.Fpe.Toy.{toy_ff1, toy_ff1-Laws}

abbrev key : Text
key = replicate 16 9

abbrev digits : Cipher toy_ff1
digits = record { key = key; alphabet = alphabet_numeric; radix = 10; cipher = 10 }

decrypt-encrypt_fpe_example :
    (length (codes "1025") ≡ length (codes "0125"))
    × (decrypt_with_tweak toy_ff1 digits (codes "1025") (some (codes "t")) ≡ (
        if validate_string toy_ff1 digits (codes "1025")
        then ok (codes "0125")
        else err invalid_plaintext))
    × (Covers alphabet_numeric → validate_string toy_ff1 digits (codes "1025") ≡ true)
unfolding runes contains_rune
decrypt-encrypt_fpe_example =
    decrypt-encrypt_fpe toy_ff1 toy_ff1-Laws key alphabet_numeric digits (codes "0125")
      (codes "1025") (some (codes "t")) made encrypted
  where
    made : new_cipher toy_ff1 key alphabet_numeric ≡ ok digits
    made = unfold new_cipher in refl

    encrypted :
        encrypt_with_tweak toy_ff1 digits (codes "0125") (some (codes "t")) ≡ ok (codes "1025")
    encrypted = unfold encrypt_with_tweak in refl

short_key : new_cipher toy_ff1 (codes "k") alphabet_numeric ≡ err invalid_key_size
unfolding new_cipher
short_key = refl

unary : new_cipher toy_ff1 key (codes "x") ≡ err invalid_alphabet
unfolding new_cipher
unary = refl

no_transformation :
    new_cipher_with_transformation toy_ff1 key (codes "iban") ≡ err unknown_transformation
unfolding new_cipher_with_transformation lookup text_dec
no_transformation = refl

short_text : encrypt toy_ff1 digits (codes "7") ≡ err plaintext_too_short
unfolding encrypt
short_text = refl

outside : decrypt toy_ff1 digits (codes "7x") ≡ err invalid_plaintext
unfolding decrypt runes contains_rune
outside = refl

-- The letter z is in the alphabet and no numeral of the radix 26.
abbrev letters : Cipher toy_ff1
letters = record { key = key; alphabet = alphabet_alpha_lower; radix = 26; cipher = 26 }

no_numeral : encrypt toy_ff1 letters (codes "xyz") ≡ err ff1_failed
unfolding encrypt runes contains_rune
no_numeral = refl
