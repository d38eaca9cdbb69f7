-- ===== src/Aes/Tests.antt =====
-- Runs of aes.go, and the witnesses of its theorems.
use grpc_vault_ha.Prelude.{ℕ, ◌≡◌, refl, Option, some, [], arith, ok, err, ◌>>=◌, replicate}
use grpc_vault_ha.Prelude.Int.{pos}
use grpc_vault_ha.Prelude.Text.{Text, codes, text_dec}
use grpc_vault_ha.Strings.Split.{split}
use grpc_vault_ha.Strings.Decimal.{atoi}
use grpc_vault_ha.Aes.{
  Cipher, parse_ciphertext, encrypt, decrypt, invalid_ciphertext, ciphertext_too_short,
}
use grpc_vault_ha.Aes.Format.{Accepted, parse_ciphertext-Accepted}
use grpc_vault_ha.Aes.RoundTrip.{decrypt-encrypt}
use grpc_vault_ha.Aes.Toy.{toy, toy-Laws}

parses_version : parse_ciphertext (codes "vault:v12:abc") ≡ ok (pos 12, codes "abc")
unfolding parse_ciphertext split atoi text_dec
parses_version = refl

refuses_two_parts : parse_ciphertext (codes "vault:v1") ≡ err invalid_ciphertext
unfolding parse_ciphertext split atoi text_dec
refuses_two_parts = refl

parse_ciphertext-Accepted_example : Accepted (codes "vault:v12:abc") (pos 12) (codes "abc")
parse_ciphertext-Accepted_example =
    parse_ciphertext-Accepted (codes "vault:v12:abc") (pos 12) (codes "abc") parses_version

abbrev third : Cipher toy
third = record { aead = tt; version = pos 3 }

abbrev zeros : ℕ → Option Text
zeros n = some (replicate n 0)

decrypt-encrypt_example :
    (encrypt toy zeros third (codes "secret") [] >>= λ t. decrypt toy third t [])
    ≡ ok (codes "secret", pos 3)
decrypt-encrypt_example =
    decrypt-encrypt toy toy-Laws third zeros (codes "secret") [] (replicate 12 0) (omega arith) refl
      refl

decrypt-encrypt_empty :
    (encrypt toy zeros third [] [] >>= λ t. decrypt toy third t []) ≡ err ciphertext_too_short
decrypt-encrypt_empty =
    decrypt-encrypt toy toy-Laws third zeros [] [] (replicate 12 0) (omega arith) refl refl
