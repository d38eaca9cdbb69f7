-- ===== src/Crypto/Random.antt =====
-- crypto_service.go, `GenerateRandom`.
use grpc_vault_ha.Prelude.{
  ℕ, ◌*◌, ◌≡◌, ◌≤◌, ◌<◌, ◌⊎◌, Option, some, [], ◌∷◌, All, arith, length, ok, err,
}
use grpc_vault_ha.Prelude.Int.{ℤ, pos, pos_part, ◌≤ℤ◌, ◌<ℤ◌}
use grpc_vault_ha.Prelude.Text.{Text, codes, text_eq}
use grpc_vault_ha.Aes.{Library}
use grpc_vault_ha.Crypto.Keys.{invalid_input}
use grpc_vault_ha.Crypto.{generate_random, hex_encode}

length-hex_encode : (bytes : Text) → length (hex_encode bytes) ≡ 2 * length bytes
unfolding hex_encode
length-hex_encode [] = omega arith
length-hex_encode (b ∷ bytes) = omega (arith, length-hex_encode bytes)

abbrev pub IsHexDigit : ℕ → Type 0
IsHexDigit c = ((b'0' ≤ c) × (c ≤ b'9')) ⊎ ((b'a' ≤ c) × (c ≤ b'f'))

hex_encode-IsHexDigit :
    (bytes : Text) → All (λ b. b < 256) bytes → All IsHexDigit (hex_encode bytes)
unfolding hex_encode
hex_encode-IsHexDigit [] h = tt
hex_encode-IsHexDigit (b ∷ bytes) (h, hs) =
    (ground (arith, h), (ground (arith, h), hex_encode-IsHexDigit bytes hs))

-- Between 1 and 1024 bytes are given out, as two hexadecimal digits each; any other number is
-- refused, and a random source that fails is an error.
pub generate_random_hex :
    (lib : Library) (random : ℕ → Option Text) (n : ℤ) (bytes : Text)
    → All (λ b. b < 256) bytes
    → (random (pos_part n) ≡ some bytes)
    → length bytes ≡ pos_part n
    → ((n ≤ℤ pos 0) ⊎ (pos 1024 <ℤ n)
        → generate_random lib random n (codes "hex") ≡ err invalid_input)
      × ((pos 0 <ℤ n)
          → (n ≤ℤ pos 1024)
          → (text : Text) × (generate_random lib random n (codes "hex") ≡ ok text)
            × (length text ≡ 2 * pos_part n)
            × All IsHexDigit text)
unfolding generate_random
generate_random_hex lib random n bytes small r l = (
  λ out. ground (arith, out),
  λ low high. (
    hex_encode bytes,
    ground (arith, low, high, r),
    omega (arith, l, length-hex_encode bytes),
    hex_encode-IsHexDigit bytes small,
  ),
)
