-- ===== src/Aes/RoundTrip.antt =====
-- aes.go, `Encrypt` and `Decrypt` together, for a library that behaves as documented.
use grpc_vault_ha.Prelude.{
  ℕ, ◌+◌, ◌≡◌, refl, ap, Option, some, [], ◌∷◌, ◌++◌, arith, ok, err, Result, ◌>>=◌, or_err, length,
  length-append, take, drop, ltb, if◌then◌else◌,
}
use grpc_vault_ha.Prelude.Text.{Text}
use grpc_vault_ha.Strings.Split.{Free}
use grpc_vault_ha.Strings.Decimal.{
  print_int, IsInt, atoi-print_int, print_int-Free, print_int-ne-nil,
}
use grpc_vault_ha.Aes.{
  Library, Error, Cipher, ciphertext_too_short, decryption_failed, nonce_size, encrypt, decrypt,
  encrypt_with_nonce, decrypt_raw,
}
use grpc_vault_ha.Aes.Format.{format, parse_ciphertext-format}

-- What the documentation of the libraries says: `Open` undoes `Seal`, the tag adds `Overhead`
-- bytes, base64 decoding undoes encoding, and base64 has no colon.
pub record Laws (lib : Library) : Type 0 where
  pub open-seal :
      (a : lib.Aead) (nonce plaintext aad : Text)
      → length nonce ≡ nonce_size
      → lib.open_sealed a nonce (lib.seal a nonce plaintext aad) aad ≡ some plaintext
  pub length-seal :
      (a : lib.Aead) (nonce plaintext aad : Text)
      → length (lib.seal a nonce plaintext aad) ≡ length plaintext + lib.overhead a
  pub decode-encode : (b : Text) → lib.decode (lib.encode b) ≡ some b
  pub encode-Free : (b : Text) → Free b':' (lib.encode b)

take-append : (xs ys : Text) → take (length xs) (xs ++ ys) ≡ xs
take-append [] ys = refl
take-append (x ∷ xs) ys = ap (◌∷◌ x) (take-append xs ys)

drop-append : (xs ys : Text) → drop (length xs) (xs ++ ys) ≡ ys
drop-append [] ys = refl
drop-append (x ∷ xs) ys = drop-append xs ys

take-append_eq : (n : ℕ) (xs ys : Text) → length xs ≡ n → take n (xs ++ ys) ≡ xs
take-append_eq n xs ys h = rw (← h) (take-append xs ys)

drop-append_eq : (n : ℕ) (xs ys : Text) → length xs ≡ n → drop n (xs ++ ys) ≡ ys
drop-append_eq n xs ys h = rw (← h) (drop-append xs ys)

module _ (lib : Library) (laws : Laws lib) (c : Cipher lib) where
  open lib use {seal, encode, overhead}
  open laws use {open-seal, length-seal, decode-encode, encode-Free}

  -- What `Decrypt` makes of a sealed plaintext: an empty one is too short.
  abbrev Opened : Text → Result Error Text
  Opened [] = err ciphertext_too_short
  Opened (b ∷ s) = ok (b ∷ s)

  decrypt_raw-eq :
      (encoded decoded aad : Text)
      → lib.decode encoded ≡ some decoded
      → decrypt_raw lib c encoded aad ≡ (
          if ltb (length decoded) (nonce_size + overhead c.aead + 1)
          then err ciphertext_too_short
          else or_err
              (lib.open_sealed c.aead (take nonce_size decoded) (drop nonce_size decoded) aad)
              decryption_failed)
  unfolding decrypt_raw
  decrypt_raw-eq encoded decoded aad e = rw (e, decrypt_raw) refl

  opens :
      (plaintext aad nonce : Text)
      → length nonce ≡ nonce_size
      → lib.open_sealed c.aead
          (take nonce_size (nonce ++ seal c.aead nonce plaintext aad))
          (drop nonce_size (nonce ++ seal c.aead nonce plaintext aad))
          aad
        ≡ some plaintext
  opens plaintext aad nonce h =
      let sealed : Text = seal c.aead nonce plaintext aad in
      rw (take-append_eq nonce_size nonce sealed h, drop-append_eq nonce_size nonce sealed h)
        (open-seal c.aead nonce plaintext aad h)

  sealed_length :
      (plaintext aad nonce : Text)
      → length nonce ≡ nonce_size
      → length (nonce ++ seal c.aead nonce plaintext aad)
        ≡ nonce_size + (length plaintext + overhead c.aead)
  sealed_length plaintext aad nonce h = omega (
    arith,
    length-append nonce (seal c.aead nonce plaintext aad),
    length-seal c.aead nonce plaintext aad,
  )

  decrypt_raw-encode :
      (plaintext aad nonce : Text)
      → length nonce ≡ nonce_size
      → decrypt_raw lib c (encode (nonce ++ seal c.aead nonce plaintext aad)) aad ≡ Opened plaintext
  decrypt_raw-encode [] aad nonce h =
      rw (decrypt_raw-eq _ _ aad (decode-encode (nonce ++ seal c.aead nonce [] aad)))
        (ground (arith, sealed_length [] aad nonce h))
  decrypt_raw-encode (b ∷ s) aad nonce h =
      rw
        (
          decrypt_raw-eq _ _ aad (decode-encode (nonce ++ seal c.aead nonce (b ∷ s) aad)),
          opens (b ∷ s) aad nonce h,
        )
        (ground (arith, sealed_length (b ∷ s) aad nonce h))

  encrypt-eq :
      (random : ℕ → Option Text) (plaintext aad nonce : Text)
      → random nonce_size ≡ some nonce
      → length nonce ≡ nonce_size
      → encrypt lib random c plaintext aad
        ≡ ok (format (print_int c.version) (encode (nonce ++ seal c.aead nonce plaintext aad)))
  unfolding encrypt encrypt_with_nonce
  encrypt-eq random plaintext aad nonce r h = rw (r, h) refl

  -- Whatever `Encrypt` writes with a random nonce, `Decrypt` reads: it gives back the plaintext and
  -- the version of the cipher. The exception is the empty plaintext, which is refused as too short.
  pub decrypt-encrypt :
      (random : ℕ → Option Text) (plaintext aad nonce : Text)
      → IsInt c.version
      → random nonce_size ≡ some nonce
      → length nonce ≡ nonce_size
      → (encrypt lib random c plaintext aad >>= λ t. decrypt lib c t aad)
        ≡ (Opened plaintext >>= λ p. ok (p, c.version))
  decrypt-encrypt random plaintext aad nonce v r h =
      rw (encrypt-eq random plaintext aad nonce r h) (decrypt-format plaintext)
    where
      decrypt-format :
          (p : Text)
          → decrypt lib c
              (format (print_int c.version) (encode (nonce ++ seal c.aead nonce p aad)))
              aad
            ≡ (Opened p >>= λ q. ok (q, c.version))
      decrypt-format p =
          unfold decrypt in
          rw
            (
              parse_ciphertext-format (print_int c.version) _ c.version (print_int-ne-nil c.version)
                  (atoi-print_int c.version v) (print_int-Free c.version) (encode-Free _),
              decrypt_raw-encode p aad nonce h,
            )
            refl
