-- ===== src/Fpe/RoundTrip.antt =====
-- ff1.go, `EncryptWithTweak` and `DecryptWithTweak` together, for a library that behaves as
-- documented.
use grpc_vault_ha.Prelude.{
  bind-ok, or_err-ok, ℕ, zero, suc, ◌<◌, ◌≡◌, refl, ap, ◌∙◌, Bool, true, Option, none, some, [],
  ◌∷◌, All, all, any, arith, ltb, eqb, length, take, if◌then◌else◌, Option-cases, Bool-cases, inl,
  inr, ok, err, ◌>>=◌, or_err,
}
use grpc_vault_ha.Prelude.Text.{Text}
use grpc_vault_ha.Strings.Utf8.{contains_rune, runes_ascii}
use grpc_vault_ha.Fpe.{
  Ff1, Cipher, invalid_plaintext, ff1_failed, new_cipher, validate_string, tweaked,
  encrypt_with_tweak, decrypt_with_tweak,
}
use grpc_vault_ha.Fpe.Transformations.{alphabet_alphanumeric}

-- The digits of a radix: 0 to 9, then the lower and the upper case letters.
abbrev pub numerals : ℕ → Text
numerals radix = take radix alphabet_alphanumeric

-- What the library documents: it works on numeral strings of the radix, `Decrypt` undoes
-- `Encrypt`, and the length is kept.
pub record Laws (ff1 : Ff1) : Type 0 where
  pub decrypt-encrypt :
      (radix : ℕ) (key : Text) (tweak : Option Text) (c : ff1.Cipher) (s t : Text)
      → ff1.new_cipher radix key tweak ≡ some c
      → ff1.encrypt c s ≡ some t
      → ff1.decrypt c t ≡ some s
  pub encrypt-numerals :
      (radix : ℕ) (key : Text) (tweak : Option Text) (c : ff1.Cipher) (s t : Text)
      → ff1.new_cipher radix key tweak ≡ some c
      → ff1.encrypt c s ≡ some t
      → all (λ b. any (eqb b) (numerals radix)) t ≡ true
  pub length-encrypt :
      (radix : ℕ) (key : Text) (tweak : Option Text) (c : ff1.Cipher) (s t : Text)
      → ff1.new_cipher radix key tweak ≡ some c
      → ff1.encrypt c s ≡ some t
      → length t ≡ length s

-- Every digit of the radix stands in the alphabet.
abbrev pub Covers : Text → Type 0
Covers alphabet = all (contains_rune alphabet) (numerals (length alphabet)) ≡ true

all-any : (p : ℕ → Bool) (xs : Text) (b : ℕ) → all p xs ≡ true → any (eqb b) xs ≡ true → p b ≡ true
all-any p [] b h m = cc
all-any p (x ∷ xs) b h m = elim (Bool-cases (eqb b x)) [
  | inl same ↦ head (ground (arith, same))
  | inr other ↦ all-any p xs b (ground (arith, h)) (ground (arith, m, other))
]
  where
    head : b ≡ x → p b ≡ true
    head e = ap p e ∙ ground (arith, h)

all_covered :
    (p : ℕ → Bool) (xs t : Text)
    → all p xs ≡ true
    → all (λ b. any (eqb b) xs) t ≡ true
    → all p t ≡ true
all_covered p xs [] h m = refl
all_covered p xs (b ∷ t) h m = ground (arith, m, all-any p xs b h, all_covered p xs t h)

is_ascii : ℕ → Bool
is_ascii b = ltb b 128

all-take : (p : ℕ → Bool) (n : ℕ) (xs : Text) → all p xs ≡ true → all p (take n xs) ≡ true
all-take p zero xs h = refl
all-take p (suc n) [] h = refl
all-take p (suc n) (x ∷ xs) h = ground (arith, h, all-take p n xs)

numerals_ascii : (radix : ℕ) → all is_ascii (numerals radix) ≡ true
unfolding is_ascii
numerals_ascii radix = all-take is_ascii radix alphabet_alphanumeric refl

ascii-All : (t : Text) → all is_ascii t ≡ true → All (λ b. b < 128) t
unfolding is_ascii
ascii-All [] h = tt
ascii-All (b ∷ t) h = (ground (arith, h), ascii-All t (ground (arith, h)))

module _ (ff1 : Ff1) where
  record Fresh (key alphabet : Text) (c : Cipher ff1) : Type 0 where
    made : ff1.new_cipher (length alphabet) key none ≡ some c.cipher
    same_alphabet : c.alphabet ≡ alphabet
    same_radix : c.radix ≡ length alphabet
    same_key : c.key ≡ key

  new_cipher-Fresh :
      (key alphabet : Text) (c : Cipher ff1)
      → new_cipher ff1 key alphabet ≡ ok c
      → Fresh key alphabet c
  unfolding new_cipher
  new_cipher-Fresh key alphabet c h =
      elim (Option-cases (ff1.new_cipher (length alphabet) key none)) [
        | inl failed ↦ absurd (ground (arith, failed, h))
        | inr (k, made) ↦ record {
          made = ground (arith, made, h);
          same_alphabet = ground (arith, made, h);
          same_radix = ground (arith, made, h);
          same_key = ground (arith, made, h);
        }
      ]

  tweaked-made :
      (key alphabet : Text) (c : Cipher ff1) (tweak : Option Text) (k : ff1.Cipher)
      → Fresh key alphabet c
      → tweaked ff1 c tweak ≡ ok k
      → ff1.new_cipher (length alphabet) key tweak ≡ some k
  unfolding tweaked
  tweaked-made key alphabet c none k f h = f.made ∙ cc
  tweaked-made key alphabet c (some tweak) k f h =
      rw (← f.same_radix, ← f.same_key) (or_err-ok _ _ k h)

  encrypt_inv :
      (c : Cipher ff1) (s t : Text) (tweak : Option Text)
      → encrypt_with_tweak ff1 c s tweak ≡ ok t
      → (1 < length s)
        × (k : ff1.Cipher) × (tweaked ff1 c tweak ≡ ok k)
        × (ff1.encrypt k s ≡ some t)
  unfolding encrypt_with_tweak
  encrypt_inv c s t tweak h =
      let (k, a, b) = inner (ground (arith, h)) in (ground (arith, h), k, a, b)
    where
      inner :
          (tweaked ff1 c tweak >>= λ cipher. or_err (ff1.encrypt cipher s) ff1_failed) ≡ ok t
          → (k : ff1.Cipher) × (tweaked ff1 c tweak ≡ ok k) × (ff1.encrypt k s ≡ some t)
      inner e = let (k, a, b) = bind-ok (tweaked ff1 c tweak) _ t e in (k, a, or_err-ok _ _ t b)

  -- Decrypting a result with the same cipher: the check of the alphabet decides.
  decrypt-eq :
      (c : Cipher ff1) (s t : Text) (tweak : Option Text) (k : ff1.Cipher)
      → 1 < length t
      → tweaked ff1 c tweak ≡ ok k
      → ff1.decrypt k t ≡ some s
      → decrypt_with_tweak ff1 c t tweak
        ≡ (if validate_string ff1 c t then ok s else err invalid_plaintext)
  unfolding decrypt_with_tweak
  decrypt-eq c s t tweak k l e d = simp (e, d) (ground (arith, l))

  module _ (laws : Laws ff1) where
    pub decrypt-encrypt_fpe :
        (key alphabet : Text) (c : Cipher ff1) (s t : Text) (tweak : Option Text)
        → new_cipher ff1 key alphabet ≡ ok c
        → encrypt_with_tweak ff1 c s tweak ≡ ok t
        → (length t ≡ length s)
          × (decrypt_with_tweak ff1 c t tweak
              ≡ (if validate_string ff1 c t then ok s else err invalid_plaintext))
          × (Covers alphabet → validate_string ff1 c t ≡ true)
    decrypt-encrypt_fpe key alphabet c s t tweak new encrypted =
        let fresh = new_cipher-Fresh key alphabet c new in
        let (long, k, tw, e) = encrypt_inv c s t tweak encrypted in
        let made = tweaked-made key alphabet c tweak k fresh tw in
        let kept = laws.length-encrypt (length alphabet) key tweak k s t made e in
        let digits = laws.encrypt-numerals (length alphabet) key tweak k s t made e in
        (
          kept,
          decrypt-eq c s t tweak k (omega (arith, kept, long)) tw
              (laws.decrypt-encrypt (length alphabet) key tweak k s t made e),
          λ covers. valid fresh digits covers,
        )
      where
        valid :
            Fresh key alphabet c
            → all (λ b. any (eqb b) (numerals (length alphabet))) t ≡ true
            → Covers alphabet
            → validate_string ff1 c t ≡ true
        valid fresh digits covers =
            unfold validate_string in
            rw
              (
                fresh.same_alphabet,
                runes_ascii t (
                    ascii-All t (
                      all_covered is_ascii (numerals (length alphabet)) t
                        (numerals_ascii (length alphabet)) digits)),
              )
              (all_covered (contains_rune alphabet) (numerals (length alphabet)) t covers digits)
