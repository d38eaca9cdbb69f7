-- ===== src/Fpe/Toy.antt =====
-- A concrete FF1 for the tests: the numerals 0 and 1 change places.
use grpc_vault_ha.Prelude.{
  ℕ, zero, suc, ◌<◌, ◌≡◌, sym, refl, ap, ◌∙◌, Bool, true, Option, none, some, [], ◌∷◌, all, any,
  map, arith, ltb, eqb, length, if◌then◌else◌,
}
use grpc_vault_ha.Prelude.Text.{Text}
use grpc_vault_ha.Fpe.{Ff1}
use grpc_vault_ha.Fpe.RoundTrip.{Laws, numerals}

abbrev pub is_numeral : ℕ → ℕ → Bool
is_numeral radix b = any (eqb b) (numerals radix)

abbrev pub swap : ℕ → ℕ
swap b = if eqb b 48 then 49 else if eqb b 49 then 48 else b

abbrev pub swap_text : ℕ → Text → Option Text
swap_text radix s = if all (is_numeral radix) s then some (map swap s) else none

-- The cipher is the radix.
abbrev pub toy_ff1 : Ff1
toy_ff1 = record {
  Cipher = ℕ;
  new_cipher = λ radix key tweak. if ltb 1 radix then some radix else none;
  encrypt = swap_text;
  decrypt = swap_text;
}

swap-swap : (b : ℕ) → swap (swap b) ≡ b
swap-swap b = ground arith

map-swap-swap : (s : Text) → map swap (map swap s) ≡ s
map-swap-swap [] = refl
map-swap-swap (b ∷ s) = cc (swap-swap b, map-swap-swap s)

swap-numeral :
    (radix b : ℕ) → 1 < radix → is_numeral radix b ≡ true → is_numeral radix (swap b) ≡ true
swap-numeral zero b h m = absurd (omega (arith, h))
swap-numeral (suc zero) b h m = absurd (omega (arith, h))
swap-numeral (suc (suc radix)) b h m = ground (arith, m)

map-swap-numerals :
    (radix : ℕ) (s : Text)
    → 1 < radix
    → all (is_numeral radix) s ≡ true
    → all (is_numeral radix) (map swap s) ≡ true
map-swap-numerals radix [] h m = refl
map-swap-numerals radix (b ∷ s) h m =
    ground (arith, m, swap-numeral radix b h, map-swap-numerals radix s h)

swap_text_inv :
    (radix : ℕ) (s t : Text)
    → swap_text radix s ≡ some t
    → (all (is_numeral radix) s ≡ true) × (map swap s ≡ t)
swap_text_inv radix s t h = (ground (arith, h), ground (arith, h))

length-map-swap : (s : Text) → length (map swap s) ≡ length s
length-map-swap [] = refl
length-map-swap (b ∷ s) = ap suc (length-map-swap s)

swap_text-swap_text :
    (radix : ℕ) (s t : Text) → 1 < radix → swap_text radix s ≡ some t → swap_text radix t ≡ some s
swap_text-swap_text radix s t h e =
    let (digits, swapped) = swap_text_inv radix s t e in
    rw (sym swapped) (ground (arith, map-swap-numerals radix s h digits, map-swap-swap s))

-- The radix is that of the call, and it is at least 2.
made :
    (radix c : ℕ) → (if ltb 1 radix then some radix else none) ≡ some c → (c ≡ radix) × (1 < radix)
made radix c h = (ground (arith, h), ground (arith, h))

pub toy_ff1-Laws : Laws toy_ff1
toy_ff1-Laws = record {
  decrypt-encrypt = λ radix key tweak c s t new e.
      let (same, h) = made radix c new in swap_text-swap_text c s t (omega (arith, same, h)) e;
  encrypt-numerals = λ radix key tweak c s t new e.
      let (same, h) = made radix c new in
      let (digits, swapped) = swap_text_inv c s t e in
      rw (← same, sym swapped) (map-swap-numerals c s (omega (arith, same, h)) digits);
  length-encrypt =
      λ radix key tweak c s t new e. ap length (sym (swap_text_inv c s t e).1) ∙ length-map-swap s;
}
