-- ===== src/Strings/Utf8.antt =====
-- `for _, r := range s`: the code points of a string, 65533 for each byte that starts no valid one;
-- and `strings.ContainsRune`.
use grpc_vault_ha.Prelude.{
  ℕ, zero, suc, ◌+◌, ◌-◌, ◌*◌, ◌<◌, ◌≡◌, refl, Bool, ◌&&◌, List, [], ◌∷◌, All, arith, leb, ltb, eqb,
  any, if◌then◌else◌,
}
use grpc_vault_ha.Prelude.Text.{Text}

-- A code point, and how many further bytes it takes.
abbrev bad : ℕ × ℕ
bad = (65533, 0)

abbrev within : ℕ → ℕ → ℕ → Bool
within low high b = leb low b && leb b high

two_bytes : ℕ → Text → ℕ × ℕ
two_bytes a [] = bad
two_bytes a (b ∷ s) = if within 128 191 b then ((a - 192) * 64 + (b - 128), 1) else bad

three_bytes : ℕ → ℕ → ℕ → Text → ℕ × ℕ
three_bytes low high a (b ∷ c ∷ s) =
    if within low high b && within 128 191 c
    then ((a - 224) * 4096 + (b - 128) * 64 + (c - 128), 2)
    else bad
three_bytes low high a _ = bad

four_bytes : ℕ → ℕ → ℕ → Text → ℕ × ℕ
four_bytes low high a (b ∷ c ∷ d ∷ s) =
    if within low high b && (within 128 191 c && within 128 191 d)
    then ((a - 240) * 262144 + (b - 128) * 4096 + (c - 128) * 64 + (d - 128), 3)
    else bad
four_bytes low high a _ = bad

-- The code point that begins with the byte `a`, before the bytes `s`.
rune_at : ℕ → Text → ℕ × ℕ
unfolding two_bytes three_bytes four_bytes
rune_at a s =
    if ltb a 128
    then (a, 0)
    else if within 194 223 a
    then two_bytes a s
    else if eqb a 224
    then three_bytes 160 191 a s
    else if eqb a 237
    then three_bytes 128 159 a s
    else if within 225 239 a
    then three_bytes 128 191 a s
    else if eqb a 240
    then four_bytes 144 191 a s
    else if eqb a 244
    then four_bytes 128 143 a s
    else if within 241 243 a
    then four_bytes 128 191 a s
    else bad

-- The first bytes belong to the code point before.
runes_after : ℕ → Text → List ℕ
unfolding rune_at
runes_after k [] = []
runes_after (suc k) (b ∷ s) = runes_after k s
runes_after zero (b ∷ s) = let (rune, more) = rune_at b s in rune ∷ runes_after more s

unfoldable pub runes : Text → List ℕ
unfolding runes_after
runes s = runes_after 0 s

unfoldable pub contains_rune : Text → ℕ → Bool
unfolding runes
contains_rune s rune = any (λ r. eqb r rune) (runes s)

-- The code points of an ASCII text are its bytes.
pub runes_ascii : (s : Text) → All (λ b. b < 128) s → runes s ≡ s
unfolding runes
runes_ascii [] h = refl
runes_ascii (b ∷ s) (h, hs) = ground (arith, h, runes_ascii s hs)
