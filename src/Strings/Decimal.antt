-- ===== src/Strings/Decimal.antt =====
-- `fmt.Sprintf("%d", n)` and `strconv.Atoi` on a 64-bit `int`.
use grpc_vault_ha.Prelude.{
  ℕ, zero, suc, ◌+◌, ◌-◌, ◌*◌, ◌/◌, ◌%◌, ◌≤◌, ◌<◌, ◌≡◌, refl, ap, ◌≢◌, Bool, true, false, ◌&&◌,
  Option, none, some, [], ◌∷◌, ◌++◌, arith, ltb, leb, eqb, if◌then◌else◌, Bool-cases, All, inl, inr,
}
use grpc_vault_ha.Prelude.Int.{ℤ, pos, negsuc, max_int}
use grpc_vault_ha.Prelude.Text.{Text}
use grpc_vault_ha.Strings.Split.{Free}

-- The digits of a number, the last one first to be split off; the fuel bounds their count.
digits_from : ℕ → ℕ → Text
digits_from zero n = []
digits_from (suc f) n =
    let rest = digits_from f (n / 10) ++ (b'0' + n % 10) ∷ [] in
    if ltb n 10 then (b'0' + n) ∷ [] else rest

unfoldable pub print_ℕ : ℕ → Text
unfolding digits_from
print_ℕ n = digits_from (suc n) n

-- `%d`
unfoldable pub print_int : ℤ → Text
unfolding print_ℕ
print_int (pos n) = print_ℕ n
print_int (negsuc n) = b'-' ∷ print_ℕ (suc n)

-- A run of digits, read on from `acc`; anything else is a syntax error.
unfoldable pub read_digits : ℕ → Text → Option ℕ
read_digits acc [] = some acc
read_digits acc (b ∷ s) =
    let rest = read_digits (acc * 10 + (b - b'0')) s in
    if leb b'0' b && leb b b'9' then rest else none

-- An empty run is a syntax error too.
unfoldable pub read_ℕ : Text → Option ℕ
unfolding read_digits
read_ℕ [] = none
read_ℕ (b ∷ s) = read_digits 0 (b ∷ s)

-- The range check for a sign and a magnitude.
abbrev in_range : Bool → Option ℕ → Option ℤ
in_range negative none = none
in_range true (some zero) = some (pos 0)
in_range true (some (suc n)) = if leb n max_int then some (negsuc n) else none
in_range false (some n) = if leb n max_int then some (pos n) else none

-- `strconv.Atoi`; `none` stands for a syntax or a range error.
unfoldable pub atoi : Text → Option ℤ
unfolding read_ℕ
atoi [] = none
atoi (b ∷ s) =
    if eqb b b'-'
    then in_range true (read_ℕ s)
    else if eqb b b'+'
    then in_range false (read_ℕ s)
    else in_range false (read_ℕ (b ∷ s))

abbrev then_digit : Option ℕ → ℕ → Option ℕ
then_digit none d = none
then_digit (some v) d = some (v * 10 + d)

read_digits-concat :
    (acc d : ℕ) (s : Text)
    → d < 10
    → read_digits acc (s ++ (b'0' + d) ∷ []) ≡ then_digit (read_digits acc s) d
unfolding read_digits
read_digits-concat acc d [] h = ground arith
read_digits-concat acc d (b ∷ s) h =
    ground (arith, read_digits-concat (acc * 10 + (b - b'0')) d s h)

read_digits-digits_from : (f n : ℕ) → n < f → read_digits 0 (digits_from f n) ≡ some n
unfolding digits_from
read_digits-digits_from zero n h = elim h [ ]
read_digits-digits_from (suc f) n h = elim (Bool-cases (ltb n 10)) [
  | inl small ↦ rw small (one n (ground arith))
  | inr large ↦
      rw
        (
          large,
          read_digits-concat 0 (n % 10) (digits_from f (n / 10)) (omega arith),
          read_digits-digits_from f (n / 10) (ground arith),
        )
        (ap some (omega arith))
]
  where
    one : (k : ℕ) → k < 10 → read_digits 0 ((b'0' + k) ∷ []) ≡ some k
    one k small = unfold read_digits in ground arith

abbrev IsDigit : ℕ → Type 0
IsDigit b = (48 ≤ b) × (b ≤ 57)

All-concat : (P : ℕ → Type 0) (s : Text) (b : ℕ) → All P s → P b → All P (s ++ b ∷ [])
All-concat P [] b h p = (p, tt)
All-concat P (a ∷ s) b (q, h) p = (q, All-concat P s b h p)

digits_from-IsDigit : (f n : ℕ) → All IsDigit (digits_from f n)
unfolding digits_from
digits_from-IsDigit zero n = tt
digits_from-IsDigit (suc f) n = elim (Bool-cases (ltb n 10)) [
  | inl small ↦ rw small ((omega arith, ground arith), tt)
  | inr large ↦ rw large (
      All-concat IsDigit (digits_from f (n / 10)) (b'0' + n % 10) (digits_from-IsDigit f (n / 10))
        (omega arith))
]

digits_from-ne-nil : (f n : ℕ) → digits_from (suc f) n ≢ []
unfolding digits_from
digits_from-ne-nil f n = elim (Bool-cases (ltb n 10)) [
  | inl small ↦ rw small (λ e. cc)
  | inr large ↦ rw large (concat-ne-nil (digits_from f (n / 10)) (b'0' + n % 10))
]
  where
    concat-ne-nil : (s : Text) (b : ℕ) → s ++ b ∷ [] ≢ []
    concat-ne-nil [] b e = cc
    concat-ne-nil (a ∷ s) b e = cc

pub read_ℕ-print_ℕ : (n : ℕ) → read_ℕ (print_ℕ n) ≡ some n
unfolding read_ℕ print_ℕ
read_ℕ-print_ℕ n =
    start (digits_from (suc n) n) (digits_from-ne-nil n n)
      (read_digits-digits_from (suc n) n (omega arith))
  where
    start : (s : Text) → s ≢ [] → read_digits 0 s ≡ some n → read_ℕ s ≡ some n
    start [] h e = absurd (h refl)
    start (b ∷ s) h e = e

-- A text of digits is read without a sign.
atoi_unsigned : (s : Text) → All IsDigit s → s ≢ [] → atoi s ≡ in_range false (read_ℕ s)
unfolding atoi
atoi_unsigned [] d h = absurd (h refl)
atoi_unsigned (b ∷ s) (d, _) h = ground arith

-- The `int`s of 64 bits.
abbrev pub IsInt : ℤ → Type 0
IsInt (pos n) = n ≤ max_int
IsInt (negsuc n) = n ≤ max_int

-- Every 64-bit integer is read back from its decimal text.
pub atoi-print_int : (i : ℤ) → IsInt i → atoi (print_int i) ≡ some i
unfolding print_int
atoi-print_int (pos n) h =
    rw
      (
        atoi_unsigned (print_ℕ n) (unfold print_ℕ in digits_from-IsDigit (suc n) n)
            (unfold print_ℕ in digits_from-ne-nil n n),
        read_ℕ-print_ℕ n,
      )
      (ground arith)
atoi-print_int (negsuc n) h = unfold atoi in rw (read_ℕ-print_ℕ (suc n)) (ground arith)

digits-Free : (s : Text) → All IsDigit s → Free b':' s
digits-Free [] h = tt
digits-Free (b ∷ s) (d, h) = (λ e. absurd (omega arith), digits-Free s h)

-- A decimal text has no colon.
pub print_int-Free : (i : ℤ) → Free b':' (print_int i)
unfolding print_int print_ℕ
print_int-Free (pos n) = digits-Free (digits_from (suc n) n) (digits_from-IsDigit (suc n) n)
print_int-Free (negsuc n) = (
  λ e. absurd (omega arith),
  digits-Free (digits_from (suc (suc n)) (suc n)) (digits_from-IsDigit (suc (suc n)) (suc n)),
)

pub print_int-ne-nil : (i : ℤ) → print_int i ≢ []
unfolding print_int print_ℕ
print_int-ne-nil (pos n) e = digits_from-ne-nil n n e
print_int-ne-nil (negsuc n) e = cc
