-- ===== src/Tokenize/Masked.antt =====
-- tokenize_service.go, `Mask`: what a mask shows, and where it panics.
use grpc_vault_ha.Prelude.{
  ℕ, zero, suc, ◌+◌, ◌-◌, ◌*◌, ◌<◌, ◌≤◌, ◌≡◌, ◌⊎◌, inl, inr, refl, sym, ap, ◌∙◌, true, false, [],
  ◌∷◌, ◌++◌, length, take, drop, length-append, length-take, length-drop, arith, if◌then◌else◌,
  ◌==◌, ok, panic,
}
use grpc_vault_ha.Prelude.Int.{to_int, ℤ, pos, negsuc, ◌+ℤ◌, sub_ℕ, leb_ℤ, ltb_ℤ}
use grpc_vault_ha.Prelude.Text.{Text, codes, text_eq}
use grpc_vault_ha.Tokenize.Masking.{repeat, first_part, last_part, mask_len, mask_with, mask}

-- What is written for a hidden byte.
abbrev pub mask_text : Text → Text
mask_text mask_char = if mask_char == [] then codes "*" else mask_char

to_int_small : (n : ℕ) → n < 9223372036854775808 → to_int (pos n) ≡ pos n
to_int_small n h = ground (arith, h)

take-take-append : (n : ℕ) (xs ys : Text) → n ≤ length xs → take n (take n xs ++ ys) ≡ take n xs
take-take-append zero xs ys h = refl
take-take-append (suc n) [] ys h = absurd (omega (arith, h))
take-take-append (suc n) (x ∷ xs) ys h = ap (◌∷◌ x) (take-take-append n xs ys (omega (arith, h)))

length-repeat : (n : ℕ) (c : Text) → length (repeat n c) ≡ n * length c
unfolding repeat
length-repeat zero c = omega arith
length-repeat (suc n) c = grind (arith, length-append c (repeat n c), length-repeat n c)

first_part_lem :
    (value : Text) (f : ℕ) → f ≤ length value → first_part value (pos f) ≡ ok (take f value)
unfolding first_part
first_part_lem value zero h = ground arith
first_part_lem value (suc f) h = ground (arith, h)

drop_all : (xs : Text) → drop (length xs) xs ≡ []
drop_all [] = refl
drop_all (x ∷ xs) = drop_all xs

last_part_lem :
    (value : Text) (l : ℕ)
    → l ≤ length value
    → last_part value (pos l) ≡ ok (drop (length value - l) value)
unfolding last_part
last_part_lem value zero h = ground (arith, drop_all value)
last_part_lem value (suc l) h = ground (arith, h)

mask_len_lem : (n t : ℕ) → n < 9223372036854775808 → t < n → mask_len n (pos t) ≡ n - t
unfolding mask_len
mask_len_lem n t small h = ground (arith, small, h)

total_lem : (f l : ℕ) → f + l < 9223372036854775808 → to_int (pos f +ℤ pos l) ≡ pos (f + l)
total_lem f l h = ap to_int sum ∙ to_int_small (f + l) h
  where
    sum : pos f +ℤ pos l ≡ pos (f + l)
    sum = ground arith

abbrev shown : Text → Text → ℕ → ℕ → Text
shown value mask_char f l =
    take f value ++ (repeat (length value - (f + l)) mask_char ++ drop (length value - l) value)

mask_with-shown :
    (value mask_char : Text) (f l : ℕ)
    → length value < 9223372036854775808
    → f + l < length value
    → mask_with (pos (f + l)) value (pos f) (pos l) mask_char ≡ ok (shown value mask_char f l)
unfolding mask_with
mask_with-shown value mask_char f l small h =
    rw
      (
        first_part_lem value f (omega (arith, h)),
        last_part_lem value l (omega (arith, h)),
        mask_len_lem (length value) (f + l) small h,
      )
      (ground (arith, h))

mask-shown :
    (value mask_char : Text) (f l : ℕ)
    → length value < 9223372036854775808
    → f + l < length value
    → mask value (pos f) (pos l) mask_char ≡ ok (shown value (mask_text mask_char) f l)
unfolding mask
mask-shown value mask_char f l small h =
    rw (total_lem f l (omega (arith, h, small)))
      (ground (arith, h, mask_with-shown value (mask_text mask_char) f l small h))

length-shown :
    (value mask_char : Text) (f l : ℕ)
    → f + l < length value
    → length (shown value mask_char f l) ≡ f + l + (length value - (f + l)) * length mask_char
length-shown value mask_char f l h = grind (
  arith,
  h,
  length-append (take f value)
      (repeat (length value - (f + l)) mask_char ++ drop (length value - l) value),
  length-append (repeat (length value - (f + l)) mask_char) (drop (length value - l) value),
  length-repeat (length value - (f + l)) mask_char,
  length-take f value,
  length-drop (length value - l) value,
)

pub mask-Hidden :
    (value other mask_char : Text) (f l : ℕ)
    → length value < 9223372036854775808
    → f + l < length value
    → length other ≡ length value
    → take f other ≡ take f value
    → drop (length other - l) other ≡ drop (length value - l) value
    → (mask other (pos f) (pos l) mask_char ≡ mask value (pos f) (pos l) mask_char)
      × (r : Text) × (mask value (pos f) (pos l) mask_char ≡ ok r)
      × (take f r ≡ take f value)
      × (length r ≡ f + l + (length value - (f + l)) * length (mask_text mask_char))
mask-Hidden value other mask_char f l small h len front back = (
  mask-shown other mask_char f l (omega (arith, small, len)) (omega (arith, h, len))
      ∙ ap ok same
      ∙ sym (mask-shown value mask_char f l small h),
  shown value (mask_text mask_char) f l,
  mask-shown value mask_char f l small h,
  take-take-append f value _ (omega (arith, h)),
  length-shown value (mask_text mask_char) f l h,
)
  where
    same : shown other (mask_text mask_char) f l ≡ shown value (mask_text mask_char) f l
    same = rw (front, back, len) refl

panics :
    (value mask_char : Text) (total first last : ℤ)
    → leb_ℤ (pos (length value)) total ≡ false
    → (ltb_ℤ (pos (length value)) first ≡ true) ⊎ (ltb_ℤ (pos (length value)) last ≡ true)
    → mask_with total value first last mask_char ≡ panic
unfolding mask_with first_part last_part
panics value mask_char total first last h b = ground (arith, h, b)

abbrev difference : ℕ → ℕ → ℤ
difference f k = sub_ℕ f (suc k)

difference_small :
    (n f k : ℕ)
    → f < 9223372036854775808
    → k < 9223372036854775808
    → f ≤ n + k
    → leb_ℤ (pos n) (to_int (difference f k)) ≡ false
difference_small n f k hf hk b = ground (arith, hf, hk, b)

mixed_total : (f k : ℕ) → pos f +ℤ negsuc k ≡ difference f k
mixed_total f k = ground arith

mixed_total_comm : (f k : ℕ) → negsuc k +ℤ pos f ≡ difference f k
mixed_total_comm f k = ground arith

mask-mask_with :
    (value mask_char : Text) (first last : ℤ)
    → 0 < length value
    → mask value first last mask_char
      ≡ mask_with (to_int (first +ℤ last)) value first last (mask_text mask_char)
unfolding mask
mask-mask_with value mask_char first last h = ground (arith, h)

pub mask-panic :
    (value mask_char : Text) (f k : ℕ)
    → f < 9223372036854775808
    → k < 9223372036854775808
    → 0 < length value
    → length value < f
    → f ≤ length value + k
    → (mask value (pos f) (negsuc k) mask_char ≡ panic)
      × (mask value (negsuc k) (pos f) mask_char ≡ panic)
mask-panic value mask_char f k hf hk some_byte h b = (
  mask-mask_with value mask_char (pos f) (negsuc k) some_byte
      ∙ panics value (mask_text mask_char) _ (pos f) (negsuc k)
          (rw (mixed_total f k) (difference_small (length value) f k hf hk b))
          (inl (ground (arith, h))),
  mask-mask_with value mask_char (negsuc k) (pos f) some_byte
      ∙ panics value (mask_text mask_char) _ (negsuc k) (pos f)
          (rw (mixed_total_comm f k) (difference_small (length value) f k hf hk b))
          (inr (ground (arith, h))),
)
