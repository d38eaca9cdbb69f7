-- ===== src/Auth/Page.antt =====
-- services/auth/internal/repository: the pages of a list, and which ones panic.
use grpc_vault_ha.Prelude.{
  ℕ, zero, suc, ◌+◌, ◌-◌, ◌≤◌, ◌<◌, ◌≡◌, refl, sym, ap, ◌∙◌, true, List, [], ◌∷◌, length, take,
  drop, length-drop, arith, leb, ltb, if◌then◌else◌, Result, ok, panic, Bool-cases, inl, inr,
}
use grpc_vault_ha.Prelude.Int.{ℤ, pos, negsuc, ◌+ℤ◌, leb_ℤ, ltb_ℤ, to_int}

module _ {A : Type 0} where
  take_all : (n : ℕ) (xs : List A) → length xs ≤ n → take n xs ≡ xs
  take_all zero [] h = refl
  take_all zero (x ∷ xs) h = absurd (omega (arith, h))
  take_all (suc n) [] h = refl
  take_all (suc n) (x ∷ xs) h = ap (◌∷◌ x) (take_all n xs (omega (arith, h)))

  take-drop_nil : (n o : ℕ) (xs : List A) → length xs ≤ o → take n (drop o xs) ≡ []
  take-drop_nil zero o xs h = refl
  take-drop_nil (suc n) zero [] h = refl
  take-drop_nil (suc n) zero (x ∷ xs) h = absurd (omega (arith, h))
  take-drop_nil (suc n) (suc o) [] h = refl
  take-drop_nil (suc n) (suc o) (x ∷ xs) h = take-drop_nil (suc n) o xs (omega (arith, h))

-- The end of a page.
end_small : (o l : ℕ) → o + l < 9223372036854775808 → to_int (pos o +ℤ pos l) ≡ pos (o + l)
end_small o l h = ground (arith, h)

end_wraps :
    (o l : ℕ)
    → o < 9223372036854775808
    → l < 9223372036854775808
    → 9223372036854775808 ≤ o + l
    → ltb_ℤ (to_int (pos o +ℤ pos l)) (pos 0) ≡ true
end_wraps o l ho hl h = ground (arith, ho, hl, h)

end_before :
    (o k : ℕ)
    → o < 9223372036854775808
    → k < 9223372036854775808
    → ltb_ℤ (to_int (pos o +ℤ negsuc k)) (pos o) ≡ true
end_before o k ho hk = ground (arith, ho, hk)

end_negative : (end : ℤ) (o : ℕ) → ltb_ℤ end (pos 0) ≡ true → ltb_ℤ end (pos o) ≡ true
end_negative end o h = ground (arith, h)

module _ {E A : Type 0} where
  -- `xs[a:b]`, for b up to the length.
  unfoldable pub slice : ℤ → ℤ → List A → Result E (List A)
  slice (pos a) (pos b) xs = if leb a b then ok (take (b - a) (drop a xs)) else panic
  slice (pos a) (negsuc b) xs = panic
  slice (negsuc a) b xs = panic

  -- The page that ends at `end`.
  unfoldable pub page_to : ℤ → ℤ → List A → Result E (List A)
  unfolding slice
  page_to end offset xs =
      if leb_ℤ (pos (length xs)) offset
      then ok []
      else slice offset (if ltb_ℤ (pos (length xs)) end then pos (length xs) else end) xs

  unfoldable pub page : ℤ → ℤ → List A → Result E (List A)
  unfolding page_to
  page limit offset xs = page_to (to_int (offset +ℤ limit)) offset xs

  page_to-take :
      (o l : ℕ) (xs : List A) → page_to (pos (o + l)) (pos o) xs ≡ ok (take l (drop o xs))
  unfolding page_to slice
  page_to-take o l xs = elim (Bool-cases (leb (length xs) o)) [
    | inl past ↦ ground (arith, past, take-drop_nil l o xs (ground (arith, past)))
    | inr here ↦ elim (Bool-cases (ltb (length xs) (o + l))) [
      | inl over ↦ ground (arith, here, over, cut)
      | inr within ↦ ground (arith, here, within)
    ]
  ]
    where
      cut : length xs < o + l → take (length xs - o) (drop o xs) ≡ take l (drop o xs)
      cut h =
          take_all (length xs - o) (drop o xs) (omega (arith, length-drop o xs))
          ∙ sym (take_all l (drop o xs) (omega (arith, h, length-drop o xs)))

  page_to-before :
      (end : ℤ) (o : ℕ) (xs : List A)
      → o < length xs
      → ltb_ℤ end (pos o) ≡ true
      → page_to end (pos o) xs ≡ panic
  unfolding page_to slice
  page_to-before end o xs h b = ground (arith, h, b)

  page_to-negative : (end : ℤ) (o : ℕ) (xs : List A) → page_to end (negsuc o) xs ≡ panic
  unfolding page_to slice
  page_to-negative end o xs = ground arith

  -- With an offset and a limit that are not negative and whose sum is an `int`, a page is the part
  -- of the list that they name, cut off at its end. A negative offset panics; so does, for an offset
  -- within the list, a negative limit, or one whose sum with the offset is no `int`.
  pub page-Bounds :
      (xs : List A) (o l : ℕ)
      → o < 9223372036854775808
      → l < 9223372036854775808
      → (o + l < 9223372036854775808 → page (pos l) (pos o) xs ≡ ok (take l (drop o xs)))
        × (o < length xs → 9223372036854775808 ≤ o + l → page (pos l) (pos o) xs ≡ panic)
        × (o < length xs → page (negsuc l) (pos o) xs ≡ panic)
        × ((limit : ℤ) → page limit (negsuc o) xs ≡ panic)
  unfolding page
  page-Bounds xs o l ho hl = (
    λ h. ap (λ end. page_to end (pos o) xs) (end_small o l h) ∙ page_to-take o l xs,
    λ here h.
        page_to-before (to_int (pos o +ℤ pos l)) o xs here
          (end_negative (to_int (pos o +ℤ pos l)) o (end_wraps o l ho hl h)),
    λ here. page_to-before (to_int (pos o +ℤ negsuc l)) o xs here (end_before o l ho hl),
    λ limit. page_to-negative (to_int (negsuc o +ℤ limit)) o xs,
  )
