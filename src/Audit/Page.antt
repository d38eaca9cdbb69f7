-- ===== src/Audit/Page.antt =====
-- file_storage.go, `Query`: the loop returns a page of the matching entries.
use mathlib.Core.List.{append_assoc, append-nil}
use grpc_vault_ha.Prelude.{
  ℕ, zero, suc, ◌+◌, ◌≡◌, ◌≤◌, ◌<◌, refl, sym, ◌∙◌, Bool, true, false, List, [], ◌∷◌, ◌++◌, length,
  length-append, take, drop, keep, arith, Bool-cases, inl, inr,
}
use grpc_vault_ha.Prelude.Int.{ℤ, pos, negsuc, pos_part, ltb_ℤ}
use grpc_vault_ha.Audit.Scan.{scan, limited, page}

-- A positive integer has no negative part.
positive : (i : ℤ) → 0 < pos_part i → (i ≡ pos (pos_part i))
positive (pos n) h = refl
positive (negsuc n) h = absurd (omega (arith, h))

module _ {A : Type 0} (matches : A → Bool) (offset limit : ℤ) where
  -- Without a limit, everything that matches is collected.
  collect_all :
      (entries : List A) (skipped : ℕ) (results : List A)
      → pos_part offset ≤ skipped
      → ltb_ℤ (pos 0) limit ≡ false
      → scan matches offset limit entries skipped results ≡ results ++ keep matches entries
  unfolding scan
  collect_all [] skipped results past free = sym (append-nil results)
  collect_all (entry ∷ entries) skipped results past free = ground (
    arith,
    free,
    past,
    collect_all entries skipped results past free,
    collect_all entries skipped (results ++ entry ∷ []) past free,
    append_assoc results (entry ∷ []) (keep matches entries),
  )

  -- With a limit, as many as there is still room for.
  collect_some :
      (entries : List A) (skipped : ℕ) (results : List A) (room : ℕ)
      → pos_part offset ≤ skipped
      → ltb_ℤ (pos 0) limit ≡ true
      → pos_part limit ≡ length results + suc room
      → scan matches offset limit entries skipped results
        ≡ results ++ take (suc room) (keep matches entries)
  unfolding scan
  collect_some [] skipped results room past bound left = sym (append-nil results)
  collect_some (entry ∷ entries) skipped results zero past bound left = ground (
    arith,
    bound,
    left,
    past,
    collect_some entries skipped results zero past bound left,
    length-append results (entry ∷ []),
  )
  collect_some (entry ∷ entries) skipped results (suc room) past bound left = ground (
    arith,
    bound,
    left,
    past,
    collect_some entries skipped results (suc room) past bound left,
    collect_some entries skipped (results ++ entry ∷ []) room past bound,
    length-append results (entry ∷ []),
    append_assoc results (entry ∷ []) (take (suc room) (keep matches entries)),
  )

  collect :
      (entries : List A) (skipped : ℕ)
      → pos_part offset ≤ skipped
      → scan matches offset limit entries skipped []
        ≡ limited matches offset limit (pos_part limit) (keep matches entries)
  collect entries skipped past = elim (Bool-cases (ltb_ℤ (pos 0) limit)) [
    | inr free ↦ collect_all entries skipped [] past free ∙ simp free
    | inl bound ↦ some_room bound (pos_part limit) refl
  ]
    where
      some_room :
          ltb_ℤ (pos 0) limit ≡ true
          → (n : ℕ) → pos_part limit ≡ n
          → scan matches offset limit entries skipped []
            ≡ limited matches offset limit n (keep matches entries)
      some_room bound zero e = absurd (ground (arith, bound, e))
      some_room bound (suc n) e =
          collect_some entries skipped [] n past bound (omega (arith, e)) ∙ simp bound

  -- The first matches are passed over.
  skip :
      (entries : List A) (n skipped : ℕ)
      → pos_part offset ≡ skipped + n
      → scan matches offset limit entries skipped []
        ≡ limited matches offset limit (pos_part limit) (drop n (keep matches entries))
  unfolding scan
  skip entries zero skipped e = collect entries skipped (omega (arith, e))
  skip [] (suc n) skipped e = none_left (pos_part limit)
    where
      none_left : (m : ℕ) → [] ≡ limited matches offset limit m []
      none_left zero = ground arith
      none_left (suc m) = ground arith
  skip (entry ∷ entries) (suc n) skipped e = ground (
    arith,
    e,
    positive offset (omega (arith, e)),
    skip entries (suc n) skipped e,
    skip entries n (skipped + 1) (omega (arith, e)),
  )

  -- A query returns the matching entries in the order of the loop, without the first `offset` ones
  -- (a negative offset counts as 0), and at most `limit` of them if the limit is positive.
  pub scan-page :
      (entries : List A)
      → scan matches offset limit entries 0 [] ≡ page matches offset limit entries
  scan-page entries = skip entries (pos_part offset) 0 (omega arith)
