-- ===== src/Audit/Scan.antt =====
-- file_storage.go, `Query`: the loop of both stores, with its counters and its `break`.
use grpc_vault_ha.Prelude.{
  ℕ, ◌+◌, Bool, true, false, not, ◌&&◌, List, [], ◌∷◌, ◌++◌, length, take, drop, keep,
  if◌then◌else◌,
}
use grpc_vault_ha.Prelude.Int.{ℤ, pos, pos_part, ltb_ℤ, leb_ℤ}

module _ {A : Type 0} (matches : A → Bool) (offset limit : ℤ) where
  -- `skipped` and `results` are the loop's variables.
  unfoldable pub scan : List A → ℕ → List A → List A
  scan [] skipped results = results
  scan (entry ∷ entries) skipped results = elim (not (matches entry)) [
    | true ↦ scan entries skipped results
    | false ↦ elim (ltb_ℤ (pos skipped) offset) [
      | true ↦ scan entries (skipped + 1) results
      | false ↦ elim (ltb_ℤ (pos 0) limit && leb_ℤ limit (pos (length (results ++ entry ∷ [])))) [
        | true ↦ results ++ entry ∷ []
        | false ↦ scan entries skipped (results ++ entry ∷ [])
      ]
    ]
  ]

  -- The first of a list: all of it, if there is no limit.
  abbrev pub limited : ℕ → List A → List A
  limited room xs = if ltb_ℤ (pos 0) limit then take room xs else xs

  -- What a query means: the matching entries without the first `offset`, at most `limit` of them.
  abbrev pub page : List A → List A
  page entries = limited (pos_part limit) (drop (pos_part offset) (keep matches entries))
