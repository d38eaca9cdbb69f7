-- ===== src/Audit/Recent.antt =====
-- file_storage.go: a store in memory keeps the latest entries.
use mathlib.Core.List.{append_assoc, append-nil}
use grpc_vault_ha.Prelude.{
  ℕ, zero, suc, ◌+◌, ◌-◌, ◌≡◌, ◌≤◌, refl, sym, ap, ◌∙◌, true, false, List, [], ◌∷◌, ◌++◌, reverse,
  length, length-append, length-drop, drop, tail, keep, count, count-eq-length-keep, arith, ltb,
  if◌then◌else◌, Bool-cases, inl, inr,
}
use grpc_vault_ha.Audit.Entry.{AuditEntry, QueryOptions, matches_common}
use grpc_vault_ha.Audit.Scan.{page}
use grpc_vault_ha.Audit.Page.{scan-page}
use grpc_vault_ha.Audit.{
  MemoryStorage, new_memory_storage, write, write_batch, query, count_entries,
}

-- The last n elements.
abbrev pub last {ℓ} : {A : Type ℓ} → ℕ → List A → List A
last n xs = drop (length xs - n) xs

drop-append {ℓ} :
    {A : Type ℓ} (n : ℕ) (xs ys : List A) → n ≤ length xs → drop n (xs ++ ys) ≡ drop n xs ++ ys
drop-append zero xs ys h = refl
drop-append (suc n) [] ys h = absurd (omega (arith, h))
drop-append (suc n) (x ∷ xs) ys h = drop-append n xs ys (omega (arith, h))

drop-nil {ℓ} : {A : Type ℓ} (n : ℕ) → drop {A = A} n [] ≡ []
drop-nil zero = refl
drop-nil (suc n) = refl

drop-drop {ℓ} : {A : Type ℓ} (m n : ℕ) (xs : List A) → drop m (drop n xs) ≡ drop (n + m) xs
drop-drop m zero xs = ap (λ k. drop k xs) (omega arith)
drop-drop m (suc n) [] = drop-nil m ∙ sym (drop-nil (suc n + m))
drop-drop m (suc n) (x ∷ xs) = drop-drop m n xs ∙ ap (λ k. drop k (x ∷ xs)) more
  where
    more : suc (n + m) ≡ suc n + m
    more = omega arith

-- Only the latest elements matter for what comes after.
last-append {ℓ} :
    {A : Type ℓ} (n : ℕ) (xs ys : List A) → last n (last n xs ++ ys) ≡ last n (xs ++ ys)
last-append n xs ys =
    ap (last n) (sym (drop-append (length xs - n) xs ys (omega arith)))
    ∙ drop-drop _ (length xs - n) (xs ++ ys)
    ∙ ap (λ k. drop k (xs ++ ys))
        (omega (arith, length-append xs ys, length-drop (length xs - n) (xs ++ ys)))

drop_one {ℓ} : {A : Type ℓ} (xs : List A) → tail xs ≡ drop 1 xs
drop_one [] = refl
drop_one (x ∷ xs) = refl

length-last {ℓ} : {A : Type ℓ} (n : ℕ) (xs : List A) → length (last n xs) ≤ n
length-last n xs = omega (arith, length-drop (length xs - n) xs)

one_over : (n m : ℕ) → ltb n m ≡ true → m ≤ suc n → 1 ≡ m - n
one_over n m full h = ground (arith, full, h)

none_over : (n m : ℕ) → ltb n m ≡ false → 0 ≡ m - n
none_over n m fits = ground (arith, fits)

-- Dropping one element is enough after one `append`.
pub trim_one {ℓ} :
    {A : Type ℓ} (n : ℕ) (xs : List A) (x : A)
    → length xs ≤ n
    → (if ltb n (length (xs ++ x ∷ [])) then tail (xs ++ x ∷ []) else xs ++ x ∷ [])
      ≡ last n (xs ++ x ∷ [])
trim_one n xs x h = elim (Bool-cases (ltb n (length (xs ++ x ∷ [])))) [
  | inl full ↦ simp full (
      drop_one (xs ++ x ∷ [])
      ∙ ap (λ k. drop k (xs ++ x ∷ []))
          (one_over n _ full (omega (arith, h, length-append xs (x ∷ [])))))
  | inr fits ↦ simp fits (ap (λ k. drop k (xs ++ x ∷ [])) (none_over n _ fits))
]

pub trim_many {ℓ} :
    {A : Type ℓ} (n : ℕ) (xs : List A)
    → (if ltb n (length xs) then drop (length xs - n) xs else xs) ≡ last n xs
trim_many n xs = elim (Bool-cases (ltb n (length xs))) [
  | inl full ↦ simp full refl
  | inr fits ↦ simp fits (ap (λ k. drop k xs) (none_over n _ fits))
]

module _ (any : Type 0) where
  pub data Call : Type 0 where
    writes : AuditEntry any → Call
    writes_batch : List (AuditEntry any) → Call

  unfoldable pub step : MemoryStorage any → Call → MemoryStorage any
  step s (writes entry) = write any s entry
  step s (writes_batch batch) = write_batch any s batch

  unfoldable pub run : MemoryStorage any → List Call → MemoryStorage any
  run s [] = s
  run s (c ∷ cs) = run (step s c) cs

  -- Everything that was handed in, in order.
  abbrev pub written : Call → List (AuditEntry any)
  written (writes entry) = entry ∷ []
  written (writes_batch batch) = batch

  abbrev pub history : List Call → List (AuditEntry any)
  history [] = []
  history (c ∷ cs) = written c ++ history cs

  step-last :
      (s : MemoryStorage any) (c : Call)
      → length s.entries ≤ s.max_size
      → ((step s c).entries ≡ last s.max_size (s.entries ++ written c))
        × ((step s c).max_size ≡ s.max_size)
  unfolding step write write_batch
  step-last s (writes entry) h = (trim_one s.max_size s.entries entry h, refl)
  step-last s (writes_batch batch) h = (trim_many s.max_size (s.entries ++ batch), refl)

  run-last :
      (s : MemoryStorage any) (n : ℕ) (before : List (AuditEntry any)) (cs : List Call)
      → s.max_size ≡ n
      → s.entries ≡ last n before
      → (run s cs).entries ≡ last n (before ++ history cs)
  unfolding run
  run-last s n before [] m e = e ∙ ap (last n) (sym (append-nil before))
  run-last s n before (c ∷ cs) m e =
      let (entries, size) = step-last s c (rw (e, m) (length-last n before)) in
      run-last (step s c) n (before ++ written c) cs (size ∙ m)
        (entries ∙ rw (e, m) (last-append n before (written c)))
      ∙ ap (last n) (append_assoc before (written c) (history cs))

  -- After any history of writes, single ones and batches, a new store of a given size answers a
  -- query with a page of the matching ones among the latest entries of that number, the newest one
  -- first, and `Count` with their number.
  pub query-last :
      (n : ℕ) (cs : List Call) (opts : QueryOptions)
      → let s = run (new_memory_storage any n) cs in
        (query any s opts
          ≡ page (matches_common any opts) opts.offset opts.limit (reverse (last n (history cs))))
        × (count_entries any s opts ≡ length (keep (matches_common any opts) (last n (history cs))))
  unfolding query count_entries
  query-last n cs opts = (
    scan-page (matches_common any opts) opts.offset opts.limit _
        ∙ ap (λ es. page (matches_common any opts) opts.offset opts.limit (reverse es)) kept,
    ap (count (matches_common any opts)) kept
        ∙ count-eq-length-keep (matches_common any opts) (last n (history cs)),
  )
    where
      kept : (run (new_memory_storage any n) cs).entries ≡ last n (history cs)
      kept = unfold new_memory_storage in run-last _ n [] cs refl (ground arith)
