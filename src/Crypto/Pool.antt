-- ===== src/Crypto/Pool.antt =====
-- The batches of crypto_service.go and tokenize_service.go: n results, and a worker pool that runs
-- a task for each index, in any order. A task ends by writing its result at its index.
use grpc_vault_ha.Prelude.{
  map, ℕ, zero, suc, ◌≡◌, ◌<◌, refl, ap, ◌∙◌, Bool, true, ◌||◌, ◌↔◌, all, ltb, replicate, some,
  List, [], ◌∷◌, arith, eqb, any, length, get_elem?, if◌then◌else◌,
}

module _ {A : Type 0} where
  -- `results[i] = a`
  unfoldable pub set_at : ℕ → A → List A → List A
  set_at i a [] = []
  set_at zero a (x ∷ xs) = a ∷ xs
  set_at (suc i) a (x ∷ xs) = x ∷ set_at i a xs

  -- The tasks in the order in which they end.
  unfoldable pub run_tasks : (ℕ → A) → List ℕ → List A → List A
  unfolding set_at
  run_tasks task [] results = results
  run_tasks task (i ∷ order) results = run_tasks task order (set_at i (task i) results)

  pub length-set_at : (i : ℕ) (a : A) (xs : List A) → length (set_at i a xs) ≡ length xs
  unfolding set_at
  length-set_at i a [] = refl
  length-set_at zero a (x ∷ xs) = refl
  length-set_at (suc i) a (x ∷ xs) = ap suc (length-set_at i a xs)

  pub get_elem?-set_at :
      (i j : ℕ) (a : A) (xs : List A)
      → i < length xs
      → get_elem? (set_at i a xs) j ≡ (if eqb j i then some a else get_elem? xs j)
  unfolding set_at
  get_elem?-set_at i j a [] h = absurd (omega (arith, h))
  get_elem?-set_at zero zero a (x ∷ xs) h = ground arith
  get_elem?-set_at zero (suc j) a (x ∷ xs) h = ground arith
  get_elem?-set_at (suc i) zero a (x ∷ xs) h = ground arith
  get_elem?-set_at (suc i) (suc j) a (x ∷ xs) h =
      ground (arith, get_elem?-set_at i j a xs (omega (arith, h)))

  -- The results after the tasks of `order`: that of the task, if its index is there.
  pub run_tasks_lem :
      (task : ℕ → A) (order : List ℕ) (results : List A) (j : ℕ)
      → all (λ i. ltb i (length results)) order ≡ true
      → get_elem? (run_tasks task order results) j
        ≡ (if any (eqb j) order then some (task j) else get_elem? results j)
  unfolding run_tasks
  run_tasks_lem task [] results j h = refl
  run_tasks_lem task (i ∷ order) results j h =
      run_tasks_lem task order (set_at i (task i) results) j
        (rw (length-set_at i (task i) results) (ground (arith, h)))
      ∙ written (eqb j i) (any (eqb j) order) refl
    where
      written :
          (same there : Bool)
          → eqb j i ≡ same
          → (if there then some (task j) else get_elem? (set_at i (task i) results) j)
            ≡ (if same || there then some (task j) else get_elem? results j)
      written same there e =
          ground (arith, e, h, get_elem?-set_at i j (task i) results (ground (arith, h)))

  -- The number of results does not change.
  pub length-run_tasks :
      (task : ℕ → A) (order : List ℕ) (results : List A)
      → length (run_tasks task order results) ≡ length results
  unfolding run_tasks
  length-run_tasks task [] results = refl
  length-run_tasks task (i ∷ order) results =
      length-run_tasks task order (set_at i (task i) results) ∙ length-set_at i (task i) results

-- Every index below n stands in the order, and no other one.
abbrev pub Schedule : ℕ → List ℕ → Type 0
Schedule n order = (i : ℕ) → (any (eqb i) order ≡ true) ↔ (i < n)

pub Schedule-all :
    (n : ℕ) (order : List ℕ)
    → ((i : ℕ) → any (eqb i) order ≡ true → i < n)
    → all (λ i. ltb i n) order ≡ true
Schedule-all n [] h = refl
Schedule-all n (i ∷ order) h =
    ground (arith, h i, Schedule-all n order (λ j m. h j (ground (arith, m))))

pub length-replicate : {A : Type 0} (n : ℕ) (a : A) → length (replicate n a) ≡ n
length-replicate zero a = refl
length-replicate (suc n) a = ap suc (length-replicate n a)

pub get_elem?-lt :
    {A : Type 0} (xs : List A) (i : ℕ) (a : A) → get_elem? xs i ≡ some a → i < length xs
get_elem?-lt [] i a h = cc
get_elem?-lt (x ∷ xs) zero a h = omega arith
get_elem?-lt (x ∷ xs) (suc i) a h = omega (arith, get_elem?-lt xs i a h)

pub get_elem?-map :
    {A B : Type 0} (f : A → B) (xs : List A) (i : ℕ) (a : A)
    → get_elem? xs i ≡ some a
    → get_elem? (map f xs) i ≡ some (f a)
get_elem?-map f [] i a h = cc
get_elem?-map f (x ∷ xs) zero a h = cc
get_elem?-map f (x ∷ xs) (suc i) a h = get_elem?-map f xs i a h
