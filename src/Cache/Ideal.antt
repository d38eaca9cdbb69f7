-- ===== src/Cache/Ideal.antt =====
-- lru.go against a cache that never evicts: a hit is always what was last stored.
use grpc_vault_ha.Prelude.{
  ℕ, ◌+◌, ◌≡◌, ◌≤◌, ◌⊎◌, ◌↔◌, refl, sym, subst, ◌∙◌, Option, none, some, List, [], ◌∷◌, arith, ltb,
  if◌then◌else◌, Option-cases, Bool-cases, inl, inr, Eq,
}
use grpc_vault_ha.Prelude.Int.{ℤ}
use grpc_vault_ha.Prelude.Map.{
  Map, lookup, insert, erase, lookup-insert_self, lookup-insert_ne, lookup-erase_ne,
}
use grpc_vault_ha.Cache.Lru.{LruList, Laws}
use grpc_vault_ha.Cache.{
  CacheEntry, LruCache, new_lru_cache_with_ttl, expired, found, get, add_entry, expiry, set,
  set_with_ttl, delete, clear,
}

pub data Call (K V : Type 0) : Type 0 where
  gets : ℕ → K → Call K V
  sets : ℕ → K → V → Call K V
  sets_with_ttl : ℕ → K → V → ℕ → Call K V
  deletes : K → Call K V
  clears : Call K V

module _ (K V : Type 0) (lru : LruList K (CacheEntry V)) where
  unfoldable pub step : LruCache K V lru → Call K V → LruCache K V lru
  step c (gets now k) = (get K V lru now c k).0
  step c (sets now k v) = set K V lru now c k v
  step c (sets_with_ttl now k v ttl) = set_with_ttl K V lru now c k v ttl
  step c (deletes k) = (delete K V lru c k).0
  step c clears = clear K V lru c

  unfoldable pub run : LruCache K V lru → List (Call K V) → LruCache K V lru
  run c [] = c
  run c (call ∷ calls) = run (step c call) calls

module _ (K V : Type 0) ⦃eq : Eq K⦄ where
  -- What was last stored under each key, and not deleted since.
  unfoldable pub ideal_step : ℕ → Map K (CacheEntry V) → Call K V → Map K (CacheEntry V)
  ideal_step ttl m (gets now k) = m
  ideal_step ttl m (sets now k v) =
      insert k (record { value = v; expires_at = if ltb 0 ttl then now + ttl else 0 }) m
  ideal_step ttl m (sets_with_ttl now k v t) =
      insert k (record { value = v; expires_at = now + t }) m
  ideal_step ttl m (deletes k) = erase k m
  ideal_step ttl m clears = []

  unfoldable pub ideal_run : ℕ → Map K (CacheEntry V) → List (Call K V) → Map K (CacheEntry V)
  ideal_run ttl m [] = m
  ideal_run ttl m (call ∷ calls) = ideal_run ttl (ideal_step ttl m call) calls

module _ (K V : Type 0) ⦃eq : Eq K⦄ (lru : LruList K (CacheEntry V))
    (laws : Laws K (CacheEntry V) lru) where
  -- Every entry of the list is the one that was last stored.
  abbrev pub Backed : lru.State → Map K (CacheEntry V) → Type 0
  Backed s m = (k : K) (e : CacheEntry V) → lru.peek s k ≡ some e → lookup k m ≡ some e

  remove-Backed :
      (s : lru.State) (m : Map K (CacheEntry V)) (k : K) → Backed s m → Backed (lru.remove s k).0 m
  remove-Backed s m k b j e p = elim (eq.dec j k) [
    | yes same ↦ absurd (gone same)
    | no ne ↦ b j e (sym (laws.peek-remove_ne s k j ne) ∙ p)
  ]
    where
      gone : j ≡ k → ⊥
      gone same = ground (arith, laws.peek-remove_self s k, p, same)

  delete-Backed :
      (s : lru.State) (m : Map K (CacheEntry V)) (k : K)
      → Backed s m
      → Backed (lru.remove s k).0 (erase k m)
  delete-Backed s m k b j e p = elim (eq.dec j k) [
    | yes same ↦ absurd (gone same)
    | no ne ↦ lookup-erase_ne j k m ne ∙ b j e (sym (laws.peek-remove_ne s k j ne) ∙ p)
  ]
    where
      gone : j ≡ k → ⊥
      gone same = ground (arith, laws.peek-remove_self s k, p, same)

  add-Backed :
      (s : lru.State) (m : Map K (CacheEntry V)) (k : K) (v : CacheEntry V)
      → Backed s m
      → Backed (lru.add s k v).0 (insert k v m)
  add-Backed s m k v b j e p = elim (eq.dec j k) [
    | yes same ↦ ground (arith, same, p, laws.peek-add_self s k v, lookup-insert_self k v m)
    | no ne ↦ elim (laws.peek-add_ne s k j v ne) [
      | inl kept ↦ lookup-insert_ne j k v m ne ∙ b j e (sym kept ∙ p)
      | inr evicted ↦ absurd (ground (arith, evicted, p))
    ]
  ]

  get-Backed :
      (s : lru.State) (m : Map K (CacheEntry V)) (k : K) → Backed s m → Backed (lru.get s k).0 m
  get-Backed s m k b j e p = b j e (sym (laws.peek-get s k j) ∙ p)

  found-Backed :
      (now : ℕ) (c : LruCache K V lru) (m : Map K (CacheEntry V)) (k : K)
      (r : lru.State × Option (CacheEntry V))
      → Backed (r.0) m
      → Backed (found K V lru now c k r).0.cache m
  unfolding found
  found-Backed now c m k (s, none) b = b
  found-Backed now c m k (s, some entry) b = elim (Bool-cases (expired K V lru now c entry)) [
    | inl old ↦ simp old (remove-Backed s m k b)
    | inr fresh ↦ simp fresh b
  ]

  found-ttl :
      (now : ℕ) (c : LruCache K V lru) (k : K) (r : lru.State × Option (CacheEntry V))
      → (found K V lru now c k r).0.ttl ≡ c.ttl
  unfolding found
  found-ttl now c k (s, none) = refl
  found-ttl now c k (s, some entry) = ground arith

  step-Backed :
      (c : LruCache K V lru) (m : Map K (CacheEntry V)) (call : Call K V)
      → Backed c.cache m
      → Backed (step K V lru c call).cache (ideal_step K V c.ttl m call)
        × ((step K V lru c call).ttl ≡ c.ttl)
  unfolding step ideal_step get set set_with_ttl add_entry delete clear
  step-Backed c m (gets now k) b = (
    found-Backed now c m k (lru.get c.cache k) (get-Backed c.cache m k b),
    found-ttl now c k (lru.get c.cache k),
  )
  step-Backed c m (sets now k v) b = (add-Backed c.cache m k _ b, refl)
  step-Backed c m (sets_with_ttl now k v t) b = (add-Backed c.cache m k _ b, refl)
  step-Backed c m (deletes k) b = (delete-Backed c.cache m k b, refl)
  step-Backed c m clears b =
      ((λ k e p. absurd (ground (arith, laws.peek-purge c.cache k, p))), refl)

  run-Backed :
      (c : LruCache K V lru) (m : Map K (CacheEntry V)) (ttl : ℕ) (calls : List (Call K V))
      → c.ttl ≡ ttl
      → Backed c.cache m
      → Backed (run K V lru c calls).cache (ideal_run K V ttl m calls)
        × ((run K V lru c calls).ttl ≡ ttl)
  unfolding run ideal_run
  run-Backed c m ttl [] t b = (b, t)
  run-Backed c m ttl (call ∷ calls) t b =
      let (b', t') = step-Backed c m call b in
      run-Backed (step K V lru c call) (ideal_step K V ttl m call) ttl calls (t' ∙ t)
        (subst (λ n. Backed (step K V lru c call).cache (ideal_step K V n m call)) t b')

  found-hit :
      (now : ℕ) (c : LruCache K V lru) (k : K) (r : lru.State × Option (CacheEntry V)) (v : V)
      → (found K V lru now c k r).1 ≡ some v
      → (e : CacheEntry V) × (r.1 ≡ some e) × (e.value ≡ v) × ((c.ttl ≡ 0) ⊎ (now ≤ e.expires_at))
  unfolding found
  found-hit now c k (s, none) v h = cc
  found-hit now c k (s, some entry) v h = (entry, refl, ground (arith, h), ground (arith, h))

  new-Backed :
      (size : ℤ) (ttl : ℕ) (c : LruCache K V lru)
      → new_lru_cache_with_ttl K V lru size ttl ≡ some c
      → Backed c.cache [] × (c.ttl ≡ ttl)
  unfolding new_lru_cache_with_ttl
  new-Backed size ttl c h = elim (Option-cases (lru.new size)) [
    | inl refused ↦ absurd (ground (arith, refused, h))
    | inr (s, made) ↦ (
      (λ k e p. absurd (ground (arith, made, h, p, laws.new-peek size s k made))),
      ground (arith, made, h),
    )
  ]

  -- After any history of calls on a new cache, a value that `Get` returns is the one that was last
  -- stored under the key, with no `Delete` or `Clear` since, and if the cache has an expiry, the
  -- time of that entry has not run out. So eviction and expiry lose values, but never bring back an
  -- old one.
  pub get-run :
      (size : ℤ) (ttl : ℕ) (c : LruCache K V lru) (calls : List (Call K V)) (now : ℕ) (k : K)
      (v : V)
      → new_lru_cache_with_ttl K V lru size ttl ≡ some c
      → (get K V lru now (run K V lru c calls) k).1 ≡ some v
      → (e : CacheEntry V) × (lookup k (ideal_run K V ttl [] calls) ≡ some e)
        × (e.value ≡ v)
        × ((ttl ≡ 0) ⊎ (now ≤ e.expires_at))
  unfolding get
  get-run size ttl c calls now k v new hit =
      let (b₀, t₀) = new-Backed size ttl c new in
      let (b, t) = run-Backed c [] ttl calls t₀ b₀ in
      let (e, read, value, fresh) =
        found-hit now (run K V lru c calls) k (lru.get (run K V lru c calls).cache k) v hit in
      (
        e,
        b k e (sym (laws.get-peek (run K V lru c calls).cache k) ∙ read),
        value,
        ground (arith, fresh, t),
      )

  found-some :
      (now : ℕ) (c : LruCache K V lru) (k : K) (r : lru.State × Option (CacheEntry V))
      (e : CacheEntry V)
      → r.1 ≡ some e
      → (found K V lru now c k r).1 ≡ (if expired K V lru now c e then none else some e.value)
  unfolding found
  found-some now c k (s, none) e h = cc
  found-some now c k (s, some entry) e h = ground (arith, h)

  -- A value just stored is read back exactly until its time has run out, and always if the cache
  -- has no expiry.
  pub get-set :
      (c : LruCache K V lru) (now later : ℕ) (k : K) (v : V)
      → ((c.ttl ≡ 0) ⊎ (later ≤ now + c.ttl))
        ↔ ((get K V lru later (set K V lru now c k v) k).1 ≡ some v)
  unfolding get set add_entry
  get-set c now later k v = ground (
    arith,
    found-some later (set K V lru now c k v) k (lru.get (lru.add c.cache k entry).0 k) entry read,
  )
    where
      entry : CacheEntry V
      entry = record { value = v; expires_at = expiry K V lru now c }

      read : (lru.get (lru.add c.cache k entry).0 k).1 ≡ some entry
      read = laws.get-peek (lru.add c.cache k entry).0 k ∙ laws.peek-add_self c.cache k entry
