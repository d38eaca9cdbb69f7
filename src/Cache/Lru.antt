-- ===== src/Cache/Lru.antt =====
-- github.com/hashicorp/golang-lru/v2, as far as lru.go calls it, and what it documents.
use grpc_vault_ha.Prelude.{◌≡◌, ◌≢◌, ◌⊎◌, sym, ◌∙◌, Bool, Option, none, some, arith, inl, inr, Eq}
use grpc_vault_ha.Prelude.Int.{ℤ}

-- `Add` tells whether an entry was evicted, `Remove` whether the key was present.
pub record LruList (K V : Type 0) : Type 1 where
  pub State : Type 0
  pub new : ℤ → Option State
  pub get : State → K → State × Option V
  pub peek : State → K → Option V
  pub add : State → K → V → State × Bool
  pub remove : State → K → State × Bool
  pub purge : State → State

-- An added value can be read, other entries may be evicted but do not change; a read or a removal
-- touches no other entry; a new or purged cache is empty.
pub record Laws (K V : Type 0) (lru : LruList K V) : Type 0 where
  pub new-peek : (size : ℤ) (s : lru.State) (k : K) → lru.new size ≡ some s → lru.peek s k ≡ none
  pub get-peek : (s : lru.State) (k : K) → (lru.get s k).1 ≡ lru.peek s k
  pub peek-get : (s : lru.State) (k j : K) → lru.peek (lru.get s k).0 j ≡ lru.peek s j
  pub peek-add_self : (s : lru.State) (k : K) (v : V) → lru.peek (lru.add s k v).0 k ≡ some v
  pub peek-add_ne :
      (s : lru.State) (k j : K) (v : V)
      → j ≢ k
      → (lru.peek (lru.add s k v).0 j ≡ lru.peek s j) ⊎ (lru.peek (lru.add s k v).0 j ≡ none)
  pub peek-remove_self : (s : lru.State) (k : K) → lru.peek (lru.remove s k).0 k ≡ none
  pub peek-remove_ne :
      (s : lru.State) (k j : K) → j ≢ k → lru.peek (lru.remove s k).0 j ≡ lru.peek s j
  pub peek-purge : (s : lru.State) (k : K) → lru.peek (lru.purge s) k ≡ none

-- An entry read after `Add` is the added one, or one that was there before.
pub peek-add_inv :
    {K V : Type 0} ⦃eq : Eq K⦄ (lru : LruList K V) (laws : Laws K V lru) (s : lru.State) (k j : K)
    (v e : V)
    → lru.peek (lru.add s k v).0 j ≡ some e
    → ((j ≡ k) × (e ≡ v)) ⊎ ((j ≢ k) × (lru.peek s j ≡ some e))
peek-add_inv ⦃eq⦄ lru laws s k j v e p = elim (eq.dec j k) [
  | yes same ↦ inl (same, ground (arith, same, p, laws.peek-add_self s k v))
  | no ne ↦ elim (laws.peek-add_ne s k j v ne) [
    | inl kept ↦ inr (ne, sym kept ∙ p)
    | inr evicted ↦ absurd (ground (arith, evicted, p))
  ]
]
