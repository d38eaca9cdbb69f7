-- ===== src/Tokenize/Entries.antt =====
-- tokenize_service.go, `customTransformations`: its entries.
use mathlib.Core.List.{Memᴰ}
use grpc_vault_ha.Prelude.{
  ◌≡◌, ◌≢◌, ◌⊎◌, inl, inr, sym, ap, subst, ◌∙◌, false, none, some, List, [], ◌∷◌, All, arith,
}
use grpc_vault_ha.Prelude.Text.{Text, text_eq}
use grpc_vault_ha.Prelude.Map.{
  Map, values, lookup, insert, erase, lookup-nil, erase-nil, lookup-insert_ne, lookup-erase_ne,
}
use grpc_vault_ha.Fpe
use grpc_vault_ha.Tokenize.Keys.{Transformation}

-- An entry is under its own name, is not built in, has an alphabet, and its name is not that of a
-- built-in one.
abbrev pub Sound : Text → Transformation → Type 0
Sound name t =
    (t.name ≡ name)
    × (t.built_in ≡ false)
    × (t.alphabet ≢ [])
    × (name ≢ [])
    × (Fpe.get_transformation name ≡ none)

-- All entries are, and each name has one.
abbrev pub Entries : Map Text Transformation → Type 0
Entries [] = Unit
Entries ((k, t) ∷ m) = Sound k t × (lookup k m ≡ none) × Entries m

module _ (k j : Text) (u : Transformation) (m : Map Text Transformation) where
  pub insert-cons_self : (t : Transformation) → k ≡ j → insert k t ((j, u) ∷ m) ≡ (k, t) ∷ m
  unfolding insert
  insert-cons_self t e = ground (arith, e)

  pub insert-cons_ne :
      (t : Transformation) → k ≢ j → insert k t ((j, u) ∷ m) ≡ (j, u) ∷ insert k t m
  unfolding insert
  insert-cons_ne t e = ground (arith, e)

  pub erase-cons_self : k ≡ j → erase k ((j, u) ∷ m) ≡ erase k m
  unfolding erase
  erase-cons_self e = ground (arith, e)

  pub erase-cons_ne : k ≢ j → erase k ((j, u) ∷ m) ≡ (j, u) ∷ erase k m
  unfolding erase
  erase-cons_ne e = ground (arith, e)

pub insert-Entries :
    (k : Text) (t : Transformation) (m : Map Text Transformation)
    → Sound k t
    → Entries m
    → Entries (insert k t m)
insert-Entries k t [] h v = unfold insert in (h, lookup-nil k, tt)
insert-Entries k t ((j, u) ∷ m) h (hu, once, v) = elim (text_eq.dec k j) [
  | yes same ↦ rw (insert-cons_self k j u m t same) (h, ap (λ i. lookup i m) same ∙ once, v)
  | no other ↦
      rw (insert-cons_ne k j u m t other)
        (hu, lookup-insert_ne j k t m (λ e. other (sym e)) ∙ once, insert-Entries k t m h v)
]

pub erase-Entries : (k : Text) (m : Map Text Transformation) → Entries m → Entries (erase k m)
erase-Entries k [] v = rw (erase-nil {V = Transformation} k) tt
erase-Entries k ((j, u) ∷ m) (hu, once, v) = elim (text_eq.dec k j) [
  | yes same ↦ rw (erase-cons_self k j u m same) (erase-Entries k m v)
  | no other ↦
      rw (erase-cons_ne k j u m other)
        (hu, lookup-erase_ne j k m (λ e. other (sym e)) ∙ once, erase-Entries k m v)
]

module _ {V : Type 0} where
  pub lookup-cons_inv :
      (k j : Text) (v w : V) (m : Map Text V)
      → lookup k ((j, w) ∷ m) ≡ some v
      → ((k ≡ j) × (v ≡ w)) ⊎ ((k ≢ j) × (lookup k m ≡ some v))
  unfolding lookup
  lookup-cons_inv k j v w m h = elim (text_eq.dec k j) [
    | yes same ↦ inl (same, ground (arith, same, h))
    | no other ↦ inr (other, ground (arith, other, h))
  ]

  pub lookup-cons_self : (k : Text) (w : V) (m : Map Text V) → lookup k ((k, w) ∷ m) ≡ some w
  unfolding lookup
  lookup-cons_self k w m = ground arith

  pub lookup-cons_ne :
      (k j : Text) (w : V) (m : Map Text V) → k ≢ j → lookup k ((j, w) ∷ m) ≡ lookup k m
  unfolding lookup
  lookup-cons_ne k j w m h = ground (arith, h)

  pub not_none : {v : V} → none ≡ some v → ⊥
  not_none e = cc

  pub pair_eq : (k j : Text) (v w : V) → k ≡ j → v ≡ w → ◌≡◌ {A = Text × V} (k, v) (j, w)
  pair_eq k j v w p q = cc (p, q)

  pub lookup-Mem : (k : Text) (v : V) (m : Map Text V) → lookup k m ≡ some v → Memᴰ (k, v) m
  lookup-Mem k v [] h = absurd (not_none (sym (lookup-nil k) ∙ h))
  lookup-Mem k v ((j, w) ∷ m) h = elim (lookup-cons_inv k j v w m h) [
    | inl (same, value) ↦ Memᴰ.head (pair_eq k j v w same value)
    | inr (other, rest) ↦ Memᴰ.tail (lookup-Mem k v m rest)
  ]

pub Mem-Sound :
    (k : Text) (t : Transformation) (m : Map Text Transformation)
    → Entries m
    → Memᴰ (k, t) m
    → Sound k t
Mem-Sound k t [] v d = elim d [ ]
Mem-Sound k t ((j, u) ∷ m) (h, once, v) (Memᴰ.head e) = subst (λ p. Sound p.0 p.1) (sym e) h
Mem-Sound k t ((j, u) ∷ m) (h, once, v) (Memᴰ.tail d) = Mem-Sound k t m v d

pub listed_custom :
    (t : Transformation) (m : Map Text Transformation)
    → Entries m
    → Memᴰ t (values m)
    → Memᴰ (t.name, t) m
listed_custom t [] v d = elim d [ ]
listed_custom t ((j, u) ∷ m) (h, once, v) (Memᴰ.head e) =
    Memᴰ.head (pair_eq t.name j t u (ap (λ x. x.name) e ∙ h.0) e)
listed_custom t ((j, u) ∷ m) (h, once, v) (Memᴰ.tail d) = Memᴰ.tail (listed_custom t m v d)

pub Mem-lookup :
    (k : Text) (t : Transformation) (m : Map Text Transformation)
    → Entries m
    → Memᴰ (k, t) m
    → lookup k m ≡ some t
Mem-lookup k t [] v d = elim d [ ]
Mem-lookup k t ((j, u) ∷ m) (h, once, v) (Memᴰ.head e) =
    ap (λ i. lookup k ((i, u) ∷ m)) (sym (ap (λ p. p.0) e))
    ∙ lookup-cons_self k u m
    ∙ ap some (sym (ap (λ p. p.1) e))
Mem-lookup k t ((j, u) ∷ m) (h, once, v) (Memᴰ.tail d) = elim (text_eq.dec k j) [
  | yes same ↦ absurd (not_none (sym once ∙ ap (λ i. lookup i m) (sym same) ∙ Mem-lookup k t m v d))
  | no other ↦ lookup-cons_ne k j u m other ∙ Mem-lookup k t m v d
]

pub Mem-values :
    (k : Text) (t : Transformation) (m : Map Text Transformation)
    → Memᴰ (k, t) m
    → Memᴰ t (values m)
Mem-values k t [] d = elim d [ ]
Mem-values k t ((j, u) ∷ m) (Memᴰ.head e) = Memᴰ.head (ap (λ p. p.1) e)
Mem-values k t ((j, u) ∷ m) (Memᴰ.tail d) = Memᴰ.tail (Mem-values k t m d)

pub All-Mem : {A : Type 0} (P : A → Type 0) (x : A) (xs : List A) → All P xs → Memᴰ x xs → P x
All-Mem P x [] h d = elim d [ ]
All-Mem P x (y ∷ ys) (h, hs) (Memᴰ.head e) = subst P (sym e) h
All-Mem P x (y ∷ ys) (h, hs) (Memᴰ.tail d) = All-Mem P x ys hs d
