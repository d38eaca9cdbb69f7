-- ===== src/Strings/Split.antt =====
-- `strings.Split` at a one-byte separator, `HasPrefix` and `Contains`.
use grpc_vault_ha.Prelude.{
  ℕ, ◌≡◌, refl, ap, ◌≢◌, List, [], ◌∷◌, ◌++◌, arith, eqb, if◌then◌else◌, All, ◌∙◌, Bool-cases, inl,
  inr,
}
use grpc_vault_ha.Prelude.Text.{Text}

-- The first piece gains a byte.
abbrev glue : ℕ → List Text → List Text
glue b [] = (b ∷ []) ∷ []
glue b (piece ∷ more) = (b ∷ piece) ∷ more

-- `strings.Split(s, sep)`: one piece more than there are separators.
unfoldable pub split : ℕ → Text → List Text
split sep [] = [] ∷ []
split sep (b ∷ s) = let rest = split sep s in if eqb b sep then [] ∷ rest else glue b rest

-- No byte of the text is the separator.
abbrev pub Free : ℕ → Text → Type 0
Free sep = All (λ b. b ≢ sep)

pub split-Free : (sep : ℕ) (s : Text) → Free sep s → split sep s ≡ s ∷ []
unfolding split
split-Free sep [] h = refl
split-Free sep (b ∷ s) h = ground (arith, split-Free sep s h.1, h.0)

-- A piece with no separator, then one, then the rest.
pub split-append : (sep : ℕ) (s t : Text) → Free sep s → split sep (s ++ sep ∷ t) ≡ s ∷ split sep t
unfolding split
split-append sep [] t h = ground arith
split-append sep (b ∷ s) t h = ground (arith, split-append sep s t h.1, h.0)

-- `strings.Join`
unfoldable pub join : ℕ → List Text → Text
join sep [] = []
join sep (piece ∷ []) = piece
join sep (piece ∷ next ∷ more) = piece ++ sep ∷ join sep (next ∷ more)

join-glue :
    (sep b : ℕ) (piece : Text) (more : List Text)
    → join sep ((b ∷ piece) ∷ more) ≡ b ∷ join sep (piece ∷ more)
unfolding join
join-glue sep b piece [] = refl
join-glue sep b piece (next ∷ more) = refl

-- The pieces of a text, none of which holds the separator.
abbrev pub Pieces : ℕ → Text → List Text → Type 0
Pieces sep s pieces = (join sep pieces ≡ s) × (pieces ≢ []) × All (Free sep) pieces

split_step :
    (sep b : ℕ) (s : Text) (pieces : List Text)
    → Pieces sep s pieces
    → Pieces sep (b ∷ s) (if eqb b sep then [] ∷ pieces else glue b pieces)
split_step sep b s [] (e, ne, free) = absurd (ne refl)
split_step sep b s (piece ∷ more) (e, ne, (f, fs)) = elim (Bool-cases (eqb b sep)) [
  | inl same ↦ rw same (unfold join in ground (arith, same), λ c. cc, (tt, (f, fs)))
  | inr other ↦
      rw other (
        join-glue sep b piece more ∙ ap (◌∷◌ b) e,
        λ c. cc,
        ((λ c. ground (arith, other, c), f), fs),
      )
]

pub split-Pieces : (sep : ℕ) (s : Text) → Pieces sep s (split sep s)
unfolding split
split-Pieces sep [] = (unfold join in refl, λ c. cc, (tt, tt))
split-Pieces sep (b ∷ s) = split_step sep b s (split sep s) (split-Pieces sep s)
