-- ===== src/Strings/Trim.antt =====
-- `strings.Trim` at a one-byte set, `HasPrefix`, `HasSuffix`, `TrimSuffix` and `Contains`.
use grpc_vault_ha.Prelude.{
  ℕ, ◌-◌, ◌≡◌, ◌↔◌, refl, sym, ap, ◌∙◌, Bool, true, ◌&&◌, [], ◌∷◌, ◌++◌, reverse, any, arith, leb,
  eqb, if◌then◌else◌, ◌==◌, length, length-append, take, drop, take-append-drop,
}
use grpc_vault_ha.Prelude.Text.{Text, text_eq}

unfoldable pub trim_left : ℕ → Text → Text
trim_left c [] = []
trim_left c (b ∷ s) = let rest = trim_left c s in if eqb b c then rest else b ∷ s

-- `strings.Trim(s, c)`
unfoldable pub trim : ℕ → Text → Text
unfolding trim_left
trim c s = reverse (trim_left c (reverse (trim_left c s)))

unfoldable pub has_prefix : Text → Text → Bool
has_prefix s prefix = leb (length prefix) (length s) && (take (length prefix) s == prefix)

unfoldable pub has_suffix : Text → Text → Bool
has_suffix s suffix =
    leb (length suffix) (length s) && (drop (length s - length suffix) s == suffix)

unfoldable pub trim_suffix : Text → Text → Text
unfolding has_suffix
trim_suffix s suffix = if has_suffix s suffix then take (length s - length suffix) s else s

-- `strings.Contains` for one byte.
unfoldable pub contains : Text → ℕ → Bool
contains s c = any (λ b. eqb b c) s

take-append : (s t : Text) → take (length s) (s ++ t) ≡ s
take-append [] t = refl
take-append (b ∷ s) t = ap (◌∷◌ b) (take-append s t)

drop-append : (s t : Text) → drop (length s) (s ++ t) ≡ t
drop-append [] t = refl
drop-append (b ∷ s) t = drop-append s t

length-append_sub : (s t : Text) → length (s ++ t) - length t ≡ length s
length-append_sub s t = omega (arith, length-append s t)

pub has_suffix-append : (s suffix : Text) → has_suffix (s ++ suffix) suffix ≡ true
unfolding has_suffix
has_suffix-append s suffix =
    rw (length-append_sub s suffix, drop-append s suffix) (ground (arith, length-append s suffix))

pub trim_suffix-append : (s suffix : Text) → trim_suffix (s ++ suffix) suffix ≡ s
unfolding trim_suffix
trim_suffix-append s suffix =
    rw (has_suffix-append s suffix, length-append_sub s suffix) (take-append s suffix)

-- The prefixes of a text are its beginnings.
pub has_prefix_iff :
    (s prefix : Text) → (has_prefix s prefix ≡ true) ↔ ((rest : Text) × (s ≡ prefix ++ rest))
unfolding has_prefix
has_prefix_iff s prefix = (
  λ h. (
    drop (length prefix) s,
    sym (take-append-drop (length prefix) s)
        ∙ ap (λ t. t ++ drop (length prefix) s) (ground (arith, h)),
  ),
  λ h. rw (h.1, take-append prefix (h.0)) (ground (arith, length-append prefix (h.0))),
)
