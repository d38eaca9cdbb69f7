-- ===== src/Acl/Match.antt =====
-- policy.go, `pathMatches`: what the wildcards match.
use grpc_vault_ha.Prelude.{
  ◌≡◌, ◌↔◌, ◌⊎◌, refl, Bool, true, false, List, [], ◌∷◌, ◌++◌, arith, length,
}
use grpc_vault_ha.Prelude.Text.{Text, codes, text_eq}
use grpc_vault_ha.Strings.Split.{split}
use grpc_vault_ha.Strings.Trim.{
  trim, has_suffix, contains, has_prefix_iff, has_suffix-append, trim_suffix-append,
}
use grpc_vault_ha.Acl.{path_matches, match_segments}

-- The same number of segments, each equal to that of the pattern or under a `*`.
abbrev pub Segments : List Text → List Text → Type 0
Segments [] [] = Unit {0}
Segments (p ∷ pattern) (t ∷ target) = ((p ≡ codes "*") ⊎ (p ≡ t)) × Segments pattern target
Segments _ _ = ⊥

match_segments_iff :
    (pattern target : List Text)
    → (length pattern ≡ length target) × (match_segments pattern target ≡ true)
      ↔ Segments pattern target
unfolding match_segments
match_segments_iff [] [] = (λ h. tt, λ h. (refl, refl))
match_segments_iff [] (t ∷ target) = (λ h. absurd (omega (arith, h.0)), λ h. absurd h)
match_segments_iff (p ∷ pattern) [] = (λ h. absurd (omega (arith, h.0)), λ h. absurd h)
match_segments_iff (p ∷ pattern) (t ∷ target) = ground (arith, match_segments_iff pattern target)

module _ (glob : Text → Text → Bool) where
  pub path_matches-Segments :
      (pattern target : Text)
      → has_suffix (trim b'/' pattern) (codes "**") ≡ false
      → contains (trim b'/' pattern) b'*' ≡ true
      → (path_matches glob pattern target ≡ true)
        ↔ Segments (split b'/' (trim b'/' pattern)) (split b'/' (trim b'/' target))
  unfolding path_matches
  path_matches-Segments pattern target no_end star =
      simp (no_end, star)
        (ground (
          arith,
          match_segments_iff (split b'/' (trim b'/' pattern)) (split b'/' (trim b'/' target)),
        ))

  -- A pattern that is some path followed by a slash and two stars matches every path that begins
  -- with it: those below it, but also its siblings, since no slash is asked for.
  pub path_matches_below :
      (pattern prefix target : Text)
      → trim b'/' pattern ≡ (prefix ++ codes "/") ++ codes "**"
      → (path_matches glob pattern target ≡ true)
        ↔ ((rest : Text) × (trim b'/' target ≡ prefix ++ rest))
  unfolding path_matches
  path_matches_below pattern prefix target e =
      rw
        (
          e,
          has_suffix-append (prefix ++ codes "/") (codes "**"),
          trim_suffix-append (prefix ++ codes "/") (codes "**"),
          trim_suffix-append prefix (codes "/"),
        )
        (has_prefix_iff (trim b'/' target) prefix)
