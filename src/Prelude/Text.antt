-- ===== src/Prelude/Text.antt =====
-- Go strings and byte slices: lists of bytes. A text literal of the source is written by `codes`.
use Prim.Native.Char.{code}
use Prim.Native.String.{String}
use Prim.Native.Nat.{ℕ}
use mathlib.Core.Path.{refl, ap₂}
use mathlib.Core.Logic.{dite}
use mathlib.Core.List.{List, [], ◌∷◌, head-eq_of_cons-eq, tail-eq_of_cons-eq}
unfoldable pub use native.Mathlib.Decide.{ℕ_discrete}
use grpc_vault_ha.Prelude.Tests.{Eq}

abbrev pub Text : Type 0
Text = List ℕ

abbrev pub codes : String → Text
codes String.[] = []
codes (String.◌∷◌ c s) = code c ∷ codes s

unfoldable pub text_dec : Discrete Text
unfolding ℕ_discrete
text_dec [] [] = yes refl
text_dec [] (b ∷ t) = no (λ p. cc)
text_dec (a ∷ s) [] = no (λ p. cc)
text_dec (a ∷ s) (b ∷ t) =
    dite (ℕ_discrete a b)
      (λ p. dite (text_dec s t) (λ q. yes (ap₂ ◌∷◌ p q)) (λ n. no (λ q. n (tail-eq_of_cons-eq q))))
      (λ n. no (λ q. n (head-eq_of_cons-eq q)))

instance abbrev pub text_eq : Eq Text
text_eq = record { dec = text_dec }
