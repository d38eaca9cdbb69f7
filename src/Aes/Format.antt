-- ===== src/Aes/Format.antt =====
-- aes.go, `ParseCiphertext` and the format that `EncryptWithNonce` writes.
use grpc_vault_ha.Prelude.{◌≡◌, refl, ◌≢◌, some, List, [], ◌∷◌, ◌++◌, arith, ok}
use grpc_vault_ha.Prelude.Int.{ℤ}
use grpc_vault_ha.Prelude.Text.{Text, text_eq}
use grpc_vault_ha.Strings.Split.{split, Free, split-Free, split-append, join, split-Pieces, Pieces}
use grpc_vault_ha.Strings.Decimal.{atoi}
use grpc_vault_ha.Aes.{ciphertext_prefix, parse_version, parse_parts, parse_ciphertext}

-- The text of a ciphertext with the given version digits and base64 data.
abbrev pub format : Text → Text → Text
format digits payload = ciphertext_prefix ++ b':' ∷ ((b'v' ∷ digits) ++ b':' ∷ payload)

parse_parts_lem :
    (digits payload : Text) (i : ℤ)
    → digits ≢ []
    → atoi digits ≡ some i
    → parse_parts (ciphertext_prefix ∷ (b'v' ∷ digits) ∷ payload ∷ []) ≡ ok (i, payload)
unfolding parse_parts
parse_parts_lem [] payload i h e = absurd (h refl)
parse_parts_lem (d ∷ ds) payload i h e = ground (arith)

split-format :
    (digits payload : Text)
    → Free b':' digits
    → Free b':' payload
    → split b':' (format digits payload) ≡ ciphertext_prefix ∷ (b'v' ∷ digits) ∷ payload ∷ []
split-format digits payload f g = rw (
  split-append b':' ciphertext_prefix ((b'v' ∷ digits) ++ b':' ∷ payload) (omega arith),
  split-append b':' (b'v' ∷ digits) payload (omega arith, f),
  split-Free b':' payload g,
)

-- A well-formed text is parsed into its version and its data.
pub parse_ciphertext-format :
    (digits payload : Text) (i : ℤ)
    → digits ≢ []
    → atoi digits ≡ some i
    → Free b':' digits
    → Free b':' payload
    → parse_ciphertext (format digits payload) ≡ ok (i, payload)
unfolding parse_ciphertext
parse_ciphertext-format digits payload i h e f g =
    rw (split-format digits payload f g) (parse_parts_lem digits payload i h e)

-- What a text looks like that `ParseCiphertext` accepts.
abbrev pub Accepted : Text → ℤ → Text → Type 0
Accepted s i payload =
    (digits : Text) × (s ≡ format digits payload) × (atoi digits ≡ some i) × Free b':' payload

parse_version_inv :
    (version payload rest : Text) (i : ℤ)
    → parse_version version payload ≡ ok (i, rest)
    → (digits : Text) × (version ≡ b'v' ∷ digits) × (atoi digits ≡ some i) × (rest ≡ payload)
unfolding parse_version
parse_version_inv [] payload rest i e = cc
parse_version_inv (v ∷ digits) payload rest i e = (digits, ground arith, ground arith, ground arith)

parse_parts_inv :
    (s : Text) (parts : List Text) (i : ℤ) (rest : Text)
    → Pieces b':' s parts
    → parse_parts parts ≡ ok (i, rest)
    → Accepted s i rest
unfolding parse_parts
parse_parts_inv s [] i rest p e = cc
parse_parts_inv s (a ∷ []) i rest p e = cc
parse_parts_inv s (a ∷ b ∷ []) i rest p e = cc
parse_parts_inv s (a ∷ b ∷ c ∷ d ∷ more) i rest p e = cc
parse_parts_inv s (a ∷ b ∷ c ∷ []) i rest (j, _, (_, (_, (f, _)))) e =
    let same : a ≡ ciphertext_prefix = ground arith in
    let (digits, v, n, r) = parse_version_inv b c rest i (ground arith) in
    (digits, unfold join in ground (arith, same, v, r, j), n, ground (arith, r, f))

-- Only a text `vault:v<digits>:<data>` is accepted, with the number that the digits stand for and
-- with data that holds no colon.
pub parse_ciphertext-Accepted :
    (s : Text) (i : ℤ) (payload : Text)
    → parse_ciphertext s ≡ ok (i, payload)
    → Accepted s i payload
unfolding parse_ciphertext
parse_ciphertext-Accepted s i payload e =
    parse_parts_inv s (split b':' s) i payload (split-Pieces b':' s) e
