-- ===== src/Jwt/Toy.antt =====
-- A concrete golang-jwt for the tests, which signs the claims of one token only.
use grpc_vault_ha.Prelude.{
  ℕ, ◌≡◌, ◌≢◌, refl, sym, ap, subst, ◌∙◌, Bool, true, false, ◌&&◌, Option, none, some, List, [],
  ◌∷◌, arith, eqb, if◌then◌else◌, ◌==◌, Result, ok, err,
}
use grpc_vault_ha.Prelude.Int.{ℤ, pos, leb_ℤ, ltb_ℤ, ◌≤ℤ◌, ◌<ℤ◌, eqb_ℤ, eqb_ℤ→eq}
use grpc_vault_ha.Prelude.Text.{Text, codes, text_eq, text_dec}
use grpc_vault_ha.Prelude.Map.{Map}
use grpc_vault_ha.Jwt.{Claims, JwtLibrary, Parsed, parsed, token_expired, parse_failed, Error}
use grpc_vault_ha.Jwt.Lifetime.{Laws, decoded}

-- Ten seconds for bob.
abbrev pub bob : Claims
bob = record {
  issuer = codes "vault-auth";
  audience = codes "vault-platform" ∷ [];
  subject = codes "bob";
  expires_at = pos 10000000000;
  issued_at = pos 0;
  not_before = pos 0;
  id = codes "7";
  identity = codes "bob";
  token_id = codes "7";
  policies = codes "default" ∷ [];
  metadata = [];
}

abbrev pub only : Text → List Text → Bool
only x [] = false
only x (y ∷ []) = x == y
only x (y ∷ z ∷ ys) = false

abbrev pub no_entries : Map Text Text → Bool
no_entries [] = true
no_entries (e ∷ m) = false

abbrev pub heads : Claims → Bool
heads c =
    c.issuer == codes "vault-auth"
    && only (codes "vault-platform") c.audience
    && c.subject == codes "bob"

abbrev pub times : Claims → Bool
times c =
    eqb_ℤ c.expires_at (pos 10000000000) && eqb_ℤ c.issued_at (pos 0) && eqb_ℤ c.not_before (pos 0)

abbrev pub up_to_id : Claims → Bool
up_to_id c = times c && heads c && c.id == codes "7"

abbrev pub up_to_identity : Claims → Bool
up_to_identity c = up_to_id c && c.identity == codes "bob"

abbrev pub up_to_token_id : Claims → Bool
up_to_token_id c = up_to_identity c && c.token_id == codes "7"

abbrev pub all_but_metadata : Claims → Bool
all_but_metadata c = up_to_token_id c && only (codes "default") c.policies

abbrev pub is_bob : Claims → Bool
is_bob c = all_but_metadata c && no_entries c.metadata

abbrev pub answer : ℤ → Text → Bool → Parsed
answer now token known =
    if known
    then (if ltb_ℤ now (pos 0)
        then parse_failed
        else if leb_ℤ (pos 10000000000) now
        then token_expired
        else parsed (decoded bob) true)
    else parse_failed

abbrev pub key_given : {K : Type 0} → Result Error K → Bool
key_given (ok k) = true
key_given (err e) = false
key_given grpc_vault_ha.Prelude.panic = false

abbrev pub toy_jwt : JwtLibrary
toy_jwt = record {
  PrivateKey = Unit;
  PublicKey = Unit;
  public_key = λ k. k;
  signed_string = λ k c. if is_bob c then some (codes "signed") else none;
  parse_with_claims =
      λ now f token. answer now token (token == codes "signed" && key_given (f true));
  parse_unverified = λ token. if token == codes "signed" then some (decoded bob) else none;
}

only_eq : (x : Text) (ys : List Text) → only x ys ≡ true → ys ≡ x ∷ []
only_eq x [] h = cc
only_eq x (y ∷ []) h = ground (arith, h)
only_eq x (y ∷ z ∷ ys) h = cc

no_entries_eq : (m : Map Text Text) → no_entries m ≡ true → m ≡ []
no_entries_eq [] h = refl
no_entries_eq (e ∷ m) h = cc

same_text : (a b : Text) → (a == b) ≡ true → a ≡ b
same_text a b h = ground (arith, h)

conj : (a b : Bool) → a && b ≡ true → (a ≡ true) × (b ≡ true)
conj a b h = (ground (arith, h), ground (arith, h))

claims_eq :
    (c d : Claims)
    → c.issuer ≡ d.issuer
    → c.audience ≡ d.audience
    → c.subject ≡ d.subject
    → c.expires_at ≡ d.expires_at
    → c.issued_at ≡ d.issued_at
    → c.not_before ≡ d.not_before
    → c.id ≡ d.id
    → c.identity ≡ d.identity
    → c.token_id ≡ d.token_id
    → c.policies ≡ d.policies
    → c.metadata ≡ d.metadata
    → c ≡ d
claims_eq c d h1 h2 h3 h4 h5 h6 h7 h8 h9 h10 h11 = cc

is_bob_eq : (c : Claims) → is_bob c ≡ true → c ≡ bob
is_bob_eq c h =
    let (t10, e11) = conj (all_but_metadata c) (no_entries c.metadata) h in
    let (t9, e10) = conj (up_to_token_id c) (only (codes "default") c.policies) t10 in
    let (t8, e9) = conj (up_to_identity c) (c.token_id == codes "7") t9 in
    let (t7, e8) = conj (up_to_id c) (c.identity == codes "bob") t8 in
    let (t6, e7) = conj (times c && heads c) (c.id == codes "7") t7 in
    let (u, v) = conj (times c) (heads c) t6 in
    let (w, e6) =
      conj (eqb_ℤ c.expires_at (pos 10000000000) && eqb_ℤ c.issued_at (pos 0))
        (eqb_ℤ c.not_before (pos 0)) u in
    let (e4, e5) = conj (eqb_ℤ c.expires_at (pos 10000000000)) (eqb_ℤ c.issued_at (pos 0)) w in
    let (x, e3) =
      conj (c.issuer == codes "vault-auth" && only (codes "vault-platform") c.audience)
        (c.subject == codes "bob") v in
    let (e1, e2) =
      conj (c.issuer == codes "vault-auth") (only (codes "vault-platform") c.audience) x in
    claims_eq c bob (same_text _ _ e1) (only_eq _ _ e2) (same_text _ _ e3) (eqb_ℤ→eq _ _ e4)
      (eqb_ℤ→eq _ _ e5) (eqb_ℤ→eq _ _ e6) (same_text _ _ e7) (same_text _ _ e8) (same_text _ _ e9)
      (only_eq _ _ e10) (no_entries_eq _ e11)

signed_inv :
    (c : Claims) (token : Text)
    → (if is_bob c then some (codes "signed") else none) ≡ some token
    → (is_bob c ≡ true) × (token ≡ codes "signed")
signed_inv c token h = (ground (arith, h), ground (arith, h))

answer_valid :
    (now : ℤ)
    → pos 0 ≤ℤ now
    → now <ℤ pos 10000000000
    → answer now (codes "signed") true ≡ parsed (decoded bob) true
answer_valid now h i = ground (arith, h, i)

answer_expired :
    (now : ℤ)
    → pos 0 ≤ℤ now
    → pos 10000000000 ≤ℤ now
    → answer now (codes "signed") true ≡ token_expired
answer_expired now h i = ground (arith, h, i)

toy_parse :
    (now : ℤ) (c : Claims) (token : Text) (f : Bool → Result Error (Unit {0}))
    → is_bob c ≡ true
    → token ≡ codes "signed"
    → f true ≡ ok tt
    → answer now token (token == codes "signed" && key_given (f true))
      ≡ answer now (codes "signed") true
toy_parse now c token f b e k = rw (e, k) (unfold text_dec in refl)

pub toy_jwt-Laws : Laws toy_jwt
toy_jwt-Laws = record {
  parse-signed = λ now key c token f s k start end.
      let (b, e) = signed_inv c token s in
      let same = is_bob_eq c b in
      toy_parse now c token f b e k
      ∙ answer_valid now (subst (λ d. d.not_before ≤ℤ now) same start)
          (subst (λ d. now <ℤ d.expires_at) same end)
      ∙ ap (λ d. parsed (decoded d) true) (sym same);
  parse-expired = λ now key c token f s k start end.
      let (b, e) = signed_inv c token s in
      let same = is_bob_eq c b in
      toy_parse now c token f b e k
      ∙ answer_expired now (subst (λ d. d.not_before ≤ℤ now) same start)
          (subst (λ d. d.expires_at ≤ℤ now) same end);
}
