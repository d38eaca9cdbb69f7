-- ===== src/Keyring/Versions.antt =====
-- keyring.go: how the versions of one policy are numbered, and what `generateKeyVersion` and the
-- options do to that.
use grpc_vault_ha.Prelude.{
  ℕ, suc, ◌+◌, ◌≤◌, ◌<◌, ◌≡◌, refl, ap, ◌∙◌, Option, none, some, List, [], ◌∷◌, ◌++◌, arith, length,
  length-append, ok, if◌then◌else◌, Option-cases, inl, inr, Bool-cases, eqb,
}
use grpc_vault_ha.Prelude.Int.{ℤ, pos, eqb_ℤ, max_int, int_inc, eqb_ℤ→eq}
use grpc_vault_ha.Prelude.Text.{Text}
use grpc_vault_ha.Keyring.Policy.{
  KeyPolicy, Key, KeyOption, apply_option, apply_options, generate_key_version, find_version,
  new_key, key_size,
}

-- The keys carry the versions i + 1, i + 2, … in this order.
abbrev pub Numbered : ℕ → List Key → Type 0
Numbered i [] = Unit {0}
Numbered i (k ∷ ks) = (k.version ≡ pos (suc i)) × Numbered (suc i) ks

-- A policy's keys are numbered from 1 to its latest version.
pub record IsVersioned (p : KeyPolicy) : Type 0 where
  pub numbered : Numbered 0 p.keys
  pub latest : p.latest_version ≡ pos (length p.keys)

Numbered-concat :
    (i : ℕ) (ks : List Key) (k : Key)
    → Numbered i ks
    → k.version ≡ pos (suc (i + length ks))
    → Numbered i (ks ++ k ∷ [])
Numbered-concat i [] k n e = (ground arith, tt)
Numbered-concat i (x ∷ ks) k (v, n) e =
    (v, Numbered-concat (suc i) ks k n (e ∙ ap pos (omega arith)))

-- What `generateKeyVersion` adds: one key, numbered next, and nothing else changes.
pub record Extends (p q : KeyPolicy) : Type 0 where
  pub fresh : Key
  pub keys : q.keys ≡ p.keys ++ fresh ∷ []
  pub version : fresh.version ≡ q.latest_version
  pub next : q.latest_version ≡ int_inc p.latest_version
  pub name : q.name ≡ p.name
  pub min : q.min_decryption_version ≡ p.min_decryption_version

pub generate_key_version-Extends :
    (random : ℕ → Option Text) (now : ℕ) (p : KeyPolicy) {q : KeyPolicy}
    → generate_key_version random now p ≡ ok q
    → Extends p q
unfolding generate_key_version
generate_key_version-Extends random now p {q} e =
    elim (Option-cases (random (key_size p.key_type))) [
      | inl failure ↦ absurd (failed failure)
      | inr (bytes, drawn) ↦ record {
        fresh = new_key p now bytes;
        keys = ground (arith, drawn);
        version = ground (arith, drawn);
        next = ground (arith, drawn);
        name = ground (arith, drawn);
        min = ground (arith, drawn);
      }
    ]
  where
    failed : random (key_size p.key_type) ≡ none → ⊥
    failed h = ground arith

-- The next version of a numbered policy is numbered, as long as the version fits an `int`.
pub Extends-IsVersioned :
    {p q : KeyPolicy} → Extends p q → length p.keys < max_int → IsVersioned p → IsVersioned q
Extends-IsVersioned {p} {q} x room v = record {
  numbered = rw x.keys (Numbered-concat 0 p.keys x.fresh v.numbered number);
  latest = step ∙ ap pos (omega (arith, ap length x.keys, length-append p.keys (x.fresh ∷ [])));
}
  where
    step : q.latest_version ≡ pos (suc (length p.keys))
    step = ground (arith, x.next, v.latest)

    number : x.fresh.version ≡ pos (suc (0 + length p.keys))
    number = x.version ∙ step ∙ ap pos (omega arith)

-- Options change neither the keys, nor the latest version, nor the name.
pub apply_options_keeps :
    (p : KeyPolicy) (os : List KeyOption)
    → ((apply_options p os).keys ≡ p.keys)
      × ((apply_options p os).latest_version ≡ p.latest_version)
      × ((apply_options p os).name ≡ p.name)
unfolding apply_options
apply_options_keeps p [] = (refl, refl, refl)
apply_options_keeps p (o ∷ os) =
    let (k, l, n) = apply_option_keeps o in
    let (k', l', n') = apply_options_keeps (apply_option p o) os in (k' ∙ k, l' ∙ l, n' ∙ n)
  where
    apply_option_keeps :
        (o : KeyOption)
        → ((apply_option p o).keys ≡ p.keys)
          × ((apply_option p o).latest_version ≡ p.latest_version)
          × ((apply_option p o).name ≡ p.name)
    apply_option_keeps o = unfold apply_option in ground arith

-- A search among numbered keys finds the version that is asked for, and nothing outside.
pub find_version_eq : (v : ℤ) (ks : List Key) (k : Key) → find_version v ks ≡ some k → k.version ≡ v
unfolding find_version
find_version_eq v [] k e = cc
find_version_eq v (x ∷ ks) k e = ground (arith, find_version_eq v ks k, eqb_ℤ→eq x.version v)

-- Every version from i + 1 to i + n is there.
pub find_version-Numbered :
    (n i : ℕ) (ks : List Key)
    → Numbered i ks
    → i < n
    → n ≤ i + length ks
    → (k : Key) × (find_version (pos n) ks ≡ some k)
unfolding find_version
find_version-Numbered n i [] m l h = absurd (omega arith)
find_version-Numbered n i (x ∷ ks) (v, m) l h = elim (Bool-cases (eqb n (suc i))) [
  | inl same ↦ (x, ground (arith, v))
  | inr other ↦
      let (k, e) = find_version-Numbered n (suc i) ks m (ground arith) (omega arith) in
      (k, ground (arith, v, e))
]

-- A version beyond the last one is not.
pub find_version_beyond :
    (n i : ℕ) (ks : List Key) → Numbered i ks → i + length ks < n → find_version (pos n) ks ≡ none
unfolding find_version
find_version_beyond n i [] m h = refl
find_version_beyond n i (x ∷ ks) (v, m) h =
    ground (arith, v, find_version_beyond n (suc i) ks m (omega arith))

-- A new key at the end is found if no earlier one has its version; the others are found as before.
pub find_version-concat :
    (v : ℤ) (ks : List Key) (k : Key)
    → find_version v (ks ++ k ∷ []) ≡ elim (find_version v ks) [
      | some x ↦ some x
      | none ↦ (if eqb_ℤ k.version v then some k else none)
    ]
unfolding find_version
find_version-concat v [] k = refl
find_version-concat v (x ∷ ks) k = ground (arith, find_version-concat v ks k)
