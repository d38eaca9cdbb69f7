-- ===== src/Lock/Lifecycle.antt =====
-- lock_service.go over histories of calls: what the seal protects, and what it loses.
use grpc_vault_ha.Prelude.{ℕ, ◌≡◌, refl, true, Option, List, [], ◌∷◌, All, arith, err}
use grpc_vault_ha.Prelude.Int.{ℤ}
use grpc_vault_ha.Prelude.Text.{Text, text_eq}
use grpc_vault_ha.Prelude.Map.{Map}
use grpc_vault_ha.Aes.{Library}
use grpc_vault_ha.Keyring.Policy.{KeyType}
use grpc_vault_ha.Lock.Shamir.{sealed_error}
use grpc_vault_ha.Lock.{LockService, initialize, unseal, seal_vault}
use grpc_vault_ha.Lock.Secrets.{
  put_secret, get_secret, delete_secret, list_secrets, create_key, get_key, get_encryption_key,
  rotate_key, list_keys,
}

-- The calls that change the service; those on the seal, and those on its contents.
pub data Call : Type 0 where
  initializes : (ℕ → ℕ → Option Text) → ℤ → ℤ → Call
  unseals : Text → Call
  seals : Call
  puts : ℕ → Text → Map Text Text → Call
  deletes : Text → Call
  creates : (ℕ → Option Text) → ℕ → Text → KeyType → Call
  rotates : (ℕ → Option Text) → ℕ → Text → Call

-- `Unseal` and `Initialize` are the only calls that can take the seal off.
abbrev pub KeepsSeal : Call → Type 0
KeepsSeal (initializes random shares threshold) = ⊥
KeepsSeal (unseals k) = ⊥
KeepsSeal _ = Unit {0}

module _ (lib : Library) where
  unfoldable pub step : LockService lib → Call → LockService lib
  step s (initializes random shares threshold) = (initialize lib random s shares threshold).0
  step s (unseals k) = (unseal lib s k).0
  step s seals = (seal_vault lib s).0
  step s (puts now path fields) = (put_secret lib now s path fields).0
  step s (deletes path) = (delete_secret lib s path).0
  step s (creates random now name key_type) = (create_key lib random now s name key_type).0
  step s (rotates random now name) = (rotate_key lib random now s name).0

  unfoldable pub run : LockService lib → List Call → LockService lib
  run s [] = s
  run s (c ∷ cs) = run (step s c) cs

  step_sealed : (s : LockService lib) (c : Call) → s.sealed ≡ true → KeepsSeal c → step s c ≡ s
  unfolding step seal_vault put_secret delete_secret create_key rotate_key
  step_sealed s (initializes random shares threshold) h k = absurd k
  step_sealed s (unseals k) h k' = absurd k'
  step_sealed s seals h k = ground (arith, h)
  step_sealed s (puts now path fields) h k = ground (arith, h)
  step_sealed s (deletes path) h k = ground (arith, h)
  step_sealed s (creates random now name key_type) h k = ground (arith, h)
  step_sealed s (rotates random now name) h k = ground (arith, h)

  -- What the reading methods of a sealed vault answer.
  pub record IsShut (s : LockService lib) : Type 0 where
    pub no_secret : (path : Text) → get_secret lib s path ≡ err sealed_error
    pub no_list : (prefix : Text) → list_secrets lib s prefix ≡ err sealed_error
    pub no_key : (name : Text) → get_key lib s name ≡ err sealed_error
    pub no_material : (name : Text) (v : ℤ) → get_encryption_key lib s name v ≡ err sealed_error
    pub no_names : list_keys lib s ≡ err sealed_error

  sealed-IsShut : (s : LockService lib) → s.sealed ≡ true → IsShut s
  unfolding get_secret list_secrets get_key get_encryption_key list_keys
  sealed-IsShut s h = record {
    no_secret = λ path. simp h;
    no_list = λ prefix. simp h;
    no_key = λ name. simp h;
    no_material = λ name v. simp h;
    no_names = simp h;
  }

  -- As long as no `Unseal` or `Initialize` comes, no call changes a sealed vault, and every
  -- reading method answers `ErrSealed`.
  pub run_sealed :
      (s : LockService lib) (cs : List Call)
      → s.sealed ≡ true
      → All KeepsSeal cs
      → (run s cs ≡ s) × IsShut (run s cs)
  unfolding run
  run_sealed s [] h k = (refl, sealed-IsShut s h)
  run_sealed s (c ∷ cs) h (k, ks) = rw (step_sealed s c h k) (run_sealed s cs h ks)
