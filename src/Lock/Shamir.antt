-- ===== src/Lock/Shamir.antt =====
-- lock_service.go: its errors, the placeholder for Shamir's secret sharing, and `bytesEqual`.
use grpc_vault_ha.Prelude.{
  ℕ, zero, suc, ◌+◌, ◌%◌, ◌≡◌, refl, Bool, true, false, not, List, [], ◌∷◌, length, eqb,
  if◌then◌else◌, Result, ok, err, panic, arith, ◌↔◌,
}
use grpc_vault_ha.Prelude.Int.{ℤ, pos, negsuc}
use grpc_vault_ha.Prelude.Text.{Text}
use grpc_vault_ha.Keyring.Policy

-- `sealed_error` is `ErrSealed`.
pub data Error : Type 0 where
  sealed_error not_sealed not_initialized already_initialized invalid_key : Error
  secret_not_found random_failed no_shares : Error
  keyring_error : Policy.Error → Error

-- `byte(i + 1)` in front of the secret.
abbrev pub share : Text → ℕ → Text
share secret i = (i + 1) % 256 ∷ secret

-- The shares from number i on.
unfoldable pub shares_from : Text → ℕ → ℕ → List Text
shares_from secret i zero = []
shares_from secret i (suc n) = share secret i ∷ shares_from secret (i + 1) n

-- The threshold plays no part. `make` panics at a negative length.
unfoldable pub shamir_split : Text → ℤ → Result Error (List Text)
unfolding shares_from
shamir_split secret (pos n) = ok (shares_from secret 0 n)
shamir_split secret (negsuc n) = panic

-- The first share without its index; slicing an empty share panics.
unfoldable pub shamir_combine : List Text → Result Error Text
shamir_combine [] = err no_shares
shamir_combine ([] ∷ shares) = panic
shamir_combine ((index ∷ secret) ∷ shares) = ok secret

-- The loop of `bytesEqual`, over slices of one length.
unfoldable pub equal_bytes : Text → Text → Bool
equal_bytes [] b = true
equal_bytes (x ∷ a) [] = true
equal_bytes (x ∷ a) (y ∷ b) = if not (eqb x y) then false else equal_bytes a b

unfoldable pub bytes_equal : Text → Text → Bool
unfolding equal_bytes
bytes_equal a b = if not (eqb (length a) (length b)) then false else equal_bytes a b

equal_bytes-eq : (a b : Text) → length a ≡ length b → equal_bytes a b ≡ true → a ≡ b
unfolding equal_bytes
equal_bytes-eq [] [] l e = refl
equal_bytes-eq [] (y ∷ b) l e = absurd (omega arith)
equal_bytes-eq (x ∷ a) [] l e = absurd (omega arith)
equal_bytes-eq (x ∷ a) (y ∷ b) l e = ground (arith, equal_bytes-eq a b (omega arith))

equal_bytes_refl : (a : Text) → equal_bytes a a ≡ true
unfolding equal_bytes
equal_bytes_refl [] = refl
equal_bytes_refl (x ∷ a) = ground (arith, equal_bytes_refl a)

-- The comparison decides equality.
pub bytes_equal_iff : (a b : Text) → (bytes_equal a b ≡ true) ↔ (a ≡ b)
unfolding bytes_equal
bytes_equal_iff a b = (
  λ e. equal_bytes-eq a b (ground arith) (ground arith),
  λ e. rw e (ground (arith, equal_bytes_refl b)),
)
