-- ===== src/Auth/Policies.antt =====
-- services/auth/internal/repository/policy_repository.go: the stored policies.
use grpc_vault_ha.Prelude.{
  ℕ, ◌||◌, none, some, List, [], ◌∷◌, if◌then◌else◌, ◌==◌, Result, ok, err, length, ◌>>=◌, or_err,
}
use grpc_vault_ha.Prelude.Int.{ℤ}
use grpc_vault_ha.Prelude.Text.{Text, codes, text_eq}
use grpc_vault_ha.Prelude.Map.{Map, lookup, insert, erase, values}
use grpc_vault_ha.Acl.Rules.{Rule, capability_read, capability_update, capability_sudo}
use grpc_vault_ha.Auth.Page.{page}

pub data Error : Type 0 where
  policy_not_found policy_exists built_in_policy : Error

pub record StoredPolicy : Type 0 where
  pub name : Text
  pub description : Text
  pub rules : List Rule
  pub created_at : ℤ
  pub updated_at : ℤ

pub record PolicyRepository : Type 0 where
  pub policies : Map Text StoredPolicy

abbrev rule : Text → Text → Rule
rule path capability = record { path = path; capabilities = capability ∷ []; conditions = [] }

unfoldable pub new_policy_repository : ℤ → PolicyRepository
new_policy_repository now = record {
  policies =
      (
        codes "default",
        record {
          name = codes "default";
          description = codes "Default policy with basic self-service access";
          rules =
              rule (codes "auth/token/lookup-self") capability_read
              ∷ rule (codes "auth/token/renew-self") capability_update
              ∷ rule (codes "auth/token/revoke-self") capability_update
              ∷ [];
          created_at = now;
          updated_at = now;
        },
      )
      ∷ (
        codes "admin",
        record {
          name = codes "admin";
          description = codes "Full administrative access";
          rules = rule (codes "**") capability_sudo ∷ [];
          created_at = now;
          updated_at = now;
        },
      )
      ∷ [];
}

-- The caller's policy is given its times.
unfoldable pub create :
    ℤ → PolicyRepository → StoredPolicy → PolicyRepository × Result Error (Unit {0})
create now r p = elim (lookup p.name r.policies) [
  | some there ↦ (r, err policy_exists)
  | none ↦ (
    record {
      policies = insert p.name (record p { created_at = now; updated_at = now }) r.policies;
    },
    ok tt,
  )
]

unfoldable pub get : PolicyRepository → Text → Result Error StoredPolicy
get r name = or_err (lookup name r.policies) policy_not_found

-- `created_at` is that of the argument.
unfoldable pub update :
    ℤ → PolicyRepository → StoredPolicy → PolicyRepository × Result Error (Unit {0})
update now r p = elim (lookup p.name r.policies) [
  | none ↦ (r, err policy_not_found)
  | some there ↦
      (record { policies = insert p.name (record p { updated_at = now }) r.policies }, ok tt)
]

unfoldable pub delete : PolicyRepository → Text → PolicyRepository × Result Error (Unit {0})
delete r name = elim (lookup name r.policies) [
  | none ↦ (r, err policy_not_found)
  | some there ↦
      if (name == codes "default") || (name == codes "admin")
      then (r, err built_in_policy)
      else (record { policies = erase name r.policies }, ok tt)
]

unfoldable pub list : PolicyRepository → ℤ → ℤ → Result Error (List StoredPolicy × ℕ)
list r limit offset =
    let policies = values r.policies in
    page limit offset policies >>= λ shown. ok (shown, length policies)
