-- ===== src/Acl/Rules.antt =====
-- policy.go: rules, policies, and the tests on a rule's capabilities and conditions.
use grpc_vault_ha.Prelude.{Bool, true, false, not, none, some, List, [], ◌∷◌, if◌then◌else◌, ◌==◌}
use grpc_vault_ha.Prelude.Text.{Text, codes, text_eq}
use grpc_vault_ha.Prelude.Map.{Map, lookup}

pub data Error : Type 0 where
  denied policy_not_found : Error

abbrev pub capability_read : Text
capability_read = codes "read"

abbrev pub capability_update : Text
capability_update = codes "update"

abbrev pub capability_sudo : Text
capability_sudo = codes "sudo"

abbrev pub capability_deny : Text
capability_deny = codes "deny"

-- A nil map of conditions is an empty one.
pub record Rule : Type 0 where
  pub path : Text
  pub capabilities : List Text
  pub conditions : Map Text Text

pub record Policy : Type 0 where
  pub name : Text
  pub rules : List Rule
  pub description : Text

pub record EvaluationResult : Type 0 where
  pub allowed : Bool
  pub matched_rule : Text
  pub denial_reason : Text

abbrev pub default_policy : Policy
default_policy = record {
  name = codes "default";
  description = codes "Default policy with basic access";
  rules =
      record {
        path = codes "auth/token/lookup-self";
        capabilities = capability_read ∷ [];
        conditions = [];
      }
      ∷ record {
        path = codes "auth/token/renew-self";
        capabilities = capability_update ∷ [];
        conditions = [];
      }
      ∷ record {
        path = codes "auth/token/revoke-self";
        capabilities = capability_update ∷ [];
        conditions = [];
      }
      ∷ [];
}

unfoldable pub has_capability : List Text → Text → Bool
has_capability [] target = false
has_capability (c ∷ capabilities) target =
    if c == target then true else has_capability capabilities target

unfoldable pub meets : Map Text Text → Text → Text → Bool
meets context key expected = elim (lookup key context) [
  | none ↦ false
  | some actual ↦ actual == expected
]

unfoldable pub check_conditions : Map Text Text → Map Text Text → Bool
unfolding meets
check_conditions [] context = true
check_conditions ((key, expected) ∷ conditions) context =
    let rest = check_conditions conditions context in
    if not (meets context key expected) then false else rest
