-- ===== src/Acl.antt =====
-- pkg/auth/policy/policy.go: the access rules of the auth service, and their evaluation.
-- A capability is a string, as in the source. `path.Match` is the parameter `glob`; its error is
-- ignored as in the source. The lock of the evaluator is left out: a method is one step. A map of
-- conditions is read in the order of its list, which the result does not depend on.
pub mod Rules
pub mod Actions
pub mod Match
pub mod Decide
pub mod Registry
mod Tests
use grpc_vault_ha.Prelude.{
  ℕ, Bool, true, false, not, ◌&&◌, ◌||◌, Option, none, some, List, [], ◌∷◌, any, all, eqb, length,
  if◌then◌else◌, ◌==◌, Result, ok, err, is_some,
}
use grpc_vault_ha.Prelude.Text.{Text, codes, text_eq}
use grpc_vault_ha.Prelude.Map
use grpc_vault_ha.Prelude.Map.{Map, lookup, insert, erase}
use grpc_vault_ha.Strings.Split.{split}
use grpc_vault_ha.Strings.Trim.{trim, has_prefix, has_suffix, trim_suffix, contains}
use Rules.{
  Rule, Policy, EvaluationResult, Error, policy_not_found, capability_deny, capability_sudo,
  default_policy, has_capability, check_conditions,
}

pub record Evaluator : Type 0 where
  pub policies : Map Text Policy

-- `e.AddPolicy` never fails.
unfoldable pub add_policy : Evaluator → Policy → Evaluator
add_policy e policy = record { policies = insert (policy.name) policy e.policies }

unfoldable pub new_evaluator : Evaluator
unfolding add_policy
new_evaluator = add_policy (record { policies = [] }) default_policy

unfoldable pub get_policy : Evaluator → Text → Result Error Policy
get_policy e name = elim (lookup name e.policies) [
  | none ↦ err policy_not_found
  | some policy ↦ ok policy
]

unfoldable pub remove_policy : Evaluator → Text → Evaluator × Result Error (Unit {0})
remove_policy e name = elim (lookup name e.policies) [
  | none ↦ (e, err policy_not_found)
  | some policy ↦ (record { policies = erase name e.policies }, ok tt)
]

unfoldable pub list_policies : Evaluator → List Text
list_policies e = Map.keys e.policies

-- The loop over the segments of the pattern; their number is that of the target's.
unfoldable pub match_segments : List Text → List Text → Bool
match_segments [] target = true
match_segments (p ∷ pattern) [] = false
match_segments (p ∷ pattern) (t ∷ target) =
    let rest = match_segments pattern target in
    if p == codes "*" then rest else if not (p == t) then false else rest

module _ (glob : Text → Text → Bool) where
  -- `pattern` and `target` without the slashes at both ends.
  abbrev match_trimmed : Text → Text → Bool
  match_trimmed pattern target =
      if has_suffix pattern (codes "**")
      then has_prefix target (trim_suffix (trim_suffix pattern (codes "**")) (codes "/"))
      else if contains pattern b'*'
      then if not (eqb (length (split b'/' pattern)) (length (split b'/' target)))
        then false
        else match_segments (split b'/' pattern) (split b'/' target)
      else if pattern == target
      then true
      else glob pattern target

  unfoldable pub path_matches : Text → Text → Bool
  path_matches pattern target = match_trimmed (trim b'/' pattern) (trim b'/' target)

  -- What one rule says; `none` goes on to the next rule.
  unfoldable pub apply_rule : Text → Text → Map Text Text → Rule → Option EvaluationResult
  apply_rule resource_path capability context rule =
      if not (path_matches (rule.path) resource_path)
      then none
      else if has_capability (rule.capabilities) capability_deny
      then some (record {
        allowed = false;
        matched_rule = rule.path;
        denial_reason = codes "explicitly denied by policy";
      })
      else if has_capability (rule.capabilities) capability_sudo
      then some (record { allowed = true; matched_rule = rule.path; denial_reason = [] })
      else if has_capability (rule.capabilities) capability
      then if not (eqb (length (rule.conditions)) 0)
          && not (check_conditions (rule.conditions) context)
        then none
        else some (record { allowed = true; matched_rule = rule.path; denial_reason = [] })
      else none

  -- A `return` ends both loops.
  unfoldable pub apply_rules : Text → Text → Map Text Text → List Rule → Option EvaluationResult
  apply_rules resource_path capability context [] = none
  apply_rules resource_path capability context (rule ∷ rules) =
      elim (apply_rule resource_path capability context rule) [
        | some result ↦ some result
        | none ↦ apply_rules resource_path capability context rules
      ]

  unfoldable pub apply_policies :
      Evaluator → List Text → Text → Text → Map Text Text → Option EvaluationResult
  apply_policies e [] resource_path capability context = none
  apply_policies e (name ∷ names) resource_path capability context =
      let rest = apply_policies e names resource_path capability context in
      elim (lookup name e.policies) [
        | none ↦ rest
        | some policy ↦ elim (apply_rules resource_path capability context (policy.rules)) [
          | some result ↦ some result
          | none ↦ rest
        ]
      ]

  abbrev or_denied : Option EvaluationResult → EvaluationResult
  or_denied (some result) = result
  or_denied none = record {
    allowed = false;
    matched_rule = [];
    denial_reason = codes "no matching policy rule found";
  }

  unfoldable pub evaluate : Evaluator → List Text → Text → Text → Map Text Text → EvaluationResult
  unfolding apply_policies
  evaluate e names resource_path capability context =
      if eqb (length names) 0
      then record {
        allowed = false;
        matched_rule = [];
        denial_reason = codes "no policies attached";
      }
      else or_denied (apply_policies e names resource_path capability context)

  -- A nil context reads as an empty map.
  unfoldable pub check : Evaluator → List Text → Text → Text → Bool
  unfolding evaluate
  check e names resource_path capability = (evaluate e names resource_path capability []).allowed
