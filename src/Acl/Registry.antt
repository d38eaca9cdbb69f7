-- ===== src/Acl/Registry.antt =====
-- policy.go: the evaluator's store of policies.
use grpc_vault_ha.Prelude.{◌≡◌, ◌≢◌, refl, Bool, none, some, List, [], ◌∷◌, All, arith, ok, err}
use grpc_vault_ha.Prelude.Text.{Text, text_eq}
use grpc_vault_ha.Prelude.Map.{
  Map, lookup, insert, erase, lookup-insert_self, lookup-insert_ne, lookup-erase_self,
  lookup-erase_ne,
}
use grpc_vault_ha.Acl.{Evaluator, add_policy, get_policy, remove_policy, apply_policies, evaluate}
use grpc_vault_ha.Acl.Rules.{Policy, policy_not_found}

-- A policy that was added is found under its name and replaces the one before; after its removal
-- the name is unknown, and a second removal fails. Other names read as before, each time.
pub add_policy-remove_policy :
    (e : Evaluator) (policy : Policy)
    → let added = add_policy e policy in
      (get_policy added (policy.name) ≡ ok policy)
      × ((remove_policy added (policy.name)).1 ≡ ok tt)
      × (get_policy (remove_policy added (policy.name)).0 (policy.name) ≡ err policy_not_found)
      × ((remove_policy (remove_policy added (policy.name)).0 (policy.name)).1
          ≡ err policy_not_found)
      × ((other : Text)
          → other ≢ policy.name
          → (get_policy added other ≡ get_policy e other)
            × (get_policy (remove_policy added (policy.name)).0 other ≡ get_policy e other))
unfolding add_policy get_policy remove_policy
add_policy-remove_policy e policy = (
  ground (arith, self),
  ground (arith, self),
  ground (arith, self, gone),
  ground (arith, self, gone),
  λ other ne. (
    ground (arith, lookup-insert_ne other (policy.name) policy (e.policies) ne),
    ground (
      arith,
      self,
      lookup-insert_ne other (policy.name) policy (e.policies) ne,
      lookup-erase_ne other (policy.name) (insert (policy.name) policy (e.policies)) ne,
    ),
  ),
)
  where
    self : lookup (policy.name) (insert (policy.name) policy (e.policies)) ≡ some policy
    self = lookup-insert_self (policy.name) policy (e.policies)

    gone :
        lookup (policy.name) (erase (policy.name) (insert (policy.name) policy (e.policies))) ≡ none
    gone = lookup-erase_self (policy.name) (insert (policy.name) policy (e.policies))

module _ (glob : Text → Text → Bool) where
  apply_policies-add_policy :
      (e : Evaluator) (policy : Policy) (names : List Text) (path capability : Text)
      (context : Map Text Text)
      → All (λ n. n ≢ policy.name) names
      → apply_policies glob (add_policy e policy) names path capability context
        ≡ apply_policies glob e names path capability context
  unfolding apply_policies add_policy
  apply_policies-add_policy e policy [] path capability context h = refl
  apply_policies-add_policy e policy (name ∷ names) path capability context (ne, h) = ground (
    arith,
    lookup-insert_ne name (policy.name) policy (e.policies) ne,
    apply_policies-add_policy e policy names path capability context h,
  )

  -- Adding a policy changes no answer for a caller who does not carry it.
  pub evaluate-add_policy :
      (e : Evaluator) (policy : Policy) (names : List Text) (path capability : Text)
      (context : Map Text Text)
      → All (λ n. n ≢ policy.name) names
      → evaluate glob (add_policy e policy) names path capability context
        ≡ evaluate glob e names path capability context
  unfolding evaluate
  evaluate-add_policy e policy names path capability context h =
      rw (apply_policies-add_policy e policy names path capability context h) refl
