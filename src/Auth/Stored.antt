-- ===== src/Auth/Stored.antt =====
-- policy_repository.go: the stored policies next to those of an evaluator.
use grpc_vault_ha.Prelude.{
  ◌≡◌, ◌≢◌, refl, Bool, true, false, Option, none, some, [], arith, is_some, if◌then◌else◌, ◌==◌,
  ◌||◌, ok, err,
}
use grpc_vault_ha.Prelude.Int.{ℤ}
use grpc_vault_ha.Prelude.Text.{Text, codes, text_eq}
use grpc_vault_ha.Prelude.Map.{Map, lookup, insert, erase, lookup-insert, lookup-erase}
use grpc_vault_ha.Acl.{Evaluator}
use grpc_vault_ha.Acl.Rules.{Policy}
use grpc_vault_ha.Auth.Policies
use grpc_vault_ha.Auth.Policies.{
  StoredPolicy, PolicyRepository, new_policy_repository, policy_not_found, policy_exists,
  built_in_policy,
}

-- A stored policy, as the evaluator has it.
abbrev pub policy_of : Option StoredPolicy → Option Policy
policy_of none = none
policy_of (some p) = some (record { name = p.name; rules = p.rules; description = [] })

abbrev pub Agree : Evaluator → PolicyRepository → Type 0
Agree e r = (name : Text) → lookup name e.policies ≡ policy_of (lookup name r.policies)

-- The two policies of the start.
abbrev pub HasBuiltIns : PolicyRepository → Type 0
HasBuiltIns r =
    (is_some (lookup (codes "default") r.policies) ≡ true)
    × (is_some (lookup (codes "admin") r.policies) ≡ true)

pub insert-Agree :
    (e : Evaluator) (r : PolicyRepository) (name : Text) (p : Policy) (q : StoredPolicy)
    → p ≡ record { name = q.name; rules = q.rules; description = [] }
    → Agree e r
    → Agree
        (record { policies = insert name p e.policies })
        (record { policies = insert name q r.policies })
insert-Agree e r name p q same a j =
    ground (arith, lookup-insert j name p e.policies, lookup-insert j name q r.policies, a j, same)

pub erase-Agree :
    (e : Evaluator) (r : PolicyRepository) (name : Text)
    → Agree e r
    → Agree
        (record { policies = erase name e.policies })
        (record { policies = erase name r.policies })
erase-Agree e r name a j =
    ground (arith, lookup-erase j name e.policies, lookup-erase j name r.policies, a j)

pub insert-there :
    (j name : Text) (q : StoredPolicy) (m : Map Text StoredPolicy)
    → is_some (lookup j m) ≡ true
    → is_some (lookup j (insert name q m)) ≡ true
insert-there j name q m h = ground (arith, lookup-insert j name q m, h)

pub erase-there :
    (j name : Text) (m : Map Text StoredPolicy)
    → j ≢ name
    → is_some (lookup j m) ≡ true
    → is_some (lookup j (erase name m)) ≡ true
erase-there j name m ne h = ground (arith, lookup-erase j name m, h, ne)

-- The operations of the repository, by whether the name is there.
module _ (now : ℤ) (r : PolicyRepository) (p : StoredPolicy) where
  pub create-new :
      lookup p.name r.policies ≡ none
      → Policies.create now r p ≡ (
        record {
          policies = insert p.name (record p { created_at = now; updated_at = now }) r.policies;
        },
        ok tt,
      )
  unfolding Policies.create
  create-new h = ground (arith, h)

  pub create-there :
      (q : StoredPolicy)
      → lookup p.name r.policies ≡ some q
      → Policies.create now r p ≡ (r, err policy_exists)
  unfolding Policies.create
  create-there q h = ground (arith, h)

  pub update-missing :
      lookup p.name r.policies ≡ none → Policies.update now r p ≡ (r, err policy_not_found)
  unfolding Policies.update
  update-missing h = ground (arith, h)

  pub update-there :
      (q : StoredPolicy)
      → lookup p.name r.policies ≡ some q
      → Policies.update now r p
        ≡ (record { policies = insert p.name (record p { updated_at = now }) r.policies }, ok tt)
  unfolding Policies.update
  update-there q h = ground (arith, h)

module _ (r : PolicyRepository) (name : Text) where
  pub delete-missing :
      lookup name r.policies ≡ none → Policies.delete r name ≡ (r, err policy_not_found)
  unfolding Policies.delete
  delete-missing h = ground (arith, h)

  pub delete-built_in :
      (q : StoredPolicy)
      → lookup name r.policies ≡ some q
      → ((name == codes "default") || (name == codes "admin")) ≡ true
      → Policies.delete r name ≡ (r, err built_in_policy)
  unfolding Policies.delete
  delete-built_in q h b = ground (arith, h, b)

  pub delete-there :
      (q : StoredPolicy)
      → lookup name r.policies ≡ some q
      → ((name == codes "default") || (name == codes "admin")) ≡ false
      → Policies.delete r name ≡ (record { policies = erase name r.policies }, ok tt)
  unfolding Policies.delete
  delete-there q h b = ground (arith, h, b)

pub policy_of_if :
    (b : Bool) (p : StoredPolicy) (o : Option StoredPolicy)
    → (if b
        then some (record { name = p.name; rules = p.rules; description = [] })
        else policy_of o)
      ≡ policy_of (if b then some p else o)
policy_of_if true p o = refl
policy_of_if false p o = refl
