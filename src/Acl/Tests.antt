-- ===== src/Acl/Tests.antt =====
-- Runs of policy.go, and the witnesses of its theorems.
use grpc_vault_ha.Prelude.{◌≡◌, ◌↔◌, refl, Bool, true, [], ◌∷◌, ◌==◌}
use grpc_vault_ha.Prelude.Text.{Text, codes, text_eq, text_dec}
use grpc_vault_ha.Prelude.Map.{lookup, insert}
use grpc_vault_ha.Strings.Split.{split}
use grpc_vault_ha.Strings.Trim.{trim, trim_left, has_suffix, contains}
use grpc_vault_ha.Acl.{
  Evaluator, new_evaluator, add_policy, path_matches, match_segments, apply_rule, apply_rules,
  apply_policies, evaluate, check,
}
use grpc_vault_ha.Acl.Rules.{
  Policy, Rule, capability_read, capability_deny, has_capability, check_conditions,
}
use grpc_vault_ha.Acl.Decide.{FirstGrants, rules_of, evaluate_allowed_iff}
use grpc_vault_ha.Acl.Match.{Segments, path_matches-Segments}

-- `path.Match` of a pattern without wildcards.
abbrev literal : Text → Text → Bool
literal pattern name = pattern == name

abbrev rule : Text → Text → Rule
rule path capability = record { path = path; capabilities = capability ∷ []; conditions = [] }

-- A grant, and a `deny` of the same path after it.
abbrev ops : Policy
ops = record {
  name = codes "ops";
  rules = rule (codes "a/*") capability_read ∷ rule (codes "a/b") capability_deny ∷ [];
  description = [];
}

abbrev e : Evaluator
e = add_policy new_evaluator ops

-- The earlier grant wins.
grant_before_deny :
    check literal e (codes "none" ∷ codes "ops" ∷ []) (codes "/a/b") capability_read ≡ true
unfolding check evaluate apply_policies apply_rules apply_rule path_matches match_segments
    has_capability check_conditions trim trim_left has_suffix contains split new_evaluator
    add_policy lookup insert text_dec
grant_before_deny = refl

evaluate_allowed_iff_example :
    ((evaluate literal e
        (codes "none" ∷ codes "ops" ∷ [])
        (codes "/a/b")
        capability_read
        []).allowed
      ≡ true)
    ↔ FirstGrants literal
        (codes "/a/b")
        capability_read
        []
        (rules_of e (codes "none" ∷ codes "ops" ∷ []))
evaluate_allowed_iff_example =
    evaluate_allowed_iff literal (codes "/a/b") capability_read [] e
      (codes "none" ∷ codes "ops" ∷ [])

path_matches-Segments_example :
    (path_matches literal (codes "a/*/c") (codes "/a/b/c") ≡ true)
    ↔ Segments (split b'/' (trim b'/' (codes "a/*/c"))) (split b'/' (trim b'/' (codes "/a/b/c")))
unfolding trim trim_left has_suffix contains text_dec
path_matches-Segments_example =
    path_matches-Segments literal (codes "a/*/c") (codes "/a/b/c") refl refl
