-- ===== src/Acl/Decide.antt =====
-- policy.go, `Evaluate`: the first rule that decides.
use mathlib.Core.List.{Memᴰ}
use grpc_vault_ha.Prelude.{
  ◌≡◌, ◌↔◌, ◌⊎◌, refl, sym, ap, ◌∙◌, Bool, true, false, not, ◌&&◌, Option, none, some, List, [],
  ◌∷◌, ◌++◌, All, arith, eqb, length, Bool-cases, Option-cases, inl, inr,
}
use grpc_vault_ha.Prelude.Text.{Text, codes, text_eq}
use grpc_vault_ha.Prelude.Map.{Map, lookup}
use grpc_vault_ha.Acl.{
  Evaluator, path_matches, apply_rule, apply_rules, apply_policies, or_denied, evaluate,
}
use grpc_vault_ha.Acl.Rules.{
  Rule, EvaluationResult, capability_deny, capability_sudo, has_capability, meets, check_conditions,
}

has_capability_iff : (cs : List Text) (c : Text) → (has_capability cs c ≡ true) ↔ Memᴰ c cs
unfolding has_capability
has_capability_iff [] c = (λ h. cc, λ m. elim m [ ])
has_capability_iff (d ∷ cs) c = elim (text_eq.dec d c) [
  | yes same ↦ (λ h. Memᴰ.head (sym same), λ m. ground (arith, same))
  | no other ↦ (
    λ h. Memᴰ.tail ((has_capability_iff cs c).0 (ground (arith, other, h))),
    λ m. elim m [
      | Memᴰ.head e ↦ absurd (other (sym e))
      | Memᴰ.tail n ↦ ground (arith, other, (has_capability_iff cs c).1 n)
    ],
  )
]

-- The context has the expected value of every condition.
abbrev pub Met : Map Text Text → Map Text Text → Type 0
Met conditions context = All (λ c. lookup (c.0) context ≡ some (c.1)) conditions

meets_iff :
    (context : Map Text Text) (key expected : Text)
    → (meets context key expected ≡ true) ↔ (lookup key context ≡ some expected)
unfolding meets
meets_iff context key expected = elim (Option-cases (lookup key context)) [
  | inl missing ↦ ground (arith, missing)
  | inr (actual, found) ↦ ground (arith, found)
]

check_conditions_iff :
    (conditions context : Map Text Text)
    → (check_conditions conditions context ≡ true) ↔ Met conditions context
unfolding check_conditions
check_conditions_iff [] context = (λ h. tt, λ h. refl)
check_conditions_iff ((key, expected) ∷ conditions) context = (
  λ h. (
    (meets_iff context key expected).0 (ground (arith, h)),
    (check_conditions_iff conditions context).0 (ground (arith, h)),
  ),
  λ h. ground (
    arith,
    (meets_iff context key expected).1 (h.0),
    (check_conditions_iff conditions context).1 (h.1),
  ),
)

-- The rules of the named policies, in order; a name without a policy has none.
unfoldable pub rules_of : Evaluator → List Text → List Rule
rules_of e [] = []
rules_of e (name ∷ names) = elim (lookup name e.policies) [
  | none ↦ rules_of e names
  | some policy ↦ policy.rules ++ rules_of e names
]

module _ (glob : Text → Text → Bool) (path capability : Text) (context : Map Text Text) where
  abbrev pub Matches : Rule → Type 0
  Matches r = path_matches glob (r.path) path ≡ true

  abbrev pub Denies : Rule → Type 0
  Denies r = Matches r × Memᴰ capability_deny (r.capabilities)

  abbrev pub Grants : Rule → Type 0
  Grants r =
      Matches r
      × (Memᴰ capability_deny (r.capabilities) → ⊥)
      × (Memᴰ capability_sudo (r.capabilities)
          ⊎ (Memᴰ capability (r.capabilities) × Met (r.conditions) context))

  -- The rule neither grants nor denies.
  abbrev pub Silent : Rule → Type 0
  Silent r = (Denies r → ⊥) × (Grants r → ⊥)

  -- The first rule that is not silent grants.
  abbrev pub FirstGrants : List Rule → Type 0
  FirstGrants [] = ⊥
  FirstGrants (r ∷ rs) = Grants r ⊎ (Silent r × FirstGrants rs)

  abbrev pub verdict : Option EvaluationResult → Bool
  verdict o = (or_denied glob o).allowed

  abbrev pub granted : Rule → EvaluationResult
  granted r = record { allowed = true; matched_rule = r.path; denial_reason = [] }

  abbrev refused : Rule → EvaluationResult
  refused r = record {
    allowed = false;
    matched_rule = r.path;
    denial_reason = codes "explicitly denied by policy";
  }

  -- The test that keeps a rule with unmet conditions from granting.
  conditions_guard :
      (conditions : Map Text Text)
      → (not (eqb (length conditions) 0) && not (check_conditions conditions context))
        ≡ not (check_conditions conditions context)
  unfolding check_conditions
  conditions_guard [] = refl
  conditions_guard (c ∷ conditions) = ground arith

  -- The three things that a rule can say.
  abbrev pub Says : Rule → Option EvaluationResult → Type 0
  Says r o =
      (Grants r × (o ≡ some (granted r)))
      ⊎ (Denies r × ((e : EvaluationResult) × (o ≡ some e) × (e.allowed ≡ false)))
      ⊎ (Silent r × (o ≡ none))

  silent_because :
      (r : Rule)
      → (Denies r → ⊥)
      → (Grants r → ⊥)
      → apply_rule glob path capability context r ≡ none
      → Says r (apply_rule glob path capability context r)
  silent_because r d g e = inr (inr ((d, g), e))

  apply_rule-Says : (r : Rule) → Says r (apply_rule glob path capability context r)
  unfolding apply_rule
  apply_rule-Says r = elim (Bool-cases (path_matches glob (r.path) path)) [
    | inr other ↦ silent_because r (λ d. cc) (λ g. cc) (simp other)
    | inl same ↦ elim (Bool-cases (has_capability (r.capabilities) capability_deny)) [
      | inl deny ↦ inr (inl ((same, denying.0 deny), (refused r, simp (same, deny), refl)))
      | inr undenied ↦ elim (Bool-cases (has_capability (r.capabilities) capability_sudo)) [
        | inl sudo ↦ inl ((same, no_deny undenied, inl (doing.0 sudo)), simp (same, undenied, sudo))
        | inr plain ↦ elim (Bool-cases (has_capability (r.capabilities) capability)) [
          | inr lacking ↦
              silent_because r (λ d. no_deny undenied (d.1))
                (λ g. ground (arith, plain, lacking, doing.1, having.1, g.2))
                (simp (same, undenied, plain, lacking))
          | inl has ↦ elim (Bool-cases (check_conditions (r.conditions) context)) [
            | inl met ↦ inl (
              (same, no_deny undenied, inr (having.0 has, meeting.0 met)),
              simp (same, undenied, plain, has, conditions_guard (r.conditions) ∙ ap not met),
            )
            | inr unmet ↦
                silent_because r (λ d. no_deny undenied (d.1))
                  (λ g. ground (arith, plain, unmet, doing.1, meeting.1, g.2))
                  (simp
                    (same, undenied, plain, has, conditions_guard (r.conditions) ∙ ap not unmet))
          ]
        ]
      ]
    ]
  ]
    where
      denying :
          (has_capability (r.capabilities) capability_deny ≡ true)
          ↔ Memᴰ capability_deny (r.capabilities)
      denying = has_capability_iff (r.capabilities) capability_deny

      doing :
          (has_capability (r.capabilities) capability_sudo ≡ true)
          ↔ Memᴰ capability_sudo (r.capabilities)
      doing = has_capability_iff (r.capabilities) capability_sudo

      having :
          (has_capability (r.capabilities) capability ≡ true) ↔ Memᴰ capability (r.capabilities)
      having = has_capability_iff (r.capabilities) capability

      meeting : (check_conditions (r.conditions) context ≡ true) ↔ Met (r.conditions) context
      meeting = check_conditions_iff (r.conditions) context

      no_deny :
          has_capability (r.capabilities) capability_deny ≡ false
          → Memᴰ capability_deny (r.capabilities)
          → ⊥
      no_deny undenied m = ground (arith, undenied, denying.1 m)

  apply_rules-append :
      (rs ss : List Rule)
      → apply_rules glob path capability context (rs ++ ss)
        ≡ elim (apply_rules glob path capability context rs) [
          | some result ↦ some result
          | none ↦ apply_rules glob path capability context ss
        ]
  unfolding apply_rules
  apply_rules-append [] ss = refl
  apply_rules-append (r ∷ rs) ss = ground (arith, apply_rules-append rs ss)

  apply_policies-rules_of :
      (e : Evaluator) (names : List Text)
      → apply_policies glob e names path capability context
        ≡ apply_rules glob path capability context (rules_of e names)
  unfolding apply_policies rules_of apply_rules
  apply_policies-rules_of e [] = refl
  apply_policies-rules_of e (name ∷ names) = elim (Option-cases (lookup name e.policies)) [
    | inl missing ↦ ground (arith, missing, apply_policies-rules_of e names)
    | inr (policy, found) ↦ ground (
      arith,
      found,
      apply_policies-rules_of e names,
      apply_rules-append (policy.rules) (rules_of e names),
    )
  ]

  decide_iff :
      (r : Rule) (rs : List Rule) (o : Option EvaluationResult)
      → Says r o
      → (verdict (apply_rules glob path capability context rs) ≡ true) ↔ FirstGrants rs
      → (verdict (elim o [
        | some result ↦ some result
        | none ↦ apply_rules glob path capability context rs
      ])
          ≡ true)
        ↔ FirstGrants (r ∷ rs)
  decide_iff r rs o (inl (g, e)) rest = rw e (λ h. inl g, λ h. refl)
  decide_iff r rs o (inr (inl (d, (result, e, f)))) rest = rw e (
    λ h. absurd (ground (arith, h, f)),
    λ h. absurd (elim h [ inl g ↦ g.1 (d.1) | inr later ↦ later.0.0 d ]),
  )
  decide_iff r rs o (inr (inr (silent, e))) rest = rw e (
    λ h. inr (silent, rest.0 h),
    λ h. elim h [ inl g ↦ absurd (silent.1 g) | inr later ↦ rest.1 (later.1) ],
  )

  apply_rules_iff :
      (rs : List Rule)
      → (verdict (apply_rules glob path capability context rs) ≡ true) ↔ FirstGrants rs
  unfolding apply_rules
  apply_rules_iff [] = (λ h. cc, λ h. absurd h)
  apply_rules_iff (r ∷ rs) =
      decide_iff r rs (apply_rule glob path capability context r) (apply_rule-Says r)
        (apply_rules_iff rs)

  -- A request is allowed exactly if, of the rules of the named policies in order, the first one
  -- that is not silent grants it. A rule grants if its path matches, it has no `deny`, and it has
  -- `sudo`, or the capability with its conditions met; it denies if its path matches and it has
  -- `deny`. So a grant that stands earlier is not taken back by a later `deny`.
  pub evaluate_allowed_iff :
      (e : Evaluator) (names : List Text)
      → ((evaluate glob e names path capability context).allowed ≡ true)
        ↔ FirstGrants (rules_of e names)
  unfolding evaluate
  evaluate_allowed_iff e names = rw (guard names) (apply_rules_iff (rules_of e names))
    where
      guard :
          (names : List Text)
          → (evaluate glob e names path capability context).allowed
            ≡ verdict (apply_rules glob path capability context (rules_of e names))
      guard [] = unfold apply_rules rules_of in refl
      guard (name ∷ names) = ground (arith, apply_policies-rules_of e (name ∷ names))
