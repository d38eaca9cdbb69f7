-- ===== src/Auth/Synced.antt =====
-- auth_service.go: the policies of the evaluator are those of the repository.
use grpc_vault_ha.Prelude.{
  ℕ, ◌≡◌, refl, sym, ap, ◌∙◌, false, Option, none, some, List, [], ◌∷◌, arith, if◌then◌else◌, ◌==◌,
  ◌||◌, Option-cases, Bool-cases, inl, inr, Result, ok, err, bind-ok, or_err,
}
use grpc_vault_ha.Prelude.Int.{ℤ, pos}
use grpc_vault_ha.Prelude.Text.{Text, codes, text_eq, text_dec}
use grpc_vault_ha.Prelude.Map.{lookup, insert, erase}
use grpc_vault_ha.Cache.{CacheEntry, new_lru_cache_with_ttl}
use grpc_vault_ha.Cache.Lru.{LruList}
use grpc_vault_ha.Acl.{Evaluator, add_policy, remove_policy, new_evaluator}
use grpc_vault_ha.Acl.Rules.{Rule, Policy, default_policy}
use grpc_vault_ha.Jwt
use grpc_vault_ha.Jwt.{JwtLibrary, Claims, new_manager}
use grpc_vault_ha.Auth.Page.{page}
use grpc_vault_ha.Auth.Tokens.{TokenRepository}
use grpc_vault_ha.Auth.ApiKeys.{ApiKeyRepository}
use grpc_vault_ha.Auth.Policies
use grpc_vault_ha.Auth.Policies.{
  StoredPolicy, PolicyRepository, new_policy_repository, policy_not_found, policy_exists,
  built_in_policy,
}
use grpc_vault_ha.Auth.{
  AuthService, Error, load, listed, map_err, new_auth_service, create_policy, update_policy,
  delete_policy, policy_written, policy_deleted, stored, cache_failed, jwt_error,
}
use grpc_vault_ha.Auth.Stored.{
  policy_of, Agree, HasBuiltIns, insert-Agree, erase-Agree, insert-there, erase-there, create-new,
  create-there, update-missing, update-there, delete-missing, delete-built_in, delete-there,
  policy_of_if,
}

module _ (jwt : JwtLibrary) (claims_lru : LruList Text (CacheEntry Claims))
    (policy_lru : LruList Text (CacheEntry Policy)) where
  pub record Synced (s : AuthService jwt claims_lru policy_lru) : Type 0 where
    pub agree : Agree s.policy_evaluator s.policy_repo
    pub built_ins : HasBuiltIns s.policy_repo

  pub data Change : Type 0 where
    creates updates : ℕ → Text → Text → List Rule → Change
    deletes : Text → Change

  unfoldable pub change :
      AuthService jwt claims_lru policy_lru → Change → AuthService jwt claims_lru policy_lru
  change s (creates now name description rules) =
      (create_policy jwt claims_lru policy_lru now s name description rules).0
  change s (updates now name description rules) =
      (update_policy jwt claims_lru policy_lru now s name description rules).0
  change s (deletes name) = (delete_policy jwt claims_lru policy_lru s name).0

  unfoldable pub changes :
      AuthService jwt claims_lru policy_lru → List Change → AuthService jwt claims_lru policy_lru
  unfolding change
  changes s [] = s
  changes s (c ∷ cs) = changes (change s c) cs

  written-Synced :
      (s : AuthService jwt claims_lru policy_lru) (name : Text) (rules : List Rule)
      (q : StoredPolicy)
      → q.name ≡ name
      → q.rules ≡ rules
      → Synced s
      → Synced
          (policy_written jwt claims_lru policy_lru s name rules
            (record { policies = insert name q s.policy_repo.policies }, ok tt)).0
  unfolding policy_written add_policy
  written-Synced s name rules q names same h = record {
    agree =
        insert-Agree s.policy_evaluator s.policy_repo name
          (record { name = name; rules = rules; description = [] }) q (cc) h.agree;
    built_ins = (
      insert-there (codes "default") name q s.policy_repo.policies h.built_ins.0,
      insert-there (codes "admin") name q s.policy_repo.policies h.built_ins.1,
    );
  }

  refused-Synced :
      (s : AuthService jwt claims_lru policy_lru) (name : Text) (rules : List Rule)
      (e : Policies.Error)
      → Synced s
      → Synced (policy_written jwt claims_lru policy_lru s name rules (s.policy_repo, err e)).0
  unfolding policy_written
  refused-Synced s name rules e h = h

  create-Synced :
      (now : ℕ) (s : AuthService jwt claims_lru policy_lru) (name description : Text)
      (rules : List Rule)
      → Synced s
      → Synced (create_policy jwt claims_lru policy_lru now s name description rules).0
  unfolding create_policy
  create-Synced now s name description rules h =
      elim (Option-cases (lookup name s.policy_repo.policies)) [
        | inl new ↦
            rw
              (create-new (pos now) s.policy_repo
                (stored jwt claims_lru policy_lru name description rules) new)
              (written-Synced s name rules _ refl refl h)
        | inr (p, there) ↦
            rw
              (create-there (pos now) s.policy_repo
                (stored jwt claims_lru policy_lru name description rules) p there)
              (refused-Synced s name rules policy_exists h)
      ]

  update-Synced :
      (now : ℕ) (s : AuthService jwt claims_lru policy_lru) (name description : Text)
      (rules : List Rule)
      → Synced s
      → Synced (update_policy jwt claims_lru policy_lru now s name description rules).0
  unfolding update_policy
  update-Synced now s name description rules h =
      elim (Option-cases (lookup name s.policy_repo.policies)) [
        | inl missing ↦
            rw
              (update-missing (pos now) s.policy_repo
                (stored jwt claims_lru policy_lru name description rules) missing)
              (refused-Synced s name rules policy_not_found h)
        | inr (p, there) ↦
            rw
              (update-there (pos now) s.policy_repo
                (stored jwt claims_lru policy_lru name description rules) p there)
              (written-Synced s name rules _ refl refl h)
      ]

  remove_policy-there :
      (e : Evaluator) (name : Text) (p : Policy)
      → lookup name e.policies ≡ some p
      → (remove_policy e name).0 ≡ record { policies = erase name e.policies }
  unfolding remove_policy
  remove_policy-there e name p h = ground (arith, h)

  deleted-Synced :
      (s : AuthService jwt claims_lru policy_lru) (name : Text) (q : StoredPolicy)
      → lookup name s.policy_repo.policies ≡ some q
      → ((name == codes "default") || (name == codes "admin")) ≡ false
      → Synced s
      → Synced
          (policy_deleted jwt claims_lru policy_lru s name
            (record { policies = erase name s.policy_repo.policies }, ok tt)).0
  unfolding policy_deleted
  deleted-Synced s name q there custom h = record {
    agree =
        rw (remove_policy-there s.policy_evaluator name _ (h.agree name ∙ ap policy_of there))
          (erase-Agree s.policy_evaluator s.policy_repo name h.agree);
    built_ins = (
      erase-there (codes "default") name s.policy_repo.policies
          (λ e. differs (codes "default") e (ground (arith, custom))) h.built_ins.0,
      erase-there (codes "admin") name s.policy_repo.policies
          (λ e. differs (codes "admin") e (ground (arith, custom))) h.built_ins.1,
    );
  }
    where
      differs : (built_in : Text) → built_in ≡ name → (name == built_in) ≡ false → ⊥
      differs built_in e b = ground (arith, e, b)

  kept-Synced :
      (s : AuthService jwt claims_lru policy_lru) (name : Text) (e : Policies.Error)
      → Synced s
      → Synced (policy_deleted jwt claims_lru policy_lru s name (s.policy_repo, err e)).0
  unfolding policy_deleted
  kept-Synced s name e h = h

  delete-Synced :
      (s : AuthService jwt claims_lru policy_lru) (name : Text)
      → Synced s
      → Synced (delete_policy jwt claims_lru policy_lru s name).0
  unfolding delete_policy
  delete-Synced s name h = elim (Option-cases (lookup name s.policy_repo.policies)) [
    | inl missing ↦
        rw (delete-missing s.policy_repo name missing) (kept-Synced s name policy_not_found h)
    | inr (p, there) ↦ elim (Bool-cases ((name == codes "default") || (name == codes "admin"))) [
      | inl built_in ↦
          rw (delete-built_in s.policy_repo name p there built_in)
            (kept-Synced s name built_in_policy h)
      | inr custom ↦
          rw (delete-there s.policy_repo name p there custom)
            (deleted-Synced s name p there custom h)
    ]
  ]

  change-Synced :
      (s : AuthService jwt claims_lru policy_lru) (c : Change) → Synced s → Synced (change s c)
  unfolding change
  change-Synced s (creates now name description rules) h =
      create-Synced now s name description rules h
  change-Synced s (updates now name description rules) h =
      update-Synced now s name description rules h
  change-Synced s (deletes name) h = delete-Synced s name h

  changes-Synced :
      (s : AuthService jwt claims_lru policy_lru) (cs : List Change)
      → Synced s
      → Synced (changes s cs)
  unfolding changes
  changes-Synced s [] h = h
  changes-Synced s (c ∷ cs) h = changes-Synced (change s c) cs (change-Synced s c h)

  -- The evaluator of the start, from the two policies of the repository.
  first_evaluator : ℤ → Evaluator
  first_evaluator started = load jwt claims_lru policy_lru new_evaluator (
      listed jwt claims_lru policy_lru
        (Policies.list (new_policy_repository started) (pos 1000) (pos 0)))

  first-Agree : (started : ℤ) → Agree (first_evaluator started) (new_policy_repository started)
  unfolding first_evaluator load Policies.list page new_policy_repository new_evaluator add_policy
      insert lookup text_dec
  first-Agree started name =
      ap
        (λ o.
          if name == codes "default"
          then some
              (record { name = codes "default"; rules = default_policy.rules; description = [] })
          else o)
        (policy_of_if (name == codes "admin") _ none)
      ∙ policy_of_if (name == codes "default") _ _

  first-HasBuiltIns : (started : ℤ) → HasBuiltIns (new_policy_repository started)
  unfolding new_policy_repository lookup text_dec
  first-HasBuiltIns started = (refl, refl)

  ok-eq :
      (a b : AuthService jwt claims_lru policy_lru)
      → ◌≡◌ {A = Result Error (AuthService jwt claims_lru policy_lru)} (ok a) (ok b)
      → a ≡ b
  ok-eq a b e = cc

  new_auth_service_inv :
      (generated : Option jwt.PrivateKey) (cfg : Jwt.Config jwt) (l1_size : ℤ) (l2_ttl : ℕ)
      (token_repo : TokenRepository) (api_key_repo : ApiKeyRepository)
      (policy_repo : PolicyRepository) (s : AuthService jwt claims_lru policy_lru)
      → new_auth_service jwt claims_lru policy_lru generated cfg l1_size l2_ttl token_repo
          api_key_repo policy_repo
        ≡ ok s
      → (s.policy_repo ≡ policy_repo)
        × (s.policy_evaluator
            ≡ load jwt claims_lru policy_lru new_evaluator
                (listed jwt claims_lru policy_lru (Policies.list policy_repo (pos 1000) (pos 0))))
  unfolding new_auth_service
  new_auth_service_inv generated cfg l1_size l2_ttl token_repo api_key_repo policy_repo s e =
      let (manager, a, e1) =
        bind-ok (map_err jwt_error (new_manager jwt generated (record cfg { private_key = none })))
          _ s e in
      let (tokens, b, e2) =
        bind-ok (or_err (new_lru_cache_with_ttl Text Claims claims_lru l1_size l2_ttl) cache_failed)
          _ s e1 in
      let (policies, c, e3) =
        bind-ok
          (or_err (new_lru_cache_with_ttl Text Policy policy_lru (pos 1000) 300000000000)
            cache_failed)
          _ s e2 in
      (
        ap (λ x. x.policy_repo) (sym (ok-eq _ s e3)),
        ap (λ x. x.policy_evaluator) (sym (ok-eq _ s e3)),
      )

  pub new_auth_service-Synced :
      (generated : Option jwt.PrivateKey) (cfg : Jwt.Config jwt) (l1_size : ℤ) (l2_ttl : ℕ)
      (token_repo : TokenRepository) (api_key_repo : ApiKeyRepository) (started : ℤ)
      (s : AuthService jwt claims_lru policy_lru) (cs : List Change)
      → new_auth_service jwt claims_lru policy_lru generated cfg l1_size l2_ttl token_repo
          api_key_repo
          (new_policy_repository started)
        ≡ ok s
      → Synced (changes s cs)
  new_auth_service-Synced generated cfg l1_size l2_ttl token_repo api_key_repo started s cs h =
      let (repo, evaluator) =
        new_auth_service_inv generated cfg l1_size l2_ttl token_repo api_key_repo
          (new_policy_repository started) s h in
      changes-Synced s cs (record {
        agree = rw (repo, evaluator) (unfold first_evaluator in first-Agree started);
        built_ins = rw repo (first-HasBuiltIns started);
      })
