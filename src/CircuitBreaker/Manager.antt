-- ===== src/CircuitBreaker/Manager.antt =====
-- circuitbreaker.go: the manager, one breaker for each target, and the client interceptor.
-- A breaker stays in the `sync.Map` for good, so the pointer that `GetBreaker` returns is always
-- that of the map. The status error is kept by its code.
use grpc_vault_ha.Prelude.{
  ℕ, ◌≡◌, ◌≢◌, refl, sym, ap, ◌∙◌, Bool, not, Option, none, some, List, [], ◌∷◌, arith,
  if◌then◌else◌, ◌==◌, is_some, Bool-cases, inl, inr,
}
use grpc_vault_ha.Prelude.Text.{Text, text_eq}
use grpc_vault_ha.Prelude.Map.{Map, lookup, insert, lookup-insert_self, lookup-insert_ne}
use grpc_vault_ha.CircuitBreaker.{
  CircuitBreaker, new_circuit_breaker, before_request, after_request, Event, step, run, execute,
}
use grpc_vault_ha.CircuitBreaker.Admission.{Refusing, before_request_iff}

pub record CircuitBreakerConfig : Type 0 where
  pub max_requests : ℕ
  pub interval : ℕ
  pub timeout : ℕ

pub record CircuitBreakerManager : Type 0 where
  pub breakers : Map Text CircuitBreaker
  pub config : CircuitBreakerConfig

unfoldable pub new_circuit_breaker_manager : CircuitBreakerConfig → CircuitBreakerManager
new_circuit_breaker_manager config = record { breakers = []; config = config }

-- The breaker that `GetBreaker` returns.
unfoldable pub breaker_of : CircuitBreakerManager → Text → CircuitBreaker
breaker_of m name = elim (lookup name m.breakers) [
  | some cb ↦ cb
  | none ↦ new_circuit_breaker name m.config.max_requests m.config.interval m.config.timeout
]

-- It is in the map from then on; `cb` is what a call has made of it.
unfoldable pub put_breaker : CircuitBreakerManager → Text → CircuitBreaker → CircuitBreakerManager
put_breaker m name cb = record m { breakers = insert name cb m.breakers }

unfoldable pub get_breaker : CircuitBreakerManager → Text → CircuitBreakerManager × CircuitBreaker
unfolding breaker_of put_breaker
get_breaker m name = (put_breaker m name (breaker_of m name), breaker_of m name)

pub data Error : Type 0 where
  circuit_open unavailable : Error
  other : Text → Error

-- `errors.Is(err, ErrCircuitOpen)`, also when it is the invoker's own error.
abbrev to_status : Option Error → Option Error
to_status (some circuit_open) = some unavailable
to_status e = e

-- The events of one target.
abbrev pub events_of : Text → List (Text × Event) → List Event
events_of name [] = []
events_of name ((target, e) ∷ es) =
    let rest = events_of name es in if name == target then e ∷ rest else rest

breaker_of-put_breaker_self :
    (m : CircuitBreakerManager) (name : Text) (cb : CircuitBreaker)
    → breaker_of (put_breaker m name cb) name ≡ cb
unfolding breaker_of put_breaker
breaker_of-put_breaker_self m name cb = ground (arith, lookup-insert_self name cb m.breakers)

breaker_of-put_breaker_ne :
    (m : CircuitBreakerManager) (name target : Text) (cb : CircuitBreaker)
    → name ≢ target
    → breaker_of (put_breaker m target cb) name ≡ breaker_of m name
unfolding breaker_of put_breaker
breaker_of-put_breaker_ne m name target cb ne =
    ground (arith, lookup-insert_ne name target cb m.breakers ne)

events_of_same :
    (name target : Text) (e : Event) (es : List (Text × Event))
    → name ≡ target
    → events_of name ((target, e) ∷ es) ≡ e ∷ events_of name es
events_of_same name target e es same = ground (arith, same)

events_of_ne :
    (name target : Text) (e : Event) (es : List (Text × Event))
    → name ≢ target
    → events_of name ((target, e) ∷ es) ≡ events_of name es
events_of_ne name target e es ne = ground (arith, ne)

module _ (reached : ℕ → ℕ → Bool) where
  -- A call of the interceptor with nothing in between: the invoker's error is `invoked`, if it is
  -- run at all.
  unfoldable pub intercept :
      CircuitBreakerManager → Text → ℕ → ℕ → Option Error → CircuitBreakerManager × Option Error
  unfolding get_breaker
  intercept m target start end invoked =
      let (m', cb) = get_breaker m target in
      let (cb', admitted) = before_request start cb in
      if admitted
      then (
        put_breaker m' target (after_request reached end (not (is_some invoked)) cb'),
        to_status invoked,
      )
      else (put_breaker m' target cb', to_status (some circuit_open))

  -- Beginnings and ends of calls, each with its target, in any order.
  unfoldable pub manager_step : CircuitBreakerManager → Text × Event → CircuitBreakerManager
  unfolding breaker_of put_breaker
  manager_step m (target, e) = put_breaker m target (step reached (breaker_of m target) e)

  unfoldable pub manager_run : CircuitBreakerManager → List (Text × Event) → CircuitBreakerManager
  unfolding manager_step
  manager_run m [] = m
  manager_run m (e ∷ es) = manager_run (manager_step m e) es

  manager_step_self :
      (m : CircuitBreakerManager) (name target : Text) (e : Event)
      → name ≡ target
      → breaker_of (manager_step m (target, e)) name ≡ step reached (breaker_of m name) e
  unfolding manager_step
  manager_step_self m name target e same =
      ap (λ t. breaker_of (put_breaker m t (step reached (breaker_of m t) e)) name) (sym same)
      ∙ breaker_of-put_breaker_self m name (step reached (breaker_of m name) e)

  manager_step_ne :
      (m : CircuitBreakerManager) (name target : Text) (e : Event)
      → name ≢ target
      → breaker_of (manager_step m (target, e)) name ≡ breaker_of m name
  unfolding manager_step
  manager_step_ne m name target e ne =
      breaker_of-put_breaker_ne m name target (step reached (breaker_of m target) e) ne

  one_event :
      (m : CircuitBreakerManager) (name target : Text) (e : Event) (es : List (Text × Event))
      → run reached (breaker_of (manager_step m (target, e)) name) (events_of name es)
        ≡ run reached (breaker_of m name) (events_of name ((target, e) ∷ es))
  unfolding run
  one_event m name target e es = elim (text_eq.dec name target) [
    | yes same ↦
        ap (λ cb. run reached cb (events_of name es)) (manager_step_self m name target e same)
        ∙ ap (run reached (breaker_of m name)) (sym (events_of_same name target e es same))
    | no ne ↦
        ap (λ cb. run reached cb (events_of name es)) (manager_step_ne m name target e ne)
        ∙ ap (run reached (breaker_of m name)) (sym (events_of_ne name target e es ne))
  ]

  manager_run-cons :
      (m : CircuitBreakerManager) (e : Text × Event) (es : List (Text × Event)) (name : Text)
      → breaker_of (manager_run m (e ∷ es)) name
        ≡ breaker_of (manager_run (manager_step m e) es) name
  unfolding manager_run
  manager_run-cons m e es name = refl

  pub breaker_of-manager_run :
      (m : CircuitBreakerManager) (name : Text) (es : List (Text × Event))
      → breaker_of (manager_run m es) name ≡ run reached (breaker_of m name) (events_of name es)
  breaker_of-manager_run m name [] = unfold manager_run run in refl
  breaker_of-manager_run m name ((target, e) ∷ es) =
      manager_run-cons m (target, e) es name
      ∙ breaker_of-manager_run (manager_step m (target, e)) name es
      ∙ one_event m name target e es

  -- A refused call is answered with `Unavailable`; any other one runs the invoker, counts its
  -- success or failure, and gives back its error, `ErrCircuitOpen` as `Unavailable` too.
  pub intercept-execute :
      (m : CircuitBreakerManager) (target : Text) (start end : ℕ) (invoked : Option Error)
      → let cb = breaker_of m target in
        let (m', answer) = intercept m target start end invoked in
        (breaker_of m' target ≡ (execute reached start end (not (is_some invoked)) cb).0)
        × (Refusing start cb → answer ≡ some unavailable)
        × ((Refusing start cb → ⊥) → answer ≡ to_status invoked)
  unfolding intercept execute
  intercept-execute m target start end invoked =
      elim (Bool-cases (before_request start (breaker_of m target)).1) [
        | inl admitted ↦ (
          simp admitted (breaker_of-put_breaker_self _ target _),
          λ r.
              absurd
                (ground (arith, admitted, (before_request_iff start (breaker_of m target)).0.1 r)),
          λ free. simp admitted refl,
        )
        | inr refused ↦ (
          simp refused (breaker_of-put_breaker_self _ target _),
          λ r. simp refused refl,
          λ free. absurd (free ((before_request_iff start (breaker_of m target)).0.0 refused)),
        )
      ]
