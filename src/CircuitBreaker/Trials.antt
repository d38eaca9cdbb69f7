-- ===== src/CircuitBreaker/Trials.antt =====
-- circuitbreaker.go: what holds between any two steps of overlapping calls.
use grpc_vault_ha.Prelude.{ℕ, ◌≡◌, ◌≤◌, ◌<◌, ◌⊎◌, refl, Bool, List, [], ◌∷◌, arith}
use grpc_vault_ha.Prelude.Text.{Text}
use grpc_vault_ha.CircuitBreaker.{
  CircuitBreaker, Counts, State, closed, half_open, open_circuit, Event, begins, ends,
  new_circuit_breaker, before_request, after_request, step, run, before_in,
}

-- In a half-open circuit at least one trial was let through, and no more than the limit or one; no
-- trial has failed, and not enough have succeeded yet.
abbrev pub Trials : ℕ → State → Counts → Type 0
Trials m half_open c =
    (1 ≤ c.requests)
    × ((c.requests ≤ m) ⊎ (c.requests ≡ 1))
    × ((c.consecutive_successes < m) ⊎ (c.consecutive_successes ≡ 0))
    × (c.total_failures ≡ 0)
    × (c.consecutive_failures ≡ 0)
Trials m _ c = Unit {0}

pub record IsValid (m : ℕ) (cb : CircuitBreaker) : Type 0 where
  pub same_limit : cb.max_requests ≡ m
  pub trials : Trials m cb.state cb.counts

module _ (reached : ℕ → ℕ → Bool) (m : ℕ) (small : m < 4294967296) where
  before_in-IsValid :
      (state : State) (now : ℕ) (cb : CircuitBreaker)
      → cb.state ≡ state
      → cb.max_requests ≡ m
      → Trials m state cb.counts
      → IsValid m (before_in state now cb).0
  unfolding before_in
  before_in-IsValid closed now cb e l t = ground (arith, e, l)
  before_in-IsValid open_circuit now cb e l t = ground (arith, e, l)
  before_in-IsValid half_open now cb e l t = ground (arith, e, l, t, small)

  after_request-IsValid :
      (state : State) (now : ℕ) (succeeded : Bool) (cb : CircuitBreaker)
      → cb.state ≡ state
      → cb.max_requests ≡ m
      → Trials m state cb.counts
      → IsValid m (after_request reached now succeeded cb)
  unfolding after_request
  after_request-IsValid closed now succeeded cb e l t = ground (arith, e, l)
  after_request-IsValid open_circuit now succeeded cb e l t = ground (arith, e, l)
  after_request-IsValid half_open now succeeded cb e l t = ground (arith, e, l, t, small)

  step-IsValid : (cb : CircuitBreaker) (e : Event) → IsValid m cb → IsValid m (step reached cb e)
  unfolding step before_request
  step-IsValid cb (begins now) v = before_in-IsValid cb.state now cb refl v.same_limit v.trials
  step-IsValid cb (ends now succeeded) v =
      after_request-IsValid cb.state now succeeded cb refl v.same_limit v.trials

  run-IsValid :
      (cb : CircuitBreaker) (es : List Event) → IsValid m cb → IsValid m (run reached cb es)
  unfolding run
  run-IsValid cb [] v = v
  run-IsValid cb (e ∷ es) v = run-IsValid (step reached cb e) es (step-IsValid cb e v)

  -- However calls overlap and whatever comes of them, a half-open breaker has let at least one
  -- trial through since it left the open state, and no more than its limit, or one if the limit is
  -- 0; no failure was seen since then, and fewer successes than the limit, or none.
  pub run-new_circuit_breaker-IsValid :
      (name : Text) (interval timeout : ℕ) (es : List Event)
      → IsValid m (run reached (new_circuit_breaker name m interval timeout) es)
  run-new_circuit_breaker-IsValid name interval timeout es =
      run-IsValid _ es (unfold new_circuit_breaker in record { same_limit = refl; trials = tt })
