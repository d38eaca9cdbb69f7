-- ===== src/CircuitBreaker/Tests.antt =====
-- Runs of circuitbreaker.go, and the witnesses of its theorems.
use grpc_vault_ha.Prelude.{
  ℕ, List, ◌+◌, ◌*◌, ◌≡◌, ◌≤◌, ◌↔◌, refl, Bool, true, false, [], ◌∷◌, arith, leb,
}
use grpc_vault_ha.Prelude.Text.{Text, codes}
use grpc_vault_ha.CircuitBreaker.{
  CircuitBreaker, new_circuit_breaker, open_circuit, before_request, after_request, Event, run,
  begins, ends, step, u32, should_trip,
}
use grpc_vault_ha.CircuitBreaker.Trials.{IsValid, run-new_circuit_breaker-IsValid}
use grpc_vault_ha.CircuitBreaker.Manager.{
  CircuitBreakerManager, new_circuit_breaker_manager, breaker_of, manager_run, events_of,
  breaker_of-manager_run,
}
use grpc_vault_ha.CircuitBreaker.Recovery.{successes, Recovered, successes-Recovered}
use grpc_vault_ha.CircuitBreaker.Admission.{Refusing, before_request_iff, after_request-trips}

-- A failure ratio of one half.
abbrev half : ℕ → ℕ → Bool
half failures requests = leb requests (failures * 2)

abbrev fresh : CircuitBreaker
fresh = new_circuit_breaker [] 2 100 10

-- Two requests failed at time 5.
abbrev tripped : CircuitBreaker
tripped = run half fresh (begins 1 ∷ ends 5 false ∷ begins 2 ∷ ends 5 false ∷ [])

tripped-state : tripped.state ≡ open_circuit
unfolding run before_request after_request new_circuit_breaker should_trip step
tripped-state = refl

before_request_iff_example :
    (((before_request 15 tripped).1 ≡ false) ↔ Refusing 15 tripped)
    × ((before_request 15 tripped).1 ≡ false → (before_request 15 tripped).0 ≡ tripped)
before_request_iff_example = before_request_iff 15 tripped

abbrev failing : CircuitBreaker
failing = run half fresh (begins 1 ∷ ends 5 false ∷ begins 2 ∷ [])

after_request-trips_example :
    (((after_request half 5 false failing).state ≡ open_circuit) ↔ (
      (failing.max_requests ≤ failing.counts.requests)
      × (half (u32 2) failing.counts.requests ≡ true)))
    × ((after_request half 5 false failing).state ≡ open_circuit
        → (later : ℕ) → later ≤ 5 + failing.timeout
        → (before_request later (after_request half 5 false failing)).1 ≡ false)
unfolding run before_request after_request new_circuit_breaker should_trip step
after_request-trips_example = after_request-trips half 5 failing refl

abbrev late : List Event
late = begins 1 ∷ begins 2 ∷ ends 5 false ∷ begins 20 ∷ ends 21 true ∷ []

run-new_circuit_breaker-IsValid_example :
    IsValid 2 (run half (new_circuit_breaker [] 2 100 10) late)
run-new_circuit_breaker-IsValid_example =
    run-new_circuit_breaker-IsValid half 2 (omega arith) [] 100 10 late

successes-Recovered_example :
    Recovered 2 23 tripped.interval (successes half tripped ((20, 21) ∷ (22, 23) ∷ []))
unfolding run before_request after_request new_circuit_breaker should_trip step
successes-Recovered_example =
    successes-Recovered half tripped 20 21 ((22, 23) ∷ []) refl (omega arith) refl (omega arith)

abbrev manager : CircuitBreakerManager
manager = new_circuit_breaker_manager (record { max_requests = 2; interval = 100; timeout = 10 })

abbrev two_targets : List (Text × Event)
two_targets = (codes "a", begins 1) ∷ (codes "b", begins 2) ∷ (codes "a", ends 3 false) ∷ []

breaker_of-manager_run_example :
    breaker_of (manager_run half manager two_targets) (codes "a")
    ≡ run half (breaker_of manager (codes "a")) (events_of (codes "a") two_targets)
breaker_of-manager_run_example = breaker_of-manager_run half manager (codes "a") two_targets
