-- ===== src/CircuitBreaker/Admission.antt =====
-- circuitbreaker.go, `beforeRequest`: who is let through.
use grpc_vault_ha.Prelude.{ℕ, ◌+◌, ◌≡◌, ◌≤◌, ◌⊎◌, ◌↔◌, true, false, Bool, arith}
use grpc_vault_ha.CircuitBreaker.{
  CircuitBreaker, closed, half_open, open_circuit, before_request, after_request, u32,
}

-- The conditions under which a request is refused.
abbrev pub Refusing : ℕ → CircuitBreaker → Type 0
Refusing now cb =
    ((cb.state ≡ open_circuit) × (now ≤ cb.expiry))
    ⊎ ((cb.state ≡ half_open) × (cb.max_requests ≤ cb.counts.requests))

before_request-refused :
    (now : ℕ) (cb : CircuitBreaker)
    → (before_request now cb).1 ≡ false
    → Refusing now cb × ((before_request now cb).0 ≡ cb)
unfolding before_request
before_request-refused now cb = ground arith

before_request-Refusing :
    (now : ℕ) (cb : CircuitBreaker) → Refusing now cb → (before_request now cb).1 ≡ false
unfolding before_request
before_request-Refusing now cb = ground arith

-- A request is refused exactly if the circuit is open and its time has not run out, or half open
-- with all its trial requests given away; a refusal changes nothing.
pub before_request_iff :
    (now : ℕ) (cb : CircuitBreaker)
    → (((before_request now cb).1 ≡ false) ↔ Refusing now cb)
      × ((before_request now cb).1 ≡ false → (before_request now cb).0 ≡ cb)
before_request_iff now cb = (
  (λ h. (before_request-refused now cb h).0, before_request-Refusing now cb),
  λ h. (before_request-refused now cb h).1,
)

pub after_request-trips :
    (reached : ℕ → ℕ → Bool) (now : ℕ) (cb : CircuitBreaker)
    → cb.state ≡ closed
    → let cb' = after_request reached now false cb in
      ((cb'.state ≡ open_circuit) ↔ (
        (cb.max_requests ≤ cb.counts.requests)
        × (reached (u32 (cb.counts.total_failures + 1)) cb.counts.requests ≡ true)))
      × (cb'.state ≡ open_circuit
          → (later : ℕ) → later ≤ now + cb.timeout
          → (before_request later cb').1 ≡ false)
unfolding after_request before_request
after_request-trips reached now cb c = (ground (arith, c), λ o later h. ground (arith, c, o, h))
