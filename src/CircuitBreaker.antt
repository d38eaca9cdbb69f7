-- ===== src/CircuitBreaker.antt =====
-- services/gateway/internal/middleware/circuitbreaker.go: one breaker for each backend, its state
-- machine, and the client interceptor. Times are nanoseconds since Go's zero time, so that 0 is
-- the zero `time.Time`; `now` is what the clock shows during a call. Durations are not negative.
-- The floating-point test of `shouldTrip` is the parameter `reached`: `reached f r` stands for
-- `float64(f) / float64(r) >= cb.failureRatio`.
pub mod Admission
pub mod Trials
pub mod Recovery
pub mod Manager
mod Tests
use grpc_vault_ha.Prelude.{
  ℕ, ◌+◌, ◌%◌, Bool, true, false, not, ◌&&◌, List, [], ◌∷◌, ltb, leb, eqb, if◌then◌else◌,
}
use grpc_vault_ha.Prelude.Text.{Text}

pub data State : Type 0 where
  closed half_open open_circuit : State

-- `uint32` arithmetic wraps.
abbrev pub u32 : ℕ → ℕ
u32 n = n % 4294967296

pub record Counts : Type 0 where
  pub requests : ℕ
  pub total_successes : ℕ
  pub total_failures : ℕ
  pub consecutive_successes : ℕ
  pub consecutive_failures : ℕ

-- `Counts{}`
abbrev pub no_counts : Counts
no_counts = record {
  requests = 0;
  total_successes = 0;
  total_failures = 0;
  consecutive_successes = 0;
  consecutive_failures = 0;
}

pub record CircuitBreaker : Type 0 where
  pub name : Text
  pub max_requests : ℕ
  pub interval : ℕ
  pub timeout : ℕ
  pub state : State
  pub counts : Counts
  pub expiry : ℕ
  pub last_failure : ℕ

unfoldable pub new_circuit_breaker : Text → ℕ → ℕ → ℕ → CircuitBreaker
new_circuit_breaker name max_requests interval timeout = record {
  name = name;
  max_requests = max_requests;
  interval = interval;
  timeout = timeout;
  state = closed;
  counts = no_counts;
  expiry = 0;
  last_failure = 0;
}

abbrev same_state : State → State → Bool
same_state closed closed = true
same_state half_open half_open = true
same_state open_circuit open_circuit = true
same_state _ _ = false

-- The second `switch` of `setState`.
abbrev enter : ℕ → CircuitBreaker → State → CircuitBreaker
enter now cb closed = record cb { expiry = now + cb.interval; counts = no_counts }
enter now cb open_circuit = record cb { expiry = now + cb.timeout }
enter now cb half_open = record cb { counts = no_counts }

set_state : ℕ → CircuitBreaker → State → CircuitBreaker
set_state now cb state =
    if same_state cb.state state then cb else enter now (record cb { state = state }) state

abbrev reset : ℕ → CircuitBreaker → CircuitBreaker
reset now cb = record cb { counts = no_counts; expiry = now + cb.interval }

-- `cb.counts.Requests++`; `true` says that the request is let through, `false` is
-- `ErrCircuitOpen`.
abbrev admit : CircuitBreaker → CircuitBreaker × Bool
admit cb =
    (record cb { counts = record (cb.counts) { requests = u32 (cb.counts.requests + 1) } }, true)

before_in : State → ℕ → CircuitBreaker → CircuitBreaker × Bool
unfolding set_state
before_in closed now cb =
    admit (if not (eqb cb.expiry 0) && ltb cb.expiry now then reset now cb else cb)
before_in open_circuit now cb =
    if ltb cb.expiry now then admit (set_state now cb half_open) else (cb, false)
before_in half_open now cb =
    if leb cb.max_requests cb.counts.requests then (cb, false) else admit cb

unfoldable pub before_request : ℕ → CircuitBreaker → CircuitBreaker × Bool
unfolding before_in
before_request now cb = before_in cb.state now cb

success_in : State → ℕ → CircuitBreaker → CircuitBreaker
unfolding set_state
success_in half_open now cb =
    if leb cb.max_requests cb.counts.consecutive_successes then set_state now cb closed else cb
success_in _ now cb = cb

on_success : ℕ → CircuitBreaker → CircuitBreaker
unfolding success_in
on_success now cb = success_in cb.state now (record cb {
  counts = record (cb.counts) {
    total_successes = u32 (cb.counts.total_successes + 1);
    consecutive_successes = u32 (cb.counts.consecutive_successes + 1);
    consecutive_failures = 0;
  };
})

module _ (reached : ℕ → ℕ → Bool) where
  unfoldable pub should_trip : CircuitBreaker → Bool
  should_trip cb =
      if ltb cb.counts.requests cb.max_requests
      then false
      else reached cb.counts.total_failures cb.counts.requests

  failure_in : State → ℕ → CircuitBreaker → CircuitBreaker
  unfolding set_state should_trip
  failure_in closed now cb = if should_trip cb then set_state now cb open_circuit else cb
  failure_in half_open now cb = set_state now cb open_circuit
  failure_in open_circuit now cb = cb

  on_failure : ℕ → CircuitBreaker → CircuitBreaker
  unfolding failure_in
  on_failure now cb = failure_in cb.state now (record cb {
    counts = record (cb.counts) {
      total_failures = u32 (cb.counts.total_failures + 1);
      consecutive_failures = u32 (cb.counts.consecutive_failures + 1);
      consecutive_successes = 0;
    };
    last_failure = now;
  })

  -- `succeeded` says that the error of the request was nil.
  unfoldable pub after_request : ℕ → Bool → CircuitBreaker → CircuitBreaker
  unfolding on_success on_failure
  after_request now succeeded cb = if succeeded then on_success now cb else on_failure now cb

  -- A whole call that starts and ends at the given times with nothing in between: the new breaker,
  -- and whether the function was run.
  unfoldable pub execute : ℕ → ℕ → Bool → CircuitBreaker → CircuitBreaker × Bool
  execute start end succeeded cb =
      let (cb', admitted) = before_request start cb in
      if admitted then (after_request end succeeded cb', true) else (cb', false)

-- Calls overlap: their beginnings and ends come in any order.
pub data Event : Type 0 where
  begins : ℕ → Event
  ends : ℕ → Bool → Event

unfoldable pub step : (ℕ → ℕ → Bool) → CircuitBreaker → Event → CircuitBreaker
step reached cb (begins now) = (before_request now cb).0
step reached cb (ends now succeeded) = after_request reached now succeeded cb

unfoldable pub run : (ℕ → ℕ → Bool) → CircuitBreaker → List Event → CircuitBreaker
run reached cb [] = cb
run reached cb (e ∷ es) = run reached (step reached cb e) es
