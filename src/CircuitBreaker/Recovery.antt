-- ===== src/CircuitBreaker/Recovery.antt =====
-- circuitbreaker.go: the way back from an open circuit.
use grpc_vault_ha.Prelude.{
  ℕ, suc, ◌+◌, ◌≡◌, ◌<◌, subst, ◌∙◌, Bool, true, List, [], ◌∷◌, length, arith,
}
use grpc_vault_ha.CircuitBreaker.{
  CircuitBreaker, no_counts, closed, half_open, open_circuit, before_request, after_request,
  execute,
}

-- A breaker that k trials went through, all of them successful.
pub record Tried (m k : ℕ) (cb : CircuitBreaker) : Type 0 where
  pub half : cb.state ≡ half_open
  pub limit : cb.max_requests ≡ m
  pub tried : cb.counts.requests ≡ k
  pub succeeded : cb.counts.consecutive_successes ≡ k

pub record Recovered (m now interval : ℕ) (cb : CircuitBreaker) : Type 0 where
  pub is_closed : cb.state ≡ closed
  pub limit : cb.max_requests ≡ m
  pub cleared : cb.counts ≡ no_counts
  pub window : cb.expiry ≡ now + interval
  pub same_interval : cb.interval ≡ interval

module _ (reached : ℕ → ℕ → Bool) where
  -- Successful calls, one after the other: when each starts and ends.
  pub successes : CircuitBreaker → List (ℕ × ℕ) → CircuitBreaker
  successes cb [] = cb
  successes cb ((start, end) ∷ calls) = successes (execute reached start end true cb).0 calls

  -- The end of the last call.
  abbrev pub last_end : ℕ → List (ℕ × ℕ) → ℕ
  last_end end [] = end
  last_end end ((s, e) ∷ calls) = last_end e calls

  first_trial :
      (m start end : ℕ) (cb : CircuitBreaker)
      → cb.state ≡ open_circuit
      → cb.expiry < start
      → cb.max_requests ≡ m
      → 1 < m
      → Tried m 1 (execute reached start end true cb).0
        × ((execute reached start end true cb).0.interval ≡ cb.interval)
  unfolding execute before_request after_request
  first_trial m start end cb o x l h = ground (arith, o, x, l, h)

  only_trial :
      (start end : ℕ) (cb : CircuitBreaker)
      → cb.state ≡ open_circuit
      → cb.expiry < start
      → cb.max_requests ≡ 1
      → Recovered 1 end cb.interval (execute reached start end true cb).0
  unfolding execute before_request after_request
  only_trial start end cb o x l = ground (arith, o, x, l)

  next_trial :
      (m k start end : ℕ) (cb : CircuitBreaker)
      → Tried m k cb
      → suc k < m
      → m < 4294967296
      → Tried m (suc k) (execute reached start end true cb).0
        × ((execute reached start end true cb).0.interval ≡ cb.interval)
  unfolding execute before_request after_request
  next_trial m k start end cb t h small =
      ground (arith, t.half, t.limit, t.tried, t.succeeded, h, small)

  last_trial :
      (m k start end : ℕ) (cb : CircuitBreaker)
      → Tried m k cb
      → suc k ≡ m
      → m < 4294967296
      → Recovered m end cb.interval (execute reached start end true cb).0
  unfolding execute before_request after_request
  last_trial m k start end cb t h small =
      ground (arith, t.half, t.limit, t.tried, t.succeeded, h, small)

  trials-Recovered :
      (m k now interval : ℕ) (cb : CircuitBreaker) (calls : List (ℕ × ℕ))
      → Tried m k cb
      → cb.interval ≡ interval
      → k + length calls ≡ m
      → k < m
      → m < 4294967296
      → Recovered m (last_end now calls) interval (successes cb calls)
  unfolding successes
  trials-Recovered m k now interval cb [] t i e h small = absurd (omega (arith, e, h))
  trials-Recovered m k now interval cb ((start, end) ∷ []) t i e h small =
      subst (λ n. Recovered m end n (execute reached start end true cb).0) i
        (last_trial m k start end cb t (omega (arith, e)) small)
  trials-Recovered m k now interval cb ((start, end) ∷ call ∷ calls) t i e h small =
      let (t', i') = next_trial m k start end cb t (omega (arith, e)) small in
      trials-Recovered m (suc k) end interval _ (call ∷ calls) t' (i' ∙ i) (omega (arith, e))
        (omega (arith, e)) small

  -- An open circuit whose time has run out closes again after as many successful calls in a row as
  -- its limit says. Its counts are then zero, and the next window of its interval starts at the end
  -- of the last of these calls.
  pub successes-Recovered :
      (cb : CircuitBreaker) (start end : ℕ) (calls : List (ℕ × ℕ))
      → cb.state ≡ open_circuit
      → cb.expiry < start
      → cb.max_requests ≡ suc (length calls)
      → suc (length calls) < 4294967296
      → Recovered
          (suc (length calls))
          (last_end end calls)
          cb.interval
          (successes cb ((start, end) ∷ calls))
  unfolding successes
  successes-Recovered cb start end [] o x l small = only_trial start end cb o x l
  successes-Recovered cb start end (call ∷ calls) o x l small =
      let (t, i) = first_trial (suc (suc (length calls))) start end cb o x l (omega arith) in
      trials-Recovered _ 1 end cb.interval _ (call ∷ calls) t i (omega arith) (omega arith) small
