-- ===== src/Audit/Service/Logged.antt =====
-- audit_service.go over the memory store: what is logged, however the worker's steps fall between.
use mathlib.Core.List.{append_assoc, append-nil}
use grpc_vault_ha.Prelude.{
  Option-cases, ℕ, ◌≡◌, refl, sym, ap, ◌∙◌, Bool, true, false, ◌&&◌, Option, none, some, List, [],
  ◌∷◌, ◌++◌, arith, length, eqb, keep, reverse, Bool-cases, inl, inr,
}
use grpc_vault_ha.Prelude.Int.{ℤ}
use grpc_vault_ha.Audit.{MemoryStorage, new_memory_storage, write_batch}
use grpc_vault_ha.Audit.Entry.{AuditEntry, QueryOptions, matches_common}
use grpc_vault_ha.Audit.Scan.{page}
use grpc_vault_ha.Audit.Recent.{Call, writes_batch, history, last, query-last}
use grpc_vault_ha.Audit.Recent as Recent
use grpc_vault_ha.Audit.Service.{
  memory, AuditService, Signal, ticked, flush_asked, closed, new_audit_service, write_entry,
  take_buffer, write_taken, waits, flush_worker, close, query,
}

module _ (any : Type 0) where
  abbrev pub Service : Type 0
  Service = AuditService any (memory any)

  -- A caller logs an entry, the worker begins or ends a flush, and the service is closed.
  pub data Event : Type 0 where
    logs : AuditEntry any → Event
    begins : Signal any (memory any) → Event
    ends closes : Event

  unfoldable pub step : Service → Event → Service
  step s (logs entry) = write_entry any (memory any) s entry
  step s (begins signal) = flush_worker any (memory any) s signal
  step s ends = write_taken any (memory any) s
  step s closes = close any (memory any) s

  unfoldable pub run : Service → List Event → Service
  unfolding step
  run s [] = s
  run s (e ∷ es) = run (step s e) es

  abbrev said : Event → List (AuditEntry any)
  said (logs entry) = entry ∷ []
  said (begins signal) = []
  said ends = []
  said closes = []

  abbrev pub logged : List Event → List (AuditEntry any)
  logged [] = []
  logged (e ∷ es) = said e ++ logged es

  abbrev taken : Option (List (AuditEntry any)) → List (AuditEntry any)
  taken none = []
  taken (some entries) = entries

  -- The store has some batches, and these, what is being written and the buffer are the log.
  record Kept (n : ℕ) (log : List (AuditEntry any)) (s : Service) : Type 0 where
    calls : List (Call any)
    stored : s.storage ≡ Recent.run any (new_memory_storage any n) calls
    whole : history any calls ++ (taken s.in_flight ++ s.buffer) ≡ log

  run-snoc :
      (m : MemoryStorage any) (cs : List (Call any)) (c : Call any)
      → Recent.run any m (cs ++ c ∷ []) ≡ Recent.step any (Recent.run any m cs) c
  unfolding Recent.run
  run-snoc m [] c = refl
  run-snoc m (d ∷ cs) c = run-snoc (Recent.step any m d) cs c

  history-snoc :
      (cs : List (Call any)) (es : List (AuditEntry any))
      → history any (cs ++ writes_batch es ∷ []) ≡ history any cs ++ es
  history-snoc [] es = append-nil es
  history-snoc (c ∷ cs) es =
      ap (λ xs. Recent.written any c ++ xs) (history-snoc cs es)
      ∙ sym (append_assoc (Recent.written any c) (history any cs) es)

  write_entry-Kept :
      (n : ℕ) (log : List (AuditEntry any)) (s : Service) (e : AuditEntry any)
      → Kept n log s
      → Kept n (log ++ e ∷ []) (write_entry any (memory any) s e)
  unfolding write_entry
  write_entry-Kept n log s e k = record {
    calls = k.calls;
    stored = k.stored;
    whole =
        ap (λ xs. history any k.calls ++ xs)
          (sym (append_assoc (taken s.in_flight) s.buffer (e ∷ [])))
        ∙ sym (append_assoc (history any k.calls) (taken s.in_flight ++ s.buffer) (e ∷ []))
        ∙ ap (λ xs. xs ++ e ∷ []) k.whole;
  }

  take_buffer-Kept :
      (n : ℕ) (log : List (AuditEntry any)) (s : Service)
      → s.in_flight ≡ none
      → Kept n log s
      → Kept n log (take_buffer any (memory any) s)
  take_buffer-Kept n log s idle k = elim (Bool-cases (eqb (length s.buffer) 0)) [
    | inl empty ↦ rw (take-empty s empty) k
    | inr full ↦
        rw (take-full s full) (record { calls = k.calls; stored = k.stored; whole = moved })
  ]
    where
      moved : history any k.calls ++ (s.buffer ++ []) ≡ log
      moved =
          ap (λ xs. history any k.calls ++ xs) (append-nil s.buffer)
          ∙ ap (λ o. history any k.calls ++ (taken o ++ s.buffer)) (sym idle)
          ∙ k.whole

      take-empty :
          (s : Service) → eqb (length s.buffer) 0 ≡ true → take_buffer any (memory any) s ≡ s
      take-empty s h = unfold take_buffer in simp h

      take-full :
          (s : Service)
          → eqb (length s.buffer) 0 ≡ false
          → take_buffer any (memory any) s ≡ record s { buffer = []; in_flight = some s.buffer }
      take-full s h = unfold take_buffer in simp h

  write_taken-none : (s : Service) → s.in_flight ≡ none → write_taken any (memory any) s ≡ s
  unfolding write_taken
  write_taken-none s e = ground (arith, e)

  write_taken-some :
      (s : Service) (es : List (AuditEntry any))
      → s.in_flight ≡ some es
      → write_taken any (memory any) s
        ≡ record s { storage = write_batch any s.storage es; in_flight = none }
  unfolding write_taken
  write_taken-some s es e = ground (arith, e)

  written-Kept :
      (n : ℕ) (log : List (AuditEntry any)) (s : Service) (es : List (AuditEntry any))
      → s.in_flight ≡ some es
      → Kept n log s
      → Kept n log (record s { storage = write_batch any s.storage es; in_flight = none })
  unfolding Recent.step
  written-Kept n log s es e k = record {
    calls = k.calls ++ writes_batch es ∷ [];
    stored =
        ap (λ m. write_batch any m es) k.stored
        ∙ sym (run-snoc (new_memory_storage any n) k.calls (writes_batch es));
    whole =
        ap (λ h. h ++ s.buffer) (history-snoc k.calls es)
        ∙ append_assoc (history any k.calls) es s.buffer
        ∙ ap (λ o. history any k.calls ++ (taken o ++ s.buffer)) (sym e)
        ∙ k.whole;
  }

  write_taken-Kept :
      (n : ℕ) (log : List (AuditEntry any)) (s : Service)
      → Kept n log s
      → Kept n log (write_taken any (memory any) s)
  write_taken-Kept n log s k = elim (Option-cases s.in_flight) [
    | inl idle ↦ rw (write_taken-none s idle) k
    | inr (es, busy) ↦ rw (write_taken-some s es busy) (written-Kept n log s es busy k)
  ]

  flagged :
      (n : ℕ) (log : List (AuditEntry any)) (s : Service) (f c t : Bool)
      → Kept n log s
      → Kept n log (record s { flush_requested = f; closing = c; stopped = t })
  flagged n log s f c t k = record { calls = k.calls; stored = k.stored; whole = k.whole }

  waits-idle : (s : Service) (b : Bool) → waits any (memory any) s && b ≡ true → s.in_flight ≡ none
  unfolding waits
  waits-idle s b h = elim (Option-cases s.in_flight) [
    | inl idle ↦ idle
    | inr (es, busy) ↦ absurd (ground (arith, busy, h))
  ]

  begins-Kept :
      (n : ℕ) (log : List (AuditEntry any)) (s : Service) (signal : Signal any (memory any))
      → Kept n log s
      → Kept n log (flush_worker any (memory any) s signal)
  unfolding flush_worker
  begins-Kept n log s ticked k = elim (Bool-cases (waits any (memory any) s && true)) [
    | inl free ↦ rw (whole free) (take_buffer-Kept n log s (waits-idle s true free) k)
    | inr held ↦ rw (half held) k
  ]
    where
      whole : waits any (memory any) s && true ≡ true → waits any (memory any) s ≡ true
      whole h = ground (arith, h)

      half : waits any (memory any) s && true ≡ false → waits any (memory any) s ≡ false
      half h = ground (arith, h)
  begins-Kept n log s flush_asked k =
      elim (Bool-cases (waits any (memory any) s && s.flush_requested)) [
        | inl free ↦ rw free (
            take_buffer-Kept n log (record s { flush_requested = false })
              (waits-idle s s.flush_requested free) (flagged n log s false s.closing s.stopped k))
        | inr held ↦ rw held k
      ]
  begins-Kept n log s closed k = elim (Bool-cases (waits any (memory any) s && s.closing)) [
    | inl free ↦ rw free (
        take_buffer-Kept n log (record s { stopped = true }) (waits-idle s s.closing free)
          (flagged n log s s.flush_requested s.closing true k))
    | inr held ↦ rw held k
  ]

  step-Kept :
      (n : ℕ) (log : List (AuditEntry any)) (s : Service) (e : Event)
      → Kept n log s
      → Kept n (log ++ said e) (step s e)
  unfolding step
  step-Kept n log s (logs entry) k = write_entry-Kept n log s entry k
  step-Kept n log s (begins signal) k = rw (append-nil log) (begins-Kept n log s signal k)
  step-Kept n log s ends k = rw (append-nil log) (write_taken-Kept n log s k)
  step-Kept n log s closes k =
      rw (append-nil log) (unfold close in flagged n log s s.flush_requested true s.stopped k)

  run-Kept :
      (n : ℕ) (es : List Event) (log : List (AuditEntry any)) (s : Service)
      → Kept n log s
      → Kept n (log ++ logged es) (run s es)
  unfolding run
  run-Kept n [] log s k = rw (append-nil log) k
  run-Kept n (e ∷ es) log s k =
      rw (sym (append_assoc log (said e) (logged es)))
        (run-Kept n es (log ++ said e) (step s e) (step-Kept n log s e k))

  start :
      (n : ℕ) (buffer_size : ℤ)
      → Kept n [] (new_audit_service any (memory any) (new_memory_storage any n) buffer_size)
  unfolding new_audit_service Recent.run
  start n buffer_size = record { calls = []; stored = refl; whole = refl }

  flushed :
      (s : Service) (calls : List (Call any)) (log : List (AuditEntry any))
      → s.buffer ≡ []
      → s.in_flight ≡ none
      → history any calls ++ (taken s.in_flight ++ s.buffer) ≡ log
      → history any calls ≡ log
  flushed s calls log empty idle h =
      sym (append-nil (history any calls))
      ∙ ap (λ xs. history any calls ++ (taken none ++ xs)) (sym empty)
      ∙ ap (λ o. history any calls ++ (taken o ++ s.buffer)) (sym idle)
      ∙ h

  pair_eq :
      (xs ys : List (AuditEntry any)) (a b : ℕ)
      → xs ≡ ys
      → a ≡ b
      → ◌≡◌ {A = Option (List (AuditEntry any) × ℕ)} (some (xs, a)) (some (ys, b))
  pair_eq xs ys a b e f = cc (e, f)

  abbrev expected : ℕ → List (AuditEntry any) → QueryOptions → Option (List (AuditEntry any) × ℕ)
  expected n log opts = some (
    page (matches_common any opts) opts.offset opts.limit (reverse (last n log)),
    length (keep (matches_common any opts) (last n log)),
  )

  answers :
      (n : ℕ) (s : Service) (calls : List (Call any)) (log : List (AuditEntry any))
      (opts : QueryOptions)
      → s.storage ≡ Recent.run any (new_memory_storage any n) calls
      → history any calls ≡ log
      → query any (memory any) s opts ≡ expected n log opts
  unfolding query
  answers n s calls log opts stored same =
      let (q, c) = query-last any n calls opts in
      rw stored (pair_eq _ _ _ _ q c) ∙ ap (λ l. expected n l opts) same

  -- Whatever callers log, and however the worker's flushes fall between: once the buffer is empty
  -- and nothing is being written, a query is answered with a page of the matching ones among the
  -- latest entries that were logged, as many as the memory store holds, the newest first, and with
  -- their number.
  pub query-logged :
      (n : ℕ) (buffer_size : ℤ) (es : List Event) (opts : QueryOptions)
      → (run (new_audit_service any (memory any) (new_memory_storage any n) buffer_size) es).buffer
        ≡ []
      → (run
          (new_audit_service any (memory any) (new_memory_storage any n) buffer_size)
          es).in_flight
        ≡ none
      → query any
          (memory any)
          (run (new_audit_service any (memory any) (new_memory_storage any n) buffer_size) es)
          opts
        ≡ some (
          page (matches_common any opts) opts.offset opts.limit (reverse (last n (logged es))),
          length (keep (matches_common any opts) (last n (logged es))),
        )
  query-logged n buffer_size es opts empty idle =
      let s = run (new_audit_service any (memory any) (new_memory_storage any n) buffer_size) es in
      let k =
        run-Kept n es [] (new_audit_service any (memory any) (new_memory_storage any n) buffer_size)
          (start n buffer_size) in
      answers n s k.calls (logged es) opts k.stored
        (flushed s k.calls (logged es) empty idle k.whole)
