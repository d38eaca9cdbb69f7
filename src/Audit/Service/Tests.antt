-- ===== src/Audit/Service/Tests.antt =====
-- A run of audit_service.go over the memory store, and the witness of its theorem.
use grpc_vault_ha.Prelude.{◌≡◌, refl, none, some, List, [], ◌∷◌, reverse, keep, length}
use grpc_vault_ha.Prelude.Int.{pos}
use grpc_vault_ha.Prelude.Text.{Text, codes}
use grpc_vault_ha.Audit.{new_memory_storage}
use grpc_vault_ha.Audit.Entry.{AuditEntry, QueryOptions, matches_common}
use grpc_vault_ha.Audit.Scan.{page}
use grpc_vault_ha.Audit.Recent.{last}
use grpc_vault_ha.Audit.Service.{
  memory, ticked, flush_asked, closed, new_audit_service, write_entry, write_taken, flush_worker,
  close, query,
}
use grpc_vault_ha.Audit.Service.Logged.{
  Event, logs, begins, ends, closes, run, logged, query-logged,
}

abbrev entry : Text → AuditEntry ⊥
entry id = record {
  id = id;
  timestamp = 8;
  entry_type = codes "error";
  auth = none;
  request = none;
  response = none;
  error = codes "denied";
  metadata = [];
}

abbrev everything : QueryOptions
everything = record {
  start_time = 0;
  end_time = 0;
  entry_type = [];
  path = [];
  operation = [];
  client_token = [];
  limit = pos 0;
  offset = pos 0;
}

-- The second entry comes while the first is being written.
abbrev events : List (Event ⊥)
events =
    logs (entry (codes "a"))
    ∷ begins flush_asked
    ∷ logs (entry (codes "b"))
    ∷ ends
    ∷ begins ticked
    ∷ ends
    ∷ logs (entry (codes "c"))
    ∷ closes
    ∷ begins closed
    ∷ ends
    ∷ []

query-logged_example :
    query ⊥
      (memory ⊥)
      (run ⊥ (new_audit_service ⊥ (memory ⊥) (new_memory_storage ⊥ 2) (pos 1)) events)
      everything
    ≡ some (
      page (matches_common ⊥ everything) (pos 0) (pos 0) (reverse (last 2 (logged ⊥ events))),
      length (keep (matches_common ⊥ everything) (last 2 (logged ⊥ events))),
    )
unfolding run new_audit_service write_entry write_taken flush_worker close
query-logged_example = query-logged ⊥ 2 (pos 1) events everything refl refl
