-- ===== src/Audit/Tests.antt =====
-- Runs of the audit stores, and the witnesses of their theorems.
use grpc_vault_ha.Prelude.{
  ℕ, zero, suc, ◌≡◌, refl, true, false, Option, none, some, List, [], ◌∷◌, reverse, keep, length,
}
use grpc_vault_ha.Prelude.Int.{pos}
use grpc_vault_ha.Prelude.Text.{Text, codes, text_dec}
use grpc_vault_ha.Audit.Entry.{AuditEntry, QueryOptions, matches_common}
use grpc_vault_ha.Audit.Scan.{page, scan}
use grpc_vault_ha.Audit.{new_memory_storage, query, count_entries, write, write_batch}
use grpc_vault_ha.Audit.Recent.{Call, writes, writes_batch, run, step, history, last, query-last}
use grpc_vault_ha.Audit.File.{
  Writer, FileStorage, io_failed, write_line, write_lines, write_batch_file,
}
use grpc_vault_ha.Audit.File.Index.{Indexed, write_batch_file-Indexed}

-- No `interface{}` values.
abbrev NoValue : Type 0
NoValue = ⊥

abbrev entry : Text → ℕ → AuditEntry NoValue
entry id timestamp = record {
  id = id;
  timestamp = timestamp;
  entry_type = codes "request";
  auth = none;
  request = none;
  response = none;
  error = [];
  metadata = [];
}

abbrev opts : QueryOptions
opts = record {
  start_time = 5;
  end_time = 0;
  entry_type = [];
  path = [];
  operation = [];
  client_token = [];
  limit = pos 1;
  offset = pos 0;
}

abbrev calls : List (Call NoValue)
calls =
    writes (entry (codes "a") 4)
    ∷ writes_batch (entry (codes "b") 6 ∷ entry (codes "c") 7 ∷ [])
    ∷ []

-- The newest entry of the two that are left.
query-newest :
    query NoValue (run NoValue (new_memory_storage NoValue 2) calls) opts ≡ entry (codes "c") 7 ∷ []
unfolding query run step write write_batch new_memory_storage scan matches_common text_dec
query-newest = refl

query-last_example :
    (query NoValue (run NoValue (new_memory_storage NoValue 2) calls) opts
      ≡ page
          (matches_common NoValue opts)
          opts.offset
          opts.limit
          (reverse (last 2 (history NoValue calls))))
    × (count_entries NoValue (run NoValue (new_memory_storage NoValue 2) calls) opts
        ≡ length (keep (matches_common NoValue opts) (last 2 (history NoValue calls))))
query-last_example = query-last NoValue 2 calls opts

-- A disk that takes that many more bytes strings, and can always be flushed.
abbrev disk : Writer
disk = record {
  State = ℕ;
  write_bytes = λ room bytes. elim room [ zero ↦ (0, false) | suc n ↦ (n, true) ];
  flush = λ room. (room, true);
}

abbrev by_id : AuditEntry NoValue → Option Text
by_id e = some e.id

abbrev store : FileStorage NoValue disk by_id
store = record { output = 3; entries = []; max_size = 1 }

abbrev batch : List (AuditEntry NoValue)
batch = entry (codes "a") 4 ∷ entry (codes "b") 6 ∷ []

-- The second line cannot be ended: its entry is not taken in.
batch_fails :
    write_batch_file NoValue disk by_id store batch
    ≡ (record { output = 0; entries = entry (codes "a") 4 ∷ []; max_size = 1 }, some io_failed)
unfolding write_batch_file write_lines write_line
batch_fails = refl

write_batch_file-Indexed_example :
    Indexed NoValue disk by_id store batch (write_batch_file NoValue disk by_id store batch)
write_batch_file-Indexed_example = write_batch_file-Indexed NoValue disk by_id store batch
