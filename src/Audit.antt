-- ===== src/Audit.antt =====
-- services/audit/internal/storage: the audit log in memory and in a file.
-- `any` stands for Go's `interface{}` values. Times are nanoseconds since Go's zero time. The size
-- of a store is not negative: every caller passes a positive constant. `json.Marshal` and the
-- buffered writer over the file are parameters of the file store.
pub mod Entry
pub mod Scan
pub mod Page
pub mod Recent
pub mod File
pub mod Service
mod Tests
use grpc_vault_ha.Prelude.{
  ℕ, ◌-◌, Bool, List, [], ◌∷◌, ◌++◌, reverse, length, drop, tail, count, ltb, if◌then◌else◌,
}
use Entry.{AuditEntry, QueryOptions, matches_common, matches_token}
use Scan.{scan}

module _ (any : Type 0) where
  pub record MemoryStorage : Type 0 where
    pub entries : List (AuditEntry any)
    pub max_size : ℕ

  unfoldable pub new_memory_storage : ℕ → MemoryStorage
  new_memory_storage max_size = record { entries = []; max_size = max_size }

  -- `append`, then at most one entry is dropped.
  unfoldable pub write : MemoryStorage → AuditEntry any → MemoryStorage
  write s entry =
      let entries = s.entries ++ entry ∷ [] in
      record s { entries = if ltb (s.max_size) (length entries) then tail entries else entries }

  unfoldable pub write_batch : MemoryStorage → List (AuditEntry any) → MemoryStorage
  write_batch s batch =
      let entries = s.entries ++ batch in
      record s {
        entries =
            if ltb (s.max_size) (length entries)
            then drop (length entries - s.max_size) entries
            else entries;
      }

  -- The loop runs over the entries from the last one to the first.
  unfoldable pub query : MemoryStorage → QueryOptions → List (AuditEntry any)
  query s opts = scan (matches_common any opts) (opts.offset) (opts.limit) (reverse s.entries) 0 []

  unfoldable pub count_entries : MemoryStorage → QueryOptions → ℕ
  count_entries s opts = count (matches_common any opts) s.entries
