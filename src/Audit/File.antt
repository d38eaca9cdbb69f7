-- ===== src/Audit/File.antt =====
-- file_storage.go: the store over a file.
pub mod Index
use grpc_vault_ha.Prelude.{
  ℕ, ◌-◌, Bool, true, false, not, Option, none, some, List, [], ◌∷◌, ◌++◌, length, drop, tail,
  count, ltb, if◌then◌else◌,
}
use grpc_vault_ha.Prelude.Text.{Text, codes}
use grpc_vault_ha.Audit.Entry.{AuditEntry, QueryOptions, matches_token}
use grpc_vault_ha.Audit.Scan.{scan}

-- `bufio.Writer` over the open file: what a write and a flush do to it, and whether they succeed.
pub record Writer : Type 1 where
  pub State : Type 0
  pub write_bytes : State → Text → State × Bool
  pub flush : State → State × Bool

pub data Error : Type 0 where
  marshal_failed io_failed : Error

module _ (any : Type 0) (writer : Writer) (marshal : AuditEntry any → Option Text) where
  pub record FileStorage : Type 0 where
    pub output : writer.State
    pub entries : List (AuditEntry any)
    pub max_size : ℕ

  -- `none` is a nil error.
  abbrev pub Done : Type 0
  Done = FileStorage × Option Error

  abbrev io_error : Bool → Option Error
  io_error succeeded = if succeeded then none else some io_failed

  -- The entry as a line of JSON.
  unfoldable pub write_line : writer.State → AuditEntry any → writer.State × Option Error
  write_line output entry = elim (marshal entry) [
    | none ↦ (output, some marshal_failed)
    | some bytes ↦
        let (output', written) = writer.write_bytes output bytes in
        if not written
        then (output', some io_failed)
        else (let (output'', ended) = writer.write_bytes output' (codes "\n") in
            (output'', io_error ended))
  ]

  -- Flush to the file, then the index in memory.
  finish_write : FileStorage → AuditEntry any → writer.State × Bool → Done
  finish_write s entry (output, flushed) =
      let entries = s.entries ++ entry ∷ [] in
      if not flushed then (record s { output = output }, some io_failed) else (
        record s {
          output = output;
          entries = if ltb s.max_size (length entries) then tail entries else entries;
        },
        none,
      )

  after_line : FileStorage → AuditEntry any → writer.State × Option Error → Done
  unfolding finish_write
  after_line s entry (output, some e) = (record s { output = output }, some e)
  after_line s entry (output, none) = finish_write s entry (writer.flush output)

  unfoldable pub write_file : FileStorage → AuditEntry any → Done
  unfolding after_line write_line
  write_file s entry = after_line s entry (write_line s.output entry)

  -- The loop: each entry is in the index as soon as its line is written.
  unfoldable pub write_lines : FileStorage → List (AuditEntry any) → Done
  write_lines s [] = (s, none)
  write_lines s (entry ∷ batch) =
      let (output, failed) = write_line s.output entry in
      elim failed [
        | some e ↦ (record s { output = output }, some e)
        | none ↦ write_lines (record s { output = output; entries = s.entries ++ entry ∷ [] }) batch
      ]

  finish_batch : FileStorage → writer.State × Bool → Done
  finish_batch s (output, flushed) =
      if not flushed then (record s { output = output }, some io_failed) else (
        record s {
          output = output;
          entries =
              if ltb s.max_size (length s.entries)
              then drop (length s.entries - s.max_size) s.entries
              else s.entries;
        },
        none,
      )

  after_lines : Done → Done
  unfolding finish_batch
  after_lines (s, some e) = (s, some e)
  after_lines (s, none) = finish_batch s (writer.flush s.output)

  unfoldable pub write_batch_file : FileStorage → List (AuditEntry any) → Done
  unfolding after_lines write_lines
  write_batch_file s batch = after_lines (write_lines s batch)

  -- The loop runs from the oldest entry to the newest.
  unfoldable pub query_file : FileStorage → QueryOptions → List (AuditEntry any)
  query_file s opts = scan (matches_token any opts) opts.offset opts.limit s.entries 0 []

  unfoldable pub count_file : FileStorage → QueryOptions → ℕ
  count_file s opts = count (matches_token any opts) s.entries
