-- ===== src/Audit/File/Index.antt =====
-- file_storage.go: the index of the file store after a write, on every branch.
use mathlib.Core.List.{append_assoc, append-nil}
use grpc_vault_ha.Prelude.{
  ◌≡◌, ◌≤◌, refl, sym, ap, ◌∙◌, Bool, true, false, Option, none, some, List, [], ◌∷◌, ◌++◌, length,
  keep, count-eq-length-keep,
}
use grpc_vault_ha.Prelude.Text.{Text}
use grpc_vault_ha.Audit.Entry.{AuditEntry, QueryOptions, matches_token}
use grpc_vault_ha.Audit.Scan.{page}
use grpc_vault_ha.Audit.Page.{scan-page}
use grpc_vault_ha.Audit.Recent.{last, trim_one, trim_many}
use grpc_vault_ha.Audit.File.{
  Writer, Error, FileStorage, Done, write_line, finish_write, after_line, write_file, write_lines,
  finish_batch, after_lines, write_batch_file, query_file, count_file,
}

module _ (any : Type 0) (writer : Writer) (marshal : AuditEntry any → Option Text) where
  abbrev Store : Type 0
  Store = FileStorage any writer marshal

  -- What a call has left in the index: on success the latest entries, otherwise what it had taken
  -- in by then, untrimmed.
  abbrev pub Indexed : Store → List (AuditEntry any) → Done any writer marshal → Type 0
  Indexed s batch (s', none) = s'.entries ≡ last s.max_size (s.entries ++ batch)
  Indexed s batch (s', some e) =
      (taken : List (AuditEntry any)) × (rest : List (AuditEntry any)) × (batch ≡ taken ++ rest)
      × (s'.entries ≡ s.entries ++ taken)

  finish_write-Indexed :
      (s : Store) (entry : AuditEntry any) (w : writer.State × Bool)
      → length s.entries ≤ s.max_size
      → Indexed s (entry ∷ []) (finish_write any writer marshal s entry w)
  unfolding finish_write
  finish_write-Indexed s entry (output, true) h = trim_one s.max_size s.entries entry h
  finish_write-Indexed s entry (output, false) h =
      ([], entry ∷ [], refl, sym (append-nil s.entries))

  after_line-Indexed :
      (s : Store) (entry : AuditEntry any) (w : writer.State × Option Error)
      → length s.entries ≤ s.max_size
      → Indexed s (entry ∷ []) (after_line any writer marshal s entry w)
  unfolding after_line
  after_line-Indexed s entry (output, none) h = finish_write-Indexed s entry (writer.flush output) h
  after_line-Indexed s entry (output, some e) h = ([], entry ∷ [], refl, sym (append-nil s.entries))

  -- The part of a batch that the loop has taken in.
  abbrev Taken : Store → List (AuditEntry any) → Done any writer marshal → Type 0
  Taken s batch (s', none) = (s'.entries ≡ s.entries ++ batch) × (s'.max_size ≡ s.max_size)
  Taken s batch (s', some e) =
      (taken : List (AuditEntry any)) × (rest : List (AuditEntry any)) × (batch ≡ taken ++ rest)
      × (s'.entries ≡ s.entries ++ taken)

  took_line :
      (s : Store) (entry : AuditEntry any) (batch : List (AuditEntry any)) (output : writer.State)
      (r : Done any writer marshal)
      → Taken (record s { output = output; entries = s.entries ++ entry ∷ [] }) batch r
      → Taken s (entry ∷ batch) r
  took_line s entry batch output (s', none) (e, m) =
      (e ∙ append_assoc s.entries (entry ∷ []) batch, m)
  took_line s entry batch output (s', some _) (taken, rest, split, e) =
      (entry ∷ taken, rest, ap (◌∷◌ entry) split, e ∙ append_assoc s.entries (entry ∷ []) taken)

  -- One round of the loop, given what the next ones do.
  next_line :
      (s : Store) (entry : AuditEntry any) (batch : List (AuditEntry any))
      (w : writer.State × Option Error)
      → ((output : writer.State)
          → let s' = record s { output = output; entries = s.entries ++ entry ∷ [] } in
            Taken s' batch (write_lines any writer marshal s' batch))
      → Taken s (entry ∷ batch) (
          let (output, failed) = w in
          elim failed [
            | some e ↦ (record s { output = output }, some e)
            | none ↦
                write_lines any writer marshal
                  (record s { output = output; entries = s.entries ++ entry ∷ [] })
                  batch
          ])
  next_line s entry batch (output, some e) later =
      ([], entry ∷ batch, refl, sym (append-nil s.entries))
  next_line s entry batch (output, none) later =
      took_line s entry batch output
        (write_lines any writer marshal
          (record s { output = output; entries = s.entries ++ entry ∷ [] }) batch)
        (later output)

  write_lines-Taken :
      (s : Store) (batch : List (AuditEntry any))
      → Taken s batch (write_lines any writer marshal s batch)
  unfolding write_lines
  write_lines-Taken s [] = (sym (append-nil s.entries), refl)
  write_lines-Taken s (entry ∷ batch) =
      next_line s entry batch (write_line any writer marshal s.output entry) (λ output.
        write_lines-Taken (record s { output = output; entries = s.entries ++ entry ∷ [] }) batch)

  after_lines-Indexed :
      (s : Store) (batch : List (AuditEntry any)) (r : Done any writer marshal)
      → Taken s batch r
      → Indexed s batch (after_lines any writer marshal r)
  unfolding after_lines
  after_lines-Indexed s batch (s', some e) taken = taken
  after_lines-Indexed s batch (s', none) (e, m) = flushed (writer.flush s'.output)
    where
      flushed : (w : writer.State × Bool) → Indexed s batch (finish_batch any writer marshal s' w)
      flushed (output, true) =
          unfold finish_batch in trim_many s'.max_size s'.entries ∙ (λ j. last (m j) (e j))
      flushed (output, false) = unfold finish_batch in (batch, [], sym (append-nil batch), e)

  -- `Write` on an index that is not over its size: on success it holds the latest entries, the new
  -- one last; on an error it is as before.
  pub write_file-Indexed :
      (s : Store) (entry : AuditEntry any)
      → length s.entries ≤ s.max_size
      → Indexed s (entry ∷ []) (write_file any writer marshal s entry)
  unfolding write_file
  write_file-Indexed s entry h =
      after_line-Indexed s entry (write_line any writer marshal s.output entry) h

  -- `WriteBatch`: on success the index holds the latest entries, the batch at their end; on an
  -- error it has grown by a beginning of the batch, and nothing was trimmed.
  pub write_batch_file-Indexed :
      (s : Store) (batch : List (AuditEntry any))
      → Indexed s batch (write_batch_file any writer marshal s batch)
  unfolding write_batch_file
  write_batch_file-Indexed s batch =
      after_lines-Indexed s batch (write_lines any writer marshal s batch)
        (write_lines-Taken s batch)

  -- `Query` returns a page of the matching entries, the oldest first, and `Count` their number.
  pub query_file-page :
      (s : Store) (opts : QueryOptions)
      → (query_file any writer marshal s opts
          ≡ page (matches_token any opts) opts.offset opts.limit s.entries)
        × (count_file any writer marshal s opts ≡ length (keep (matches_token any opts) s.entries))
  unfolding query_file count_file
  query_file-page s opts = (
    scan-page (matches_token any opts) opts.offset opts.limit s.entries,
    count-eq-length-keep (matches_token any opts) s.entries,
  )
