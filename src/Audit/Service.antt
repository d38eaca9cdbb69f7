-- ===== src/Audit/Service.antt =====
-- services/audit/internal/service/audit_service.go: the buffer in front of a store. The flush worker
-- is a goroutine: it takes the buffer in one step and writes it in a later one, while callers go on
-- logging. `hex_id` is what `generateID` returns.
pub mod Logged
mod Tests
use grpc_vault_ha.Prelude.{
  ℕ, Bool, true, false, not, ◌&&◌, Option, none, some, List, [], ◌∷◌, ◌++◌, length, eqb,
  if◌then◌else◌, is_some,
}
use grpc_vault_ha.Prelude.Int.{ℤ, pos, leb_ℤ}
use grpc_vault_ha.Prelude.Text.{Text, codes}
use grpc_vault_ha.Prelude.Map.{Map}
use grpc_vault_ha.Audit
use grpc_vault_ha.Audit.{MemoryStorage, new_memory_storage}
use grpc_vault_ha.Audit.Entry.{AuthInfo, RequestInfo, ResponseInfo, AuditEntry, QueryOptions}

pub record LogErrorInput : Type 0 where
  pub request_id : Text
  pub client_token : Text
  pub accessor : Text
  pub remote_addr : Text
  pub operation : Text
  pub path : Text
  pub error : Text
  pub metadata : Map Text Text

pub record LogResponseInput : Type 0 where
  pub request_id : Text
  pub client_token : Text
  pub accessor : Text
  pub display_name : Text
  pub policies : List Text
  pub operation : Text
  pub path : Text
  pub mount_point : Text
  pub mount_type : Text
  pub mount_accessor : Text
  pub warnings : List Text
  pub metadata : Map Text Text

module _ (any : Type 0) where
  -- `storage.Storage`, as far as the service calls it; `none` and `false` are errors.
  pub record Storage : Type 1 where
    pub State : Type 0
    pub write_batch : State → List (AuditEntry any) → State × Bool
    pub query : State → QueryOptions → Option (List (AuditEntry any))
    pub count : State → QueryOptions → Option ℕ

  -- The memory store, which never fails.
  abbrev pub memory : Storage
  memory = record {
    State = MemoryStorage any;
    write_batch = λ s entries. (Audit.write_batch any s entries, true);
    query = λ s opts. some (Audit.query any s opts);
    count = λ s opts. some (Audit.count_entries any s opts);
  }

  pub record LogRequestInput : Type 0 where
    pub request_id : Text
    pub client_token : Text
    pub accessor : Text
    pub display_name : Text
    pub policies : List Text
    pub entity_id : Text
    pub remote_addr : Text
    pub operation : Text
    pub path : Text
    pub fields : Map Text any
    pub metadata : Map Text Text

  module _ (store : Storage) where
    -- `flush_requested` is the signal in `flushChan`, `closing` the closed `closeChan`, and
    -- `in_flight` what the worker is writing.
    pub record AuditService : Type 0 where
      pub storage : store.State
      pub buffer : List (AuditEntry any)
      pub buffer_size : ℤ
      pub flush_requested : Bool
      pub closing : Bool
      pub in_flight : Option (List (AuditEntry any))
      pub stopped : Bool

    unfoldable pub new_audit_service : store.State → ℤ → AuditService
    new_audit_service storage buffer_size = record {
      storage = storage;
      buffer = [];
      buffer_size = buffer_size;
      flush_requested = false;
      closing = false;
      in_flight = none;
      stopped = false;
    }

    unfoldable pub write_entry : AuditService → AuditEntry any → AuditService
    write_entry s entry =
        let buffer = s.buffer ++ entry ∷ [] in
        record s {
          buffer = buffer;
          flush_requested =
              if leb_ℤ s.buffer_size (pos (length buffer)) then true else s.flush_requested;
        }

    -- The first part of `flush`, under the lock.
    unfoldable pub take_buffer : AuditService → AuditService
    take_buffer s =
        if eqb (length s.buffer) 0 then s else record s { buffer = []; in_flight = some s.buffer }

    -- The second part; an error is logged only.
    unfoldable pub write_taken : AuditService → AuditService
    write_taken s = elim s.in_flight [
      | none ↦ s
      | some entries ↦ record s {
        storage = (store.write_batch s.storage entries).0;
        in_flight = none;
      }
    ]

    -- The cases of the worker's `select`; it waits for one while it is not writing.
    pub data Signal : Type 0 where
      ticked flush_asked closed : Signal

    unfoldable pub waits : AuditService → Bool
    waits s = not s.stopped && not (is_some s.in_flight)

    unfoldable pub flush_worker : AuditService → Signal → AuditService
    unfolding waits take_buffer
    flush_worker s ticked = if waits s then take_buffer s else s
    flush_worker s flush_asked =
        if waits s && s.flush_requested
        then take_buffer (record s { flush_requested = false })
        else s
    flush_worker s closed =
        if waits s && s.closing then take_buffer (record s { stopped = true }) else s

    unfoldable pub log_request : ℕ → Text → AuditService → LogRequestInput → AuditService
    unfolding write_entry
    log_request now hex_id s req = write_entry s (record {
      id = hex_id;
      timestamp = now;
      entry_type = codes "request";
      auth = some (record {
        client_token = req.client_token;
        accessor = req.accessor;
        display_name = req.display_name;
        policies = req.policies;
        token_policies = [];
        identity_policies = [];
        entity_id = req.entity_id;
        remote_addr = req.remote_addr;
      });
      request = some (record {
        id = req.request_id;
        operation = req.operation;
        path = req.path;
        fields = req.fields;
        remote_addr = req.remote_addr;
        wrap_ttl = pos 0;
        headers = [];
      });
      response = none;
      error = [];
      metadata = req.metadata;
    })

    unfoldable pub log_response : ℕ → Text → AuditService → LogResponseInput → AuditService
    unfolding write_entry
    log_response now hex_id s resp = write_entry s (record {
      id = hex_id;
      timestamp = now;
      entry_type = codes "response";
      auth = some (record {
        client_token = resp.client_token;
        accessor = resp.accessor;
        display_name = resp.display_name;
        policies = resp.policies;
        token_policies = [];
        identity_policies = [];
        entity_id = [];
        remote_addr = [];
      });
      request = some (record {
        id = resp.request_id;
        operation = resp.operation;
        path = resp.path;
        fields = [];
        remote_addr = [];
        wrap_ttl = pos 0;
        headers = [];
      });
      response = some (record {
        mount_point = resp.mount_point;
        mount_type = resp.mount_type;
        mount_accessor = resp.mount_accessor;
        fields = [];
        warnings = resp.warnings;
      });
      error = [];
      metadata = resp.metadata;
    })

    unfoldable pub log_error : ℕ → Text → AuditService → LogErrorInput → AuditService
    unfolding write_entry
    log_error now hex_id s input = write_entry s (record {
      id = hex_id;
      timestamp = now;
      entry_type = codes "error";
      auth = some (record {
        client_token = input.client_token;
        accessor = input.accessor;
        display_name = [];
        policies = [];
        token_policies = [];
        identity_policies = [];
        entity_id = [];
        remote_addr = input.remote_addr;
      });
      request = some (record {
        id = input.request_id;
        operation = input.operation;
        path = input.path;
        fields = [];
        remote_addr = [];
        wrap_ttl = pos 0;
        headers = [];
      });
      response = none;
      error = input.error;
      metadata = input.metadata;
    })

    unfoldable pub query : AuditService → QueryOptions → Option (List (AuditEntry any) × ℕ)
    query s opts = elim (store.query s.storage opts) [
      | none ↦ none
      | some entries ↦ elim (store.count s.storage opts) [
        | none ↦ none
        | some total ↦ some (entries, total)
      ]
    ]

    -- The channel; the worker's last flush and the store's `Close` follow.
    unfoldable pub close : AuditService → AuditService
    close s = record s { closing = true }
