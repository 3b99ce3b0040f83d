-- ===== src/Engine/Select.antt =====
-- `selectPushBatch` of sync-engine.ts: the next batch of operations, frozen in the outbox.
pub mod Batch
use trata.Prelude.{
  ℕ, suc, ◌+◌, String, Bool, true, false, not, ◌&&◌, ◌||◌, Option, none, some, List, [], ◌∷◌, ◌++◌,
  ltb, leb, length, any, is_some, delete, update, str_eq, if◌then◌else◌,
}
use trata.Json.{
  Json, bool, object, Fields, none_left, field, property, JsonText, encoded, malformed, parse,
}
use trata.Schema.{
  SyncEntity, account, category, transaction, debtor, debt_operation, planned_payment,
  SyncOperationKind, upsert, delete_op, ConflictKind, version_conflict, deleted_conflict,
  SyncConflictRow, SyncOutboxRow, same_entity, Row,
}
use trata.Db.{Db, Host, read_entity_row, is_deleted}
use trata.Catalog.{row_to_payload, payload_to_sync_data}
use trata.Outbox.{CurrentRecord, has_op_id, pending_operations, coalesce_unsent_operations}
use trata.Conflicts.{find_unresolved_conflict}
use trata.Engine.{SelectedOp, SyncPushOperation, push_batch_size, backoff_delay_ms}

-- `readRecordForCoalescing`.
unfoldable pub read_record_for_coalescing : Db → SyncEntity → String → Option CurrentRecord
read_record_for_coalescing db e i = elim (read_entity_row db e i) [
  | none ↦ none
  | some row ↦ some (record { deleted = is_deleted row; payload = row_to_payload e row })
]

-- `{ cascade: true }`.
abbrev pub cascade_data : Fields
cascade_data = field "cascade" (bool true) none_left

abbrev pub is_true : Option Json → Bool
is_true (some (bool b)) = b
is_true _ = false

abbrev pub has_cascade : Option Json → Bool
has_cascade (some (object p)) = is_true (property "cascade" p)
has_cascade _ = false

-- `decodeStoredPayload`: undefined and null are both `none`, since the caller tests truth alone.
unfoldable pub decode_stored_payload : SyncOutboxRow → Option Fields
decode_stored_payload o = elim o.op [
  | delete_op ↦
      if same_entity o.entity category && has_cascade (parse o.payload)
      then some cascade_data
      else none
  | upsert ↦ elim (parse o.payload) [ none ↦ none | some p ↦ payload_to_sync_data o.entity p ]
]

abbrev pub is_version_conflict : Option SyncConflictRow → Bool
is_version_conflict none = false
is_version_conflict (some c) = elim c.kind [ version_conflict ↦ true | deleted_conflict ↦ false ]

-- A version conflict blocks its record until the user's choice.
unfoldable pub is_blocked : Db → SyncOutboxRow → Bool
is_blocked db o = is_version_conflict (find_unresolved_conflict db o.entity o.entity_id)

-- The operation waits for its backoff: `nowMs - Date.parse(op.sentAt) < backoffDelayMs(op.attempts)`.
unfoldable pub is_backing_off : Bool → ℕ → SyncOutboxRow → Bool
is_backing_off force now o = elim o.sent_at [
  | none ↦ false
  | some sent ↦ not force && (ltb 0 o.attempts && ltb now (sent + backoff_delay_ms o.attempts))
]

abbrev pub is_upsert : SyncOperationKind → Bool
is_upsert upsert = true
is_upsert delete_op = false

-- The stored payload of a deletion or of a frozen operation, and else the row as it is now.
unfoldable pub wire_data : (o : SyncOutboxRow) → Row o.entity → Option Fields
wire_data o r =
    if not (is_upsert o.op) || is_some o.sent_at
    then decode_stored_payload o
    else payload_to_sync_data o.entity (row_to_payload o.entity r)

-- `base`: frozen with the operation, or the row's server version.
abbrev pub base_of : (o : SyncOutboxRow) → Row o.entity → ℕ
base_of o r = if is_some o.sent_at then o.base_version else r.server_version

abbrev pub invalid_payload : String
invalid_payload = "INVALID_PAYLOAD: local payload failed wire validation"

abbrev pub set_error : String → SyncOutboxRow → SyncOutboxRow
set_error m o = record o { last_error = some m }

-- What the update writes: the values of the row that was read, not of the row updated.
abbrev pub freeze : ℕ → ℕ → ℕ → SyncOutboxRow → SyncOutboxRow
freeze t attempts base o = record o { sent_at = some t; attempts = attempts; base_version = base }

pub record Selection : Type 0 where
  pub db : Db
  pub seen : List (SyncEntity × String)
  pub selected : List SelectedOp
  pub wrote : Bool

-- `seenRecords.has(key)`.
abbrev pub is_seen : SyncOutboxRow → List (SyncEntity × String) → Bool
is_seen o = any (λ k. same_entity k.0 o.entity && str_eq k.1 o.entity_id)

abbrev pub wire_of : (o : SyncOutboxRow) → Row o.entity → SyncPushOperation
wire_of o r = record {
  op_id = o.op_id;
  entity = o.entity;
  action = o.op;
  id = o.entity_id;
  base_version = base_of o r;
  body = wire_data o r;
}

-- The end of the loop's body, once the row is read: park a corrupt payload, or freeze and send.
unfoldable pub send_operation : Host → (o : SyncOutboxRow) → Row o.entity → Selection → Selection
send_operation h o r s =
    if is_upsert o.op && not (is_some (wire_data o r))
    then record s {
      db = record s.db {
        outbox = update (has_op_id o.op_id) (set_error invalid_payload) s.db.outbox;
      };
    }
    else record s {
      db = record s.db {
        outbox =
            update (has_op_id o.op_id) (freeze (h.clock s.db.calls) (o.attempts + 1) (base_of o r))
              s.db.outbox;
        calls = s.db.calls + 1;
      };
      selected = s.selected ++ record { op = o; wire = wire_of o r } ∷ [];
    }

-- The body of the loop for a record that was not seen before.
unfoldable pub visit_operation : Host → Bool → ℕ → SyncOutboxRow → Selection → Selection
unfolding send_operation
visit_operation h force now o s =
    if is_blocked s.db o then s else elim (read_entity_row s.db o.entity o.entity_id) [
      | none ↦ record s {
        db = record s.db { outbox = delete (has_op_id o.op_id) s.db.outbox };
        wrote = true;
      }
      | some r ↦ if is_backing_off force now o then s else send_operation h o r s
    ]

abbrev pub mark_seen : SyncOutboxRow → Selection → Selection
mark_seen o s = record s { seen = (o.entity, o.entity_id) ∷ s.seen }

-- `break` once the batch is full.
unfoldable pub select_loop : Host → Bool → ℕ → List SyncOutboxRow → Selection → Selection
select_loop h force now [] s = s
select_loop h force now (o ∷ os) s = elim (is_seen o s.seen) [
  | true ↦ select_loop h force now os s
  | false ↦
      let s' = visit_operation h force now o (mark_seen o s) in
      elim (leb push_batch_size (length s'.selected)) [
        | true ↦ s'
        | false ↦ select_loop h force now os s'
      ]
]

-- `selectPushBatch`; the clock is read once for `nowMs`.
unfoldable pub select_push_batch : Host → Bool → Db → Selection
select_push_batch h force db =
    let coalesced = coalesce_unsent_operations (read_record_for_coalescing db) db in
    select_loop h force (h.clock db.calls) (pending_operations coalesced) (record {
      db = record coalesced { calls = coalesced.calls + 1 };
      seen = [];
      selected = [];
      wrote = false;
    })
