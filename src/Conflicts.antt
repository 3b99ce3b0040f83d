-- ===== src/Conflicts.antt =====
-- packages/local-data/src/sync/conflicts.ts: the persistent conflict records, the two delete-wins
-- defaults and the user's two resolutions.
pub mod Records
pub mod DeleteWins
pub mod Resolve
pub mod Subject
use trata.Prelude.{
  ℕ, suc, ◌+◌, String, Bool, true, false, not, ◌&&◌, Option, none, some, List, [], ◌∷◌, ◌++◌, ltb,
  max, is_some, or_else, select, delete, update, first, order_by, str_eq, if◌then◌else◌,
}
use trata.Json.{Json, null, Fields, object, JsonText, encoded, malformed, parse}
use trata.Schema.{
  SyncEntity, SyncOperationKind, upsert, delete_op, ServerState, ConflictKind, version_conflict,
  deleted_conflict, SyncConflictRow, SyncOutboxRow, conflict_of, op_of, Row, Columns,
}
use trata.Db.{Db, Host, read_entity_row, update_entity_row, delete_entity_row, is_deleted}
use trata.Catalog.{row_to_payload, sync_data_to_row_patch}
use trata.Outbox.{EnqueueOperationInput, enqueue_operation, remove_operations_for, op_before}

pub record RecordConflictInput : Type 0 where
  pub entity : SyncEntity
  pub entity_id : String
  pub op_id : Option String
  pub kind : ConflictKind
  pub base_version : ℕ
  pub server_version : ℕ
  pub local_state : Json
  pub server_state : Option ServerState

abbrev pub is_unresolved : SyncConflictRow → Bool
is_unresolved c = not (is_some c.resolved_at)

abbrev pub unresolved_of : SyncEntity → String → SyncConflictRow → Bool
unresolved_of e i c = conflict_of e i c && is_unresolved c

abbrev pub has_conflict_id : String → SyncConflictRow → Bool
has_conflict_id i c = str_eq c.id i

-- `findUnresolvedConflict`.
unfoldable pub find_unresolved_conflict : Db → SyncEntity → String → Option SyncConflictRow
find_unresolved_conflict db e i = first (unresolved_of e i) db.conflicts

-- `toConflict`: a column that `JSON.parse` refuses, and the text 'null', give null.
unfoldable pub parsed_server_state : SyncConflictRow → Option ServerState
parsed_server_state c = elim (parse c.server_state) [ none ↦ none | some s ↦ s ]

unfoldable pub parsed_local_state : SyncConflictRow → Json
parsed_local_state c = or_else (parse c.local_state) null

-- The `values` that a record and a refresh of it write.
abbrev pub with_values : RecordConflictInput → SyncConflictRow → SyncConflictRow
with_values i c = record c {
  op_id = i.op_id;
  kind = i.kind;
  base_version = i.base_version;
  server_version = i.server_version;
  local_state = encoded i.local_state;
  server_state = encoded i.server_state;
}

abbrev pub new_conflict : Host → ℕ → RecordConflictInput → SyncConflictRow
new_conflict h n i = record {
  id = h.generate_id n;
  entity = i.entity;
  entity_id = i.entity_id;
  op_id = i.op_id;
  kind = i.kind;
  base_version = i.base_version;
  server_version = i.server_version;
  local_state = encoded i.local_state;
  server_state = encoded i.server_state;
  created_at = h.clock (suc n);
  resolved_at = none;
}

-- `recordConflict`.
unfoldable pub record_conflict : Host → RecordConflictInput → Db → Db
record_conflict h i db = elim (find_unresolved_conflict db i.entity i.entity_id) [
  | none ↦ record db {
    conflicts = db.conflicts ++ new_conflict h db.calls i ∷ [];
    calls = db.calls + 2;
  }
  | some existing ↦ record db {
    conflicts = update (has_conflict_id existing.id) (with_values i) db.conflicts;
  }
]

unfoldable pub list_unresolved_conflicts : Db → List SyncConflictRow
list_unresolved_conflicts db =
    order_by (λ a b. ltb b.created_at a.created_at) (select is_unresolved db.conflicts)

unfoldable pub get_conflict_by_id : Db → String → Option SyncConflictRow
get_conflict_by_id db i = first (has_conflict_id i) db.conflicts

abbrev pub resolve_at : ℕ → SyncConflictRow → SyncConflictRow
resolve_at t c = record c { resolved_at = some t }

-- `markConflictResolved`, and the last statement of both resolutions.
unfoldable pub mark_conflict_resolved : Host → String → Db → Db
mark_conflict_resolved h i db = record db {
  conflicts = update (has_conflict_id i) (resolve_at (h.clock db.calls)) db.conflicts;
  calls = db.calls + 1;
}

-- `firstPendingOpId`.
unfoldable pub first_pending_op_id : Db → SyncEntity → String → Option String
first_pending_op_id db e i = elim (order_by op_before (select (op_of e i) db.outbox)) [
  | [] ↦ none
  | o ∷ _ ↦ some o.op_id
]

-- `row ? rowToPayload(entity, row) : null`.
abbrev pub payload_or_null : (e : SyncEntity) → Option (Row e) → Json
payload_or_null e none = null
payload_or_null e (some r) = row_to_payload e r

-- The tombstone at the server's version: CLEAN.
abbrev pub bury : {e : SyncEntity} → ℕ → ℕ → Row e → Row e
bury t v r = record r { deleted_at = some t; version = v; server_version = v }

-- `if (entityRow) updateEntityRow(...)` with the tombstone: the clock is read for a row that is there.
unfoldable pub bury_row : Host → (e : SyncEntity) → String → ℕ → Db → Db
bury_row h e i v db = elim (read_entity_row db e i) [
  | none ↦ db
  | some _ ↦ update_entity_row e i (bury (h.clock db.calls) v) (record db { calls = db.calls + 1 })
]

-- `applyDeleteWins`.
unfoldable pub apply_delete_wins :
    Host → (e : SyncEntity) → String → Option String → ℕ → ℕ → Db → Db
apply_delete_wins h e i op_id base server db =
    record_conflict h
      (record {
        entity = e;
        entity_id = i;
        op_id = op_id;
        kind = deleted_conflict;
        base_version = base;
        server_version = server;
        local_state = payload_or_null e (read_entity_row db e i);
        server_state = some (record { version = server; deleted = true; body = none });
      })
      (remove_operations_for e i (bury_row h e i server db))

-- The local tombstone re-based on a remote edit: DIRTY.
abbrev pub rebase_row : {e : SyncEntity} → ℕ → Option (Row e) → Row e → Row e
rebase_row server none r = record r { server_version = server; version = max 0 (server + 1) }
rebase_row server (some row) r = record r {
  server_version = server;
  version = max row.version (server + 1);
}

abbrev pub fields_or_null : Option Fields → Json
fields_or_null none = null
fields_or_null (some f) = object f

-- `applyLocalDeleteWins`.
unfoldable pub apply_local_delete_wins :
    Host → (e : SyncEntity) → String → Option String → ℕ → ℕ → Option Fields → ServerState → Db → Db
apply_local_delete_wins h e i op_id base server lost state db =
    let rebased = update_entity_row e i (rebase_row server (read_entity_row db e i)) db in
    let queued =
      enqueue_operation h
        (record {
          entity = e;
          entity_id = i;
          op = delete_op;
          payload = null;
          base_version = server;
        })
        (remove_operations_for e i rebased) in
    record_conflict h
      (record {
        entity = e;
        entity_id = i;
        op_id = op_id;
        kind = deleted_conflict;
        base_version = base;
        server_version = server;
        local_state = fields_or_null lost;
        server_state = some state;
      })
      queued

-- The server's columns on a live row at the server's version: CLEAN.
abbrev pub adopt : {e : SyncEntity} → Columns e → ℕ → Row e → Row e
adopt c v r = record r { columns = c; deleted_at = none; version = v; server_version = v }

abbrev pub set_revisions : {e : SyncEntity} → ℕ → Row e → Row e
set_revisions v r = record r { version = v; server_version = v }

-- The server state that a conflict stored, on the record: an update of a missing row changes
-- nothing, so the source's test for one is not written out again.
take_data : (e : SyncEntity) → String → ℕ → Fields → Db → Db
take_data e i v d db = elim (sync_data_to_row_patch e d) [
  | none ↦ update_entity_row e i (set_revisions v) db
  | some c ↦ update_entity_row e i (adopt c v) db
]

take_state : Host → (e : SyncEntity) → String → ServerState → Db → Db
unfolding take_data
take_state h e i s db =
    if s.deleted
    then bury_row h e i s.version db
    else elim s.body [ none ↦ bury_row h e i s.version db | some d ↦ take_data e i s.version d db ]

-- No server state, or version 0: the server does not know the record.
unfoldable pub take_server : Host → (e : SyncEntity) → String → Option ServerState → Db → Db
unfolding take_state
take_server h e i none db = delete_entity_row e i db
take_server h e i (some s) db =
    if ltb 0 s.version then take_state h e i s db else delete_entity_row e i db

unfoldable pub when_unresolved : Option SyncConflictRow → Option SyncConflictRow
when_unresolved none = none
when_unresolved (some c) = if is_unresolved c then some c else none

-- The conflict that a resolution works on: found, and not resolved before.
unfoldable pub open_conflict : Db → String → Option SyncConflictRow
open_conflict db i = when_unresolved (get_conflict_by_id db i)

-- `resolveConflictTakeServer`.
unfoldable pub resolve_conflict_take_server : Host → String → Db → Db
resolve_conflict_take_server h i db = elim (open_conflict db i) [
  | none ↦ db
  | some c ↦ mark_conflict_resolved h i (
      remove_operations_for c.entity c.entity_id
        (take_server h c.entity c.entity_id (parsed_server_state c) db))
]

-- The local change on top of the server's version.
abbrev pub keep_row : {e : SyncEntity} → ℕ → ℕ → Row e → Row e
keep_row server v r = record r { server_version = server; version = max v (server + 1) }

abbrev pub keep_input : (e : SyncEntity) → String → ℕ → Row e → EnqueueOperationInput
keep_input e i server row = record {
  entity = e;
  entity_id = i;
  op = if is_deleted row then delete_op else upsert;
  payload = if is_deleted row then null else row_to_payload e row;
  base_version = server;
}

unfoldable pub keep_local : Host → (e : SyncEntity) → String → ℕ → Row e → Db → Db
keep_local h e i server row db =
    enqueue_operation h (keep_input e i server row)
      (update_entity_row e i (keep_row server row.version) db)

-- `resolveConflictKeepLocal`.
unfoldable pub resolve_conflict_keep_local : Host → String → Db → Db
resolve_conflict_keep_local h i db = elim (open_conflict db i) [
  | none ↦ db
  | some c ↦
      let row = read_entity_row db c.entity c.entity_id in
      let dropped = remove_operations_for c.entity c.entity_id db in
      mark_conflict_resolved h i (elim row [
        | none ↦ dropped
        | some r ↦ keep_local h c.entity c.entity_id c.server_version r dropped
      ])
]
