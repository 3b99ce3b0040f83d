-- ===== src/Outbox.antt =====
-- packages/local-data/src/outbox.ts: the queue of operations that wait for a push, and the version
-- transitions of a confirmation.
pub mod Queue
pub mod Keyed
pub mod Shrinks
pub mod Confirm
use Prim.Native.String.{compare as compare_text}
use text.Mathlib.Text.{is_lt}
use trata.Prelude.{
  ℕ, suc, ◌+◌, String, Bool, true, false, not, ◌&&◌, ◌||◌, Option, none, some, List, [], ◌∷◌, ◌++◌,
  map, ltb, ◌==◌, str_eq, any, is_some, select, delete, update, first, order_by, if◌then◌else◌,
}
use trata.Json.{Json, null, JsonText, encoded}
use trata.Schema.{
  SyncEntity, SyncOperationKind, upsert, delete_op, SyncOutboxRow, op_of, same_entity, Row,
}
use trata.Db.{Db, Host, update_entity_row}

pub record EnqueueOperationInput : Type 0 where
  pub entity : SyncEntity
  pub entity_id : String
  pub op : SyncOperationKind
  pub payload : Json
  pub base_version : ℕ

abbrev pub op_row : Host → ℕ → EnqueueOperationInput → SyncOutboxRow
op_row h n i = record {
  op_id = h.generate_id n;
  entity = i.entity;
  entity_id = i.entity_id;
  op = i.op;
  payload = encoded i.payload;
  base_version = i.base_version;
  created_at = h.clock (suc n);
  sent_at = none;
  attempts = 0;
  last_error = none;
}

-- `enqueueOperation`: one call for the id and one for the clock.
unfoldable pub enqueue_operation : Host → EnqueueOperationInput → Db → Db
enqueue_operation h i db = record db {
  outbox = db.outbox ++ op_row h db.calls i ∷ [];
  calls = db.calls + 2;
}

-- `removeOperationsFor`, and `dropOperationsFor` of conflicts.ts.
unfoldable pub remove_operations_for : SyncEntity → String → Db → Db
remove_operations_for e i db = record db { outbox = delete (op_of e i) db.outbox }

-- `orderBy(asc(createdAt), asc(opId))`.
abbrev pub op_before : SyncOutboxRow → SyncOutboxRow → Bool
op_before a b =
    ltb a.created_at b.created_at
    || (a.created_at == b.created_at && is_lt (compare_text a.op_id b.op_id))

unfoldable pub pending_operations : Db → List SyncOutboxRow
pending_operations db = order_by op_before db.outbox

abbrev pub is_sent : SyncOutboxRow → Bool
is_sent o = is_some o.sent_at

unfoldable pub has_sent_operations : SyncEntity → String → Db → Bool
has_sent_operations e i db = is_some (first (λ o. op_of e i o && is_sent o) db.outbox)

pub record PushConfirmation : Type 0 where
  pub op_id : String
  pub version : ℕ

-- `eq(syncOutbox.opId, id)`.
abbrev pub has_op_id : String → SyncOutboxRow → Bool
has_op_id i o = str_eq o.op_id i

abbrev pub set_server_version : {e : SyncEntity} → ℕ → Row e → Row e
set_server_version n r = record r { server_version = n }

abbrev pub set_version : {e : SyncEntity} → ℕ → Row e → Row e
set_version n r = record r { version = n }

-- `remaining.length === 0`.
abbrev pub no_operations_for : SyncEntity → String → Db → Bool
no_operations_for e i db = not (any (op_of e i) db.outbox)

-- The body of the loop, for a confirmation whose operation is in the outbox.
unfoldable pub confirm_operation : PushConfirmation → SyncOutboxRow → Db → Db
confirm_operation c op db =
    let removed = record db { outbox = delete (has_op_id c.op_id) db.outbox } in
    let stamped = update_entity_row op.entity op.entity_id (set_server_version c.version) removed in
    if no_operations_for op.entity op.entity_id removed
    then update_entity_row op.entity op.entity_id (set_version c.version) stamped
    else stamped

unfoldable pub apply_confirmation : PushConfirmation → Db → Db
apply_confirmation c db = elim (first (has_op_id c.op_id) db.outbox) [
  | none ↦ db
  | some op ↦ confirm_operation c op db
]

-- `applyPushConfirmations`.
unfoldable pub apply_push_confirmations : List PushConfirmation → Db → Db
apply_push_confirmations [] db = db
apply_push_confirmations (c ∷ cs) db = apply_push_confirmations cs (apply_confirmation c db)

-- What `readRecord` supplies: whether the record is deleted, and its payload.
pub record CurrentRecord : Type 0 where
  pub deleted : Bool
  pub payload : Json

abbrev pub ReadRecord : Type 0
ReadRecord = SyncEntity → String → Option CurrentRecord

-- One group of the `Map`: the operations of one record in queue order.
pub record Group : Type 0 where
  pub entity : SyncEntity
  pub entity_id : String
  pub ops : List SyncOutboxRow

-- The key `${entity}:${entityId}`: no entity name holds a colon, so it determines both parts.
abbrev pub group_of : SyncOutboxRow → Group → Bool
group_of o g = same_entity g.entity o.entity && str_eq g.entity_id o.entity_id

unfoldable pub add_to_groups : SyncOutboxRow → List Group → List Group
add_to_groups o [] = record { entity = o.entity; entity_id = o.entity_id; ops = o ∷ [] } ∷ []
add_to_groups o (g ∷ gs) =
    if group_of o g then record g { ops = g.ops ++ o ∷ [] } ∷ gs else g ∷ add_to_groups o gs

unfoldable pub group_operations : List Group → List SyncOutboxRow → List Group
unfolding add_to_groups
group_operations gs [] = gs
group_operations gs (o ∷ os) = group_operations (add_to_groups o gs) os

-- `inArray(syncOutbox.opId, ops.map((op) => op.opId))`.
abbrev pub in_ops : List SyncOutboxRow → SyncOutboxRow → Bool
in_ops ops o = any (λ g. str_eq g.op_id o.op_id) ops

-- What the surviving operation of a group becomes.
abbrev pub merged : CurrentRecord → SyncOutboxRow → SyncOutboxRow
merged r o =
    if r.deleted
    then record o { op = delete_op; payload = encoded null }
    else record o { op = upsert; payload = encoded r.payload }

-- The body of the loop over the groups.
unfoldable pub coalesce_group : ReadRecord → Group → List SyncOutboxRow → List SyncOutboxRow
coalesce_group read g outbox = elim g.ops [
  | [] ↦ outbox
  | o ∷ rest ↦ elim rest [
    | [] ↦ outbox
    | o2 ∷ more ↦ elim (read o.entity o.entity_id) [
      | none ↦ delete (in_ops (o ∷ o2 ∷ more)) outbox
      | some r ↦ delete (in_ops (o2 ∷ more)) (update (has_op_id o.op_id) (merged r) outbox)
    ]
  ]
]

unfoldable pub coalesce_groups : ReadRecord → List Group → List SyncOutboxRow → List SyncOutboxRow
unfolding coalesce_group
coalesce_groups read [] outbox = outbox
coalesce_groups read (g ∷ gs) outbox = coalesce_groups read gs (coalesce_group read g outbox)

-- `coalesceUnsentOperations`.
unfoldable pub coalesce_unsent_operations : ReadRecord → Db → Db
unfolding coalesce_groups group_operations
coalesce_unsent_operations read db =
    let unsent = order_by op_before (select (λ o. not (is_sent o)) db.outbox) in
    record db { outbox = coalesce_groups read (group_operations [] unsent) db.outbox }
