-- ===== src/Repositories/Actions.antt =====
-- packages/local-data/src/repositories: the transactions of the local mutations. Each writes the row
-- and queues the operation that pushes it.
use trata.Prelude.{ℕ, ◌+◌, String, Bool, false, not, ◌&&◌, Option, none, some, ◌==◌, if◌then◌else◌}
use trata.Json.{Json}
use trata.Schema.{SyncEntity, upsert, delete_op, Row}
use trata.Db.{Db, Host, update_entity_row, insert_entity_row, delete_entity_row}
use trata.Outbox.{enqueue_operation, remove_operations_for, has_sent_operations}
use trata.Repositories.Values.{set_row}

-- The database once an id is there: a generated one is a call of the host.
abbrev pub after_id : Option String → Db → Db
after_id none db = record db { calls = db.calls + 1 }
after_id (some _) db = db

-- `payload.version !== row.version`, the optimistic lock.
abbrev pub is_version : ℕ → Option ℕ → Bool
is_version v none = false
is_version v (some w) = w == v

abbrev pub counted : Db → Db
counted db = record db { calls = db.calls + 1 }

-- `insert(table).values(row)` and `enqueueOperation`, for a new row whose columns read the clock.
unfoldable pub insert_row : Host → (e : SyncEntity) → Row e → Json → Db → Db
insert_row h e row payload db =
    enqueue_operation h
      (record {
        entity = e;
        entity_id = row.id;
        op = upsert;
        payload = payload;
        base_version = row.server_version;
      })
      (insert_entity_row e row db)

-- `update(table).set(next)` and `enqueueOperation`, on the confirmed version.
unfoldable pub change_row : Host → (e : SyncEntity) → String → Row e → Json → Db → Db
change_row h e i next payload db =
    enqueue_operation h
      (record {
        entity = e;
        entity_id = i;
        op = upsert;
        payload = payload;
        base_version = next.server_version;
      })
      (update_entity_row e i (set_row next) db)

-- A record that never left the device: no confirmed version, and no operation sent.
unfoldable pub is_unborn : (e : SyncEntity) → String → ℕ → Db → Bool
is_unborn e i server db = server == 0 && not (has_sent_operations e i db)

abbrev pub buried : {e : SyncEntity} → ℕ → Row e → Row e
buried t row = record row { deleted_at = some t; version = row.version + 1 }

-- `delete(table)` and `removeOperationsFor`.
unfoldable pub wipe_row : (e : SyncEntity) → String → Db → Db
wipe_row e i db = remove_operations_for e i (delete_entity_row e i db)

-- The tombstone, which reads the clock.
unfoldable pub tombstone_row : Host → (e : SyncEntity) → String → Row e → Db → Db
tombstone_row h e i row db =
    update_entity_row e i (set_row (buried (h.clock db.calls) row)) (counted db)

-- The tombstone-or-wipe rule: an unborn record vanishes with its queued operations, and any other
-- one is a tombstone whose deletion is queued on the confirmed version.
unfoldable pub delete_with_tombstone : Host → (e : SyncEntity) → String → Row e → Json → Db → Db
unfolding wipe_row tombstone_row
delete_with_tombstone h e i row payload db =
    if is_unborn e i row.server_version db
    then wipe_row e i db
    else enqueue_operation h
        (record {
          entity = e;
          entity_id = i;
          op = delete_op;
          payload = payload;
          base_version = row.server_version;
        })
        (tombstone_row h e i row db)
