-- ===== src/Engine/Pull.antt =====
-- `insertFromChange`, `applyPullChange` and `pullPhase` of sync-engine.ts.
pub mod Changes
pub mod Safety
pub mod Page
pub mod Redelivery
pub mod Phase
pub mod Termination
use trata.Prelude.{
  ℕ, zero, suc, ◌+◌, String, Bool, true, false, not, Option, none, some, List, [], ◌∷◌, leb, ◌==◌,
  length, is_some, or_else, if◌then◌else◌,
}
use trata.Json.{Json, Fields}
use trata.Schema.{
  SyncEntity, account, category, transaction, debtor, debt_operation, planned_payment, ServerState,
  version_conflict, Row, Columns,
}
use trata.Db.{Db, Host, read_entity_row, update_entity_row, insert_entity_row}
use trata.Catalog.{row_to_payload, sync_data_to_row_patch}
use trata.Outbox.{remove_operations_for}
use trata.Conflicts.{
  find_unresolved_conflict, record_conflict, first_pending_op_id, apply_delete_wins,
  apply_local_delete_wins, set_revisions,
}
use trata.Meta.{get_pull_cursor, set_pull_cursor}
use trata.Engine.{
  SyncChangeItem, ChangeEntity, known, unknown, ChangeAction, upsert_change, tombstone,
  SyncPullPage, Reply, answered, unauthorized, failed, Network, paused_run, Cycle,
}

-- The tables with a `created_at` column get the time of the insertion.
abbrev pub has_created_at : SyncEntity → Bool
has_created_at transaction = false
has_created_at debt_operation = false
has_created_at _ = true

abbrev pub pulled_row : (e : SyncEntity) → SyncChangeItem → ℕ → Columns e → Row e
pulled_row e ch t c = record {
  id = ch.id;
  columns = c;
  version = ch.version;
  server_version = ch.version;
  deleted_at = none;
  created_at = if has_created_at e then some t else none;
  updated_at = none;
  user_id = ch.user_id;
}

-- A database and the cycle's flag that local rows were written.
pub record Pulled : Type 0 where
  pub db : Db
  pub wrote : Bool
  pub conflicts : ℕ

abbrev pub wrote_db : Db → Pulled → Pulled
wrote_db db p = record p { db = db; wrote = true }

-- The data that an upsert writes; a tombstone, and an upsert without readable data, write none.
unfoldable pub upserted_columns : (e : SyncEntity) → SyncChangeItem → Option (Columns e)
upserted_columns e ch = elim ch.action [
  | tombstone ↦ none
  | upsert_change ↦ elim ch.body [ none ↦ none | some d ↦ sync_data_to_row_patch e d ]
]

-- `insertFromChange`.
unfoldable pub insert_from_change : Host → (e : SyncEntity) → SyncChangeItem → Pulled → Pulled
insert_from_change h e ch p = elim (upserted_columns e ch) [
  | none ↦ p
  | some c ↦
      wrote_db
        (insert_entity_row e (pulled_row e ch (h.clock p.db.calls) c)
          (record p.db { calls = p.db.calls + 1 }))
        p
]

abbrev pub is_tombstone : ChangeAction → Bool
is_tombstone tombstone = true
is_tombstone upsert_change = false

-- The version conflict that a change leaves on a record.
unfoldable pub conflict_with : Host → (e : SyncEntity) → SyncChangeItem → Row e → Bool → Db → Db
conflict_with h e ch row deleted db =
    record_conflict h
      (record {
        entity = e;
        entity_id = ch.id;
        op_id = first_pending_op_id db e ch.id;
        kind = version_conflict;
        base_version = row.server_version;
        server_version = ch.version;
        local_state = row_to_payload e row;
        server_state = some (record { version = ch.version; deleted = deleted; body = ch.body });
      })
      db

-- The pulled state in place of a CLEAN row.
abbrev pub bury_pulled : {e : SyncEntity} → SyncChangeItem → ℕ → Row e → Row e
bury_pulled ch t r = record r {
  deleted_at = some t;
  user_id = ch.user_id;
  version = ch.version;
  server_version = ch.version;
}

abbrev pub replace_pulled : {e : SyncEntity} → SyncChangeItem → Columns e → Row e → Row e
replace_pulled ch c r = record r {
  columns = c;
  user_id = ch.user_id;
  deleted_at = none;
  version = ch.version;
  server_version = ch.version;
}

unfoldable pub apply_to_clean : Host → (e : SyncEntity) → SyncChangeItem → Pulled → Pulled
apply_to_clean h e ch p =
    if is_tombstone ch.action
    then wrote_db
        (update_entity_row e ch.id (bury_pulled ch (h.clock p.db.calls))
          (record p.db { calls = p.db.calls + 1 }))
        p
    else elim (upserted_columns e ch) [
      | none ↦ p
      | some c ↦ wrote_db (update_entity_row e ch.id (replace_pulled ch c) p.db) p
    ]

abbrev pub count_conflict : Db → Pulled → Pulled
count_conflict db p = record p { db = db; wrote = true; conflicts = p.conflicts + 1 }

unfoldable pub apply_to_dirty : Host → (e : SyncEntity) → SyncChangeItem → Row e → Pulled → Pulled
apply_to_dirty h e ch row p =
    if is_tombstone ch.action
    then if is_some row.deleted_at
      then wrote_db
          (remove_operations_for e ch.id
            (update_entity_row e ch.id (set_revisions ch.version) p.db))
          p
      else count_conflict
          (apply_delete_wins h e ch.id (first_pending_op_id p.db e ch.id) row.server_version
            ch.version p.db)
          p
    else if is_some row.deleted_at
    then count_conflict
        (apply_local_delete_wins h e ch.id (first_pending_op_id p.db e ch.id) row.server_version
          ch.version ch.body (record { version = ch.version; deleted = false; body = ch.body })
          p.db)
        p
    else count_conflict (conflict_with h e ch row false p.db) p

-- The branches for a row that is there.
unfoldable pub apply_to_row : Host → (e : SyncEntity) → SyncChangeItem → Row e → Pulled → Pulled
unfolding apply_to_clean apply_to_dirty
apply_to_row h e ch row p =
    if leb ch.version row.server_version
    then p
    else if is_some (find_unresolved_conflict p.db e ch.id)
    then wrote_db (conflict_with h e ch row (is_tombstone ch.action) p.db) p
    else if row.version == row.server_version
    then apply_to_clean h e ch p
    else apply_to_dirty h e ch row p

unfoldable pub apply_known_change : Host → SyncEntity → SyncChangeItem → Pulled → Pulled
unfolding apply_to_row insert_from_change
apply_known_change h e ch p = elim (read_entity_row p.db e ch.id) [
  | none ↦ insert_from_change h e ch p
  | some row ↦ apply_to_row h e ch row p
]

-- `applyPullChange`: a kind that this build does not know is skipped.
unfoldable pub apply_pull_change : Host → (SyncEntity → Bool) → SyncChangeItem → Pulled → Pulled
apply_pull_change h knows ch p = elim ch.entity [
  | unknown _ ↦ p
  | known e ↦ if knows e then apply_known_change h e ch p else p
]

unfoldable pub apply_pull_changes :
    Host → (SyncEntity → Bool) → List SyncChangeItem → Pulled → Pulled
apply_pull_changes h knows [] p = p
apply_pull_changes h knows (ch ∷ chs) p =
    apply_pull_changes h knows chs (apply_pull_change h knows ch p)

-- The seq of the last change, or the cursor that the page was asked for with.
abbrev pub last_seq : ℕ → List SyncChangeItem → ℕ
last_seq cursor [] = cursor
last_seq cursor (ch ∷ chs) = last_seq ch.seq chs

-- The transaction over a page: its changes, and then the cursor.
unfoldable pub apply_page : Host → (SyncEntity → Bool) → ℕ → SyncPullPage → Cycle → Cycle
apply_page h knows cursor page c =
    let p =
      apply_pull_changes h knows page.changes
        (record { db = c.db; wrote = c.wrote; conflicts = c.outcome.conflicts }) in
    record c {
      db = set_pull_cursor (or_else page.next_cursor (last_seq cursor page.changes)) p.db;
      wrote = p.wrote;
      outcome = record c.outcome {
        conflicts = p.conflicts;
        pulled = c.outcome.pulled + length page.changes;
      };
    }

-- `pullPhase` on fuel.
unfoldable pub pull_phase : ℕ → Host → (SyncEntity → Bool) → Network → Cycle → Option Cycle
pull_phase zero h knows net c = none
pull_phase (suc n) h knows net c =
    let cursor = get_pull_cursor c.db in
    let out = record c { db = net.meanwhile c.request c.db; request = c.request + 1 } in
    elim (net.pull c.request cursor) [
      | failed ↦ some out
      | unauthorized ↦
          some (record out { paused = true; outcome = record out.outcome { status = paused_run } })
      | answered page ↦
          let next = apply_page h knows cursor page out in
          elim page.next_cursor [ none ↦ some next | some _ ↦ pull_phase n h knows net next ]
    ]
