-- ===== src/Engine/Push.antt =====
-- `handlePushConflict` and `pushPhase` of sync-engine.ts.
pub mod Outcome
pub mod Results
pub mod Progress
pub mod Termination
use trata.Prelude.{
  ℕ, zero, suc, ◌+◌, String, Bool, true, false, not, ◌&&◌, ◌||◌, Option, none, some, List, [], ◌∷◌,
  ◌++◌, map, ltb, ◌==◌, length, is_some, or_else, first, update, str_eq, if◌then◌else◌,
}
use Prim.Native.String.{◌++◌ as ◌++s◌}
use trata.Json.{Fields}
use trata.Schema.{SyncEntity, ServerState, version_conflict, SyncOutboxRow, Row, Columns}
use trata.Db.{Db, Host, read_entity_row, update_entity_row}
use trata.Catalog.{sync_data_to_row_patch}
use trata.Outbox.{PushConfirmation, has_op_id, apply_push_confirmations, remove_operations_for}
use trata.Conflicts.{record_conflict, apply_delete_wins, payload_or_null, adopt}
use trata.Engine.{
  SyncPushOperation, SyncPushResultItem, PushStatus, applied, conflict, error, Reply, answered,
  unauthorized, failed, Network, paused_run, Cycle, SelectedOp,
}
use trata.Engine.Select.{select_push_batch, is_upsert, set_error}

-- `result.serverState ?? { version: 0, deleted: false }`.
abbrev pub server_state_of : SyncPushResultItem → ServerState
server_state_of r = or_else r.server_state (record { version = 0; deleted = false; body = none })

abbrev pub code_is : String → Option String → Bool
code_is c none = false
code_is c (some d) = str_eq d c

-- The server copy that a base-0 create converges on.
unfoldable pub adopted_columns :
    (w : SyncPushOperation) → SyncPushResultItem → ServerState → Option (Columns w.entity)
adopted_columns w r s =
    if code_is "SYNC_ALREADY_EXISTS" r.code
      && (w.base_version == 0 && (is_upsert w.action && (ltb 0 s.version && not s.deleted)))
    then elim s.body [ none ↦ none | some d ↦ sync_data_to_row_patch w.entity d ]
    else none

-- `handlePushConflict`, with the number of conflicts that it adds to the outcome.
unfoldable pub handle_push_conflict : Host → SyncPushOperation → SyncPushResultItem → Db → Db × ℕ
handle_push_conflict h w r db =
    let s = server_state_of r in
    elim (adopted_columns w r s) [
      | some c ↦ (
        remove_operations_for w.entity w.id
            (update_entity_row w.entity w.id (adopt c s.version) db),
        0,
      )
      | none ↦
          if code_is "SYNC_DELETED_CONFLICT" r.code || s.deleted
          then (apply_delete_wins h w.entity w.id (some w.op_id) w.base_version s.version db, 1)
          else (
            record_conflict h
                (record {
                  entity = w.entity;
                  entity_id = w.id;
                  op_id = some w.op_id;
                  kind = version_conflict;
                  base_version = w.base_version;
                  server_version = s.version;
                  local_state = payload_or_null w.entity (read_entity_row db w.entity w.id);
                  server_state =
                      some (record { version = s.version; deleted = false; body = s.body });
                })
                db,
            1,
          )
    ]

-- `lastError` of a per-item failure.
abbrev pub error_text : SyncPushResultItem → String
error_text r = or_else r.code "ERROR" ++s (": " ++s or_else r.message "operation failed")

-- What one transaction over the results gathers.
pub record Applied : Type 0 where
  pub db : Db
  pub confirmations : List PushConfirmation
  pub conflicts : ℕ
  pub wrote : Bool

-- `byOpId.get(result.opId)`: of two items with one id the later one is in the map.
unfoldable pub find_item : String → List SelectedOp → Option SelectedOp
find_item i [] = none
find_item i (x ∷ xs) = elim (find_item i xs) [
  | some y ↦ some y
  | none ↦ if str_eq x.wire.op_id i then some x else none
]

unfoldable pub apply_result : Host → List SelectedOp → SyncPushResultItem → Applied → Applied
apply_result h batch r a = elim r.status [
  | applied ↦ record a {
    confirmations =
        a.confirmations ++ record { op_id = r.op_id; version = or_else r.version 0 } ∷ [];
  }
  | conflict ↦ elim (find_item r.op_id batch) [
    | none ↦ a
    | some item ↦
        let (db, n) = handle_push_conflict h item.wire r a.db in
        record a { db = db; conflicts = a.conflicts + n; wrote = true }
  ]
  | error ↦ record a {
    db = record a.db { outbox = update (has_op_id r.op_id) (set_error (error_text r)) a.db.outbox };
  }
]

unfoldable pub apply_results : Host → List SelectedOp → List SyncPushResultItem → Applied → Applied
apply_results h batch [] a = a
apply_results h batch (r ∷ rs) a = apply_results h batch rs (apply_result h batch r a)

-- A 401 gives back the attempts of the batch.
unfoldable pub revert_attempts : List SelectedOp → List SyncOutboxRow → List SyncOutboxRow
revert_attempts [] outbox = outbox
revert_attempts (x ∷ xs) outbox =
    revert_attempts xs
      (update (has_op_id x.op.op_id) (λ o. record o { attempts = x.op.attempts }) outbox)

-- How a round of the loop leaves it: `return`, or once more.
pub data Round : Type 0 where
  clean_end aborted again : Round

abbrev pub with_db : Db → Cycle → Cycle
with_db db c = record c { db = db }

abbrev pub has_some {ℓ} : {A : Type ℓ} → List A → Bool
has_some [] = false
has_some (_ ∷ _) = true

-- The transaction over an answer.
unfoldable pub settle : Host → List SelectedOp → List SyncPushResultItem → Cycle → Cycle × Round
settle h batch results c =
    let a =
      apply_results h batch results
        (record { db = c.db; confirmations = []; conflicts = 0; wrote = c.wrote }) in
    (
      record c {
        db = apply_push_confirmations a.confirmations a.db;
        wrote = a.wrote || has_some a.confirmations;
        outcome = record c.outcome {
          conflicts = c.outcome.conflicts + a.conflicts;
          pushed = c.outcome.pushed + length a.confirmations;
        };
      },
      if has_some a.confirmations then again else clean_end,
    )

-- A 401 pauses the engine; any other failure leaves the operations queued.
abbrev pub pause : List SelectedOp → Cycle → Cycle
pause batch c = record c {
  db = record c.db { outbox = revert_attempts batch c.db.outbox };
  paused = true;
  outcome = record c.outcome { status = paused_run };
}

unfoldable pub push_reply :
    Host → List SelectedOp → Reply (List SyncPushResultItem) → Cycle → Cycle × Round
push_reply h batch (answered results) c = settle h batch results c
push_reply h batch unauthorized c = (pause batch c, aborted)
push_reply h batch failed c = (c, aborted)

-- The request is out: it has a number, and the app may write meanwhile.
abbrev pub await : Network → Cycle → Cycle
await net c = record c { db = net.meanwhile c.request c.db; request = c.request + 1 }

-- One round of `for (;;)`.
unfoldable pub push_round : Host → Network → Bool → Cycle → Cycle × Round
push_round h net force c =
    let s = select_push_batch h force c.db in
    let c' = record c { db = s.db; wrote = c.wrote || s.wrote } in
    elim s.selected [
      | [] ↦ (c', clean_end)
      | x ∷ xs ↦
          push_reply h (x ∷ xs) (net.push c.request (map (λ i. i.wire) (x ∷ xs))) (await net c')
    ]

-- `pushPhase` on fuel, with what it returns; `none` says that the fuel ran out.
unfoldable pub push_phase : ℕ → Host → Network → Bool → Cycle → Option (Cycle × Bool)
push_phase zero h net force c = none
push_phase (suc n) h net force c =
    let (c', next) = push_round h net force c in
    elim next [
      | clean_end ↦ some (c', true)
      | aborted ↦ some (c', false)
      | again ↦ push_phase n h net force c'
    ]
