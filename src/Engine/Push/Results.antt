-- ===== src/Engine/Push/Results.antt =====
-- `handlePushConflict` and the transaction over an answer in `pushPhase` of sync-engine.ts.
use trata.Prelude.{
  ℕ, ◌≡◌, refl, sym, ◌∙◌, ap, inl, inr, String, Bool, ◌||◌, Option, some, List, [], ◌∷◌, Bool-cases,
  Option-cases, delete, update,
}
use trata.Schema.{SyncEntity, SyncOutboxRow, Row, op_of}
use trata.Db.{Db, Host, read_entity_row, update_entity_row}
use trata.Outbox.{has_op_id, remove_operations_for}
use trata.Outbox.Keyed.{IsKeyed, KeepsKey, IsKeyed-delete, IsKeyed-update}
use trata.Outbox.Confirm.{apply_push_confirmations-IsSettled}
use trata.Conflicts.{apply_delete_wins, bury_row, bury, adopt}
use trata.Conflicts.DeleteWins.{Touches-delete_wins, delete_wins_lem}
use trata.Conflicts.Resolve.{CleanAt-update, patched}
use trata.Engine.{
  SyncPushOperation, SyncPushResultItem, PushStatus, applied, conflict, error, Cycle, SelectedOp,
}
use trata.Engine.Select.{set_error}
use trata.Engine.Push.{
  Applied, adopted_columns, server_state_of, code_is, handle_push_conflict, apply_result,
  apply_results, find_item, error_text, settle,
}
use trata.Frame.{
  Touches-trans, Touches-update, Touches-remove, SameRecords, record_conflict-SameRecords,
}
use trata.Frame.Settled.{IsSettled, touch-IsSettled, same-IsSettled}
use trata.Prelude.Rows.{any-update_kept}

-- The invariants of the sync columns and of the operations' ids.
pub record IsSound (db : Db) : Type 0 where
  pub settled : IsSettled db
  pub keyed : IsKeyed db.outbox

same-IsSound : {a b : Db} → SameRecords a b → IsSound a → IsSound b
same-IsSound s h = record { settled = same-IsSettled s h.settled; keyed = rw s.outbox h.keyed }

outbox-bury :
    (h : Host) (e : SyncEntity) (i : String) (v : ℕ) (db : Db)
    → (bury_row h e i v db).outbox ≡ db.outbox
unfolding bury_row update_entity_row
outbox-bury h e i v db = elim (Option-cases (read_entity_row db e i)) [
  | inl absent ↦ rw (absent, bury_row) refl
  | inr (r, found) ↦ rw (found, bury_row) refl
]

module _ (h : Host) (e : SyncEntity) (i : String) where
  pub outbox-delete_wins :
      (op_id : Option String) (base server : ℕ) (db : Db)
      → (apply_delete_wins h e i op_id base server db).outbox ≡ delete (op_of e i) db.outbox
  unfolding apply_delete_wins remove_operations_for
  outbox-delete_wins op_id base server db =
      (record_conflict-SameRecords h _ _).outbox
      ∙ ap (delete (op_of e i)) (outbox-bury h e i server db)

  delete_wins-IsSound :
      (op_id : Option String) (base server : ℕ) (db : Db)
      → IsSound db
      → IsSound (apply_delete_wins h e i op_id base server db)
  delete_wins-IsSound op_id base server db s = record {
    settled =
        touch-IsSettled (Touches-delete_wins h e i op_id base server db) s.settled (λ r found idle.
          patched (bury (h.clock db.calls) server) (read_entity_row db e i) r (λ q. refl)
            (sym (delete_wins_lem h e i op_id base server db).0 ∙ found));
    keyed =
        rw (outbox-delete_wins op_id base server db) (IsKeyed-delete (op_of e i) db.outbox s.keyed);
  }

  update-IsSound :
      (f : Row e → Row e)
      → ((r : Row e) → (f r).id ≡ r.id)
      → ((r : Row e) → (f r).version ≡ (f r).server_version)
      → (db : Db) → IsSound db
      → IsSound (remove_operations_for e i (update_entity_row e i f db))
  unfolding remove_operations_for update_entity_row
  update-IsSound f keeps cleans db s = record {
    settled =
        touch-IsSettled
          (Touches-trans (Touches-update e i db f keeps)
            (Touches-remove e i (update_entity_row e i f db)))
          s.settled
          (λ r found idle.
            CleanAt-update h e i db f keeps cleans r (unfold read_entity_row in found));
    keyed = IsKeyed-delete (op_of e i) db.outbox s.keyed;
  }

conflict-IsSound :
    (h : Host) (w : SyncPushOperation) (r : SyncPushResultItem) (db : Db)
    → IsSound db
    → IsSound (handle_push_conflict h w r db).0
unfolding handle_push_conflict
conflict-IsSound h w r db s =
    let state = server_state_of r in
    elim (Option-cases (adopted_columns w r state)) [
      | inr (c, adopts) ↦
          rw (adopts, handle_push_conflict)
            (update-IsSound h w.entity w.id (adopt c state.version) (λ q. refl) (λ q. refl) db s)
      | inl keeps ↦
          rw (keeps, handle_push_conflict)
            (elim (Bool-cases (code_is "SYNC_DELETED_CONFLICT" r.code || state.deleted)) [
              | inl gone ↦ rw gone (
                  delete_wins-IsSound h w.entity w.id (some w.op_id) w.base_version state.version db
                    s)
              | inr lives ↦ rw lives (same-IsSound (record_conflict-SameRecords h _ db) s)
            ])
    ]

error-KeepsKey : (m : String) → KeepsKey (set_error m)
error-KeepsKey m = record { op_id = λ o. refl; entity = λ o. refl; entity_id = λ o. refl }

error-IsSound :
    (p : SyncOutboxRow → Bool) (m : String) (db : Db)
    → IsSound db
    → IsSound (record db { outbox = update p (set_error m) db.outbox })
error-IsSound p m db s = record {
  settled = record {
    clean = λ e i r found idle.
        s.settled.clean e i r (unfold read_entity_row in found)
          (sym (any-update_kept (op_of e i) p (set_error m) db.outbox (λ o. refl)) ∙ idle);
  };
  keyed = IsKeyed-update p (set_error m) db.outbox (error-KeepsKey m) s.keyed;
}

result-IsSound :
    (h : Host) (batch : List SelectedOp) (r : SyncPushResultItem) (a : Applied)
    → IsSound a.db
    → IsSound (apply_result h batch r a).db
unfolding apply_result
result-IsSound h batch r a s = by_status r.status refl
  where
    by_status : (t : PushStatus) → r.status ≡ t → IsSound (apply_result h batch r a).db
    by_status applied q = rw (q, apply_result) s
    by_status error q =
        rw (q, apply_result) (error-IsSound (has_op_id r.op_id) (error_text r) a.db s)
    by_status conflict q =
        rw (q, apply_result)
          (elim (Option-cases (find_item r.op_id batch)) [
            | inl absent ↦ rw absent s
            | inr (item, found) ↦ rw found (conflict-IsSound h item.wire r a.db s)
          ])

results-IsSound :
    (h : Host) (batch : List SelectedOp) (rs : List SyncPushResultItem) (a : Applied)
    → IsSound a.db
    → IsSound (apply_results h batch rs a).db
unfolding apply_results
results-IsSound h batch [] a s = s
results-IsSound h batch (r ∷ rs) a s =
    results-IsSound h batch rs (apply_result h batch r a) (result-IsSound h batch r a s)

-- The transaction over whatever answer to whatever batch keeps the two invariants: a record without
-- queued operations is CLEAN, and operations with one id are of one record.
pub settle-IsSound :
    (h : Host) (batch : List SelectedOp) (rs : List SyncPushResultItem) (c : Cycle)
    → IsSound c.db
    → IsSound (settle h batch rs c).0.db
unfolding settle
settle-IsSound h batch rs c s =
    let a =
      apply_results h batch rs
        (record { db = c.db; confirmations = []; conflicts = 0; wrote = c.wrote }) in
    let before = results-IsSound h batch rs _ s in
    let (settled, keyed) =
      apply_push_confirmations-IsSettled a.confirmations a.db before.keyed before.settled in
    record { settled = settled; keyed = keyed }
