-- ===== src/Conflicts/DeleteWins.antt =====
-- packages/local-data/src/sync/conflicts.ts, `applyDeleteWins` and `applyLocalDeleteWins`.
use mathlib.Core.Option
use trata.Prelude.{
  ℕ, ◌+◌, ◌<◌, ◌≡◌, refl, sym, ◌∙◌, max, arith, inl, inr, String, true, false, Option, none, some,
  Option-cases, [], ◌∷◌, select,
}
use trata.Prelude.Rows.{any-delete_self, select-requeue, any-requeue}
use trata.Json.{null, Fields, encoded}
use trata.Schema.{
  SyncEntity, ServerState, SyncOutboxRow, SyncConflictRow, deleted_conflict, delete_op, Row, op_of,
}
use trata.Db.{Db, Host, read_entity_row, update_entity_row}
use trata.Db.Laws.{read-update_self}
use trata.Outbox.{EnqueueOperationInput, enqueue_operation, remove_operations_for, op_row}
use trata.Conflicts.{
  RecordConflictInput, find_unresolved_conflict, payload_or_null, bury, bury_row, apply_delete_wins,
  rebase_row, apply_local_delete_wins, fields_or_null, with_values,
}
use trata.Conflicts.Records.{find-record_conflict}
use trata.Frame.{
  has_operations, Touches, Touches-refl, Touches-trans, Touches-update, Touches-remove,
  Touches-enqueue, Touches-same, record_conflict-SameRecords, read-SameRecords,
  has_operations-SameRecords, own_operation,
}

module _ (h : Host) (e : SyncEntity) (i : String) (v : ℕ) (db : Db) where
  bury_row_absent : read_entity_row db e i ≡ none → bury_row h e i v db ≡ db
  unfolding bury_row
  bury_row_absent absent = rw (absent, bury_row)

  bury_row_found :
      (r : Row e)
      → read_entity_row db e i ≡ some r
      → bury_row h e i v db
        ≡ update_entity_row e i (bury (h.clock db.calls) v) (record db { calls = db.calls + 1 })
  unfolding bury_row
  bury_row_found r found = rw (found, bury_row)

  pub Touches-bury : Touches e i db (bury_row h e i v db)
  Touches-bury = elim (Option-cases (read_entity_row db e i)) [
    | inl absent ↦ rw (bury_row_absent absent) (Touches-refl db)
    | inr (r, found) ↦ rw (bury_row_found r found) (
        Touches-trans (Touches-same e i (record { tables = refl; outbox = refl })) (
          Touches-update e i (record db { calls = db.calls + 1 }) (bury (h.clock db.calls) v)
            (λ r. refl)))
  ]

  -- The buried row is the tombstone, at the version that was given.
  pub read-bury :
      read_entity_row (bury_row h e i v db) e i
      ≡ Option.map (bury (h.clock db.calls) v) (read_entity_row db e i)
  read-bury = elim (Option-cases (read_entity_row db e i)) [
    | inl absent ↦ rw (bury_row_absent absent) (rw absent)
    | inr (r, found) ↦ rw (bury_row_found r found) (
        unfold read_entity_row in
        read-update_self e i (record db { calls = db.calls + 1 }) (bury (h.clock db.calls) v)
          (λ r. refl))
  ]

module _ (h : Host) (e : SyncEntity) (i : String) (op_id : Option String) (base server : ℕ)
    (db : Db) where
  pub Touches-delete_wins : Touches e i db (apply_delete_wins h e i op_id base server db)
  unfolding apply_delete_wins
  Touches-delete_wins = Touches-trans (Touches-bury h e i server db) (
      Touches-trans (Touches-remove e i (bury_row h e i server db))
        (Touches-same e i (record_conflict-SameRecords h _ _)))

  pub delete_wins_lem :
      let after = apply_delete_wins h e i op_id base server db in
      (read_entity_row after e i
        ≡ Option.map (bury (h.clock db.calls) server) (read_entity_row db e i))
      × (has_operations after e i ≡ false)
      × (c : SyncConflictRow) × (find_unresolved_conflict after e i ≡ some c)
      × (c.kind ≡ deleted_conflict)
      × (c.local_state ≡ encoded (payload_or_null e (read_entity_row db e i)))
  unfolding apply_delete_wins
  delete_wins_lem =
      let removed = remove_operations_for e i (bury_row h e i server db) in
      let x : RecordConflictInput = record {
        entity = e;
        entity_id = i;
        op_id = op_id;
        kind = deleted_conflict;
        base_version = base;
        server_version = server;
        local_state = payload_or_null e (read_entity_row db e i);
        server_state = some (record { version = server; deleted = true; body = none });
      } in
      let same = record_conflict-SameRecords h x removed in
      let (c, found, _) = find-record_conflict h x removed in
      (
        read-SameRecords same e i
            ∙ (unfold remove_operations_for read_entity_row in read-bury h e i server db),
        has_operations-SameRecords same e i
            ∙ (unfold remove_operations_for in
                any-delete_self (op_of e i) (bury_row h e i server db).outbox),
        with_values x c,
        found,
        refl,
        refl,
      )

module _ (h : Host) (e : SyncEntity) (i : String) (op_id : Option String) (base server : ℕ)
    (lost : Option Fields) (state : ServerState) (db : Db) where
  abbrev rebased : Db
  rebased = update_entity_row e i (rebase_row server (read_entity_row db e i)) db

  abbrev deletion : EnqueueOperationInput
  deletion = record {
    entity = e;
    entity_id = i;
    op = delete_op;
    payload = null;
    base_version = server;
  }

  -- Above the version of the remote edit, so that it is DIRTY, and on its base.
  abbrev above_server : Row e → Row e
  above_server r = record r { server_version = server; version = max r.version (server + 1) }

  rebase-above_server :
      (o : Option (Row e)) → Option.map (rebase_row server o) o ≡ Option.map above_server o
  rebase-above_server none = refl
  rebase-above_server (some r) = refl

  rebase-keeps : (o : Option (Row e)) (r : Row e) → (rebase_row server o r).id ≡ r.id
  rebase-keeps none r = refl
  rebase-keeps (some _) r = refl

  above : (o : Option (Row e)) (r : Row e) → Option.map above_server o ≡ some r → server < r.version
  above none r h = cc
  above (some s) r h = let e : above_server s ≡ r = ground arith in rw (← e) (omega arith)

  pub Touches-local_delete_wins :
      Touches e i db (apply_local_delete_wins h e i op_id base server lost state db)
  unfolding apply_local_delete_wins
  Touches-local_delete_wins =
      Touches-trans
        (Touches-update e i db (rebase_row server (read_entity_row db e i))
          (rebase-keeps (read_entity_row db e i)))
        (Touches-trans (Touches-remove e i rebased) (
          Touches-trans (Touches-enqueue h deletion (remove_operations_for e i rebased))
            (Touches-same e i (record_conflict-SameRecords h _ _))))

  -- The local deletion goes on: the tombstone takes the remote edit's version as its base and is at
  -- its own version or at the one after the edit's, whichever is higher, so that it is DIRTY; one
  -- fresh deletion on that base is all that the record has queued; and an unresolved conflict keeps
  -- the lost remote edit.
  pub local_delete_wins_lem :
      let after = apply_local_delete_wins h e i op_id base server lost state db in
      (read_entity_row after e i
        ≡ Option.map
            (λ (r : Row e). record r {
              server_version = server;
              version = max r.version (server + 1);
            })
            (read_entity_row db e i))
      × ((r : Row e) → read_entity_row after e i ≡ some r → server < r.version)
      × (has_operations after e i ≡ true)
      × (o : SyncOutboxRow) × (select (op_of e i) after.outbox ≡ o ∷ [])
      × (o.op ≡ delete_op)
      × (o.base_version ≡ server)
      × (o.payload ≡ encoded null)
      × (o.sent_at ≡ none)
      × (c : SyncConflictRow) × (find_unresolved_conflict after e i ≡ some c)
      × (c.kind ≡ deleted_conflict)
      × (c.local_state ≡ encoded (fields_or_null lost))
  unfolding apply_local_delete_wins
  local_delete_wins_lem =
      let removed = remove_operations_for e i rebased in
      let queued = enqueue_operation h deletion removed in
      let x : RecordConflictInput = record {
        entity = e;
        entity_id = i;
        op_id = op_id;
        kind = deleted_conflict;
        base_version = base;
        server_version = server;
        local_state = fields_or_null lost;
        server_state = some state;
      } in
      let same = record_conflict-SameRecords h x queued in
      let (c, found, _) = find-record_conflict h x queued in
      let stored : read_entity_row queued e i
          ≡ Option.map (rebase_row server (read_entity_row db e i)) (read_entity_row db e i) =
        unfold enqueue_operation remove_operations_for read_entity_row in
        (read-update_self e i db (rebase_row server (read_entity_row db e i))
          (rebase-keeps (read_entity_row db e i))) in
      let reads =
        read-SameRecords same e i ∙ (stored ∙ rebase-above_server (read_entity_row db e i)) in
      (
        reads,
        λ r found. above (read_entity_row db e i) r (sym reads ∙ found),
        has_operations-SameRecords same e i
            ∙ (unfold enqueue_operation remove_operations_for in
                any-requeue (op_of e i) (op_row h removed.calls deletion) removed.outbox
                  (own_operation h removed.calls deletion)),
        op_row h removed.calls deletion,
        rw (same.outbox) (
            unfold enqueue_operation remove_operations_for in
            select-requeue (op_of e i) (op_row h removed.calls deletion) rebased.outbox
              (own_operation h removed.calls deletion)),
        refl,
        refl,
        refl,
        refl,
        with_values x c,
        found,
        refl,
        refl,
      )
