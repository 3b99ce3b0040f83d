-- ===== src/Conflicts/Resolve.antt =====
-- packages/local-data/src/sync/conflicts.ts, the user's two resolutions.
use mathlib.Core.Option
use trata.Prelude.{
  ℕ, ◌+◌, ◌<◌, ◌≡◌, refl, sym, ap, max, is_some, ◌∙◌, String, true, false, Option, none, some, [],
  ◌∷◌, arith, ltb, select, if◌then◌else◌,
}
use trata.Prelude.Rows.{any-delete_self, select-requeue, first-update_kept, first-passes}
use trata.Json.{null, Fields, encoded}
use trata.Schema.{
  SyncEntity, ServerState, SyncOutboxRow, SyncConflictRow, Row, op_of, upsert, delete_op,
}
use trata.Db.{Db, Host, read_entity_row, update_entity_row, delete_entity_row, IsClean}
use trata.Db.Laws.{read-update_self, read-delete_self}
use trata.Catalog.{row_to_payload, sync_data_to_row_patch}
use trata.Outbox.{enqueue_operation, remove_operations_for, op_row}
use trata.Conflicts.{
  bury, bury_row, set_revisions, adopt, take_data, take_state, take_server, parsed_server_state,
  open_conflict, when_unresolved, keep_input, has_conflict_id, get_conflict_by_id, resolve_at,
  mark_conflict_resolved, resolve_conflict_take_server, keep_row, keep_local,
  resolve_conflict_keep_local,
}
use trata.Conflicts.DeleteWins.{Touches-bury, read-bury}
use trata.Frame.{
  has_operations, Touches, Touches-trans, Touches-update, Touches-delete, Touches-remove,
  Touches-enqueue, Touches-same, mark_conflict_resolved-SameRecords, read-SameRecords,
  has_operations-SameRecords, own_operation,
}

-- If the record has a row, the row is CLEAN.
abbrev pub CleanAt : Db → (e : SyncEntity) → String → Type 0
CleanAt db e i = (r : Row e) → read_entity_row db e i ≡ some r → IsClean r

pub patched :
    {e : SyncEntity} (f : Row e → Row e) (o : Option (Row e)) (r : Row e)
    → ((s : Row e) → IsClean (f s))
    → Option.map f o ≡ some r
    → IsClean r
patched f none r cleans h = cc
patched f (some s) r cleans h = let e : f s ≡ r = ground arith in rw (← e) (cleans s)

module _ (h : Host) (e : SyncEntity) (i : String) where
  pub CleanAt-update :
      (db : Db) (f : Row e → Row e)
      → ((r : Row e) → (f r).id ≡ r.id)
      → ((r : Row e) → IsClean (f r))
      → CleanAt (update_entity_row e i f db) e i
  CleanAt-update db f keeps cleans r found =
      patched f (read_entity_row db e i) r cleans (sym (read-update_self e i db f keeps) ∙ found)

  pub CleanAt-bury : (v : ℕ) (db : Db) → CleanAt (bury_row h e i v db) e i
  CleanAt-bury v db r found =
      patched (bury (h.clock db.calls) v) (read_entity_row db e i) r (λ s. refl)
        (sym (read-bury h e i v db) ∙ found)

  CleanAt-delete : (db : Db) → CleanAt (delete_entity_row e i db) e i
  CleanAt-delete db r found = cc (read-delete_self e i db)

  take_data-CleanAt : (v : ℕ) (d : Fields) (db : Db) → CleanAt (take_data e i v d db) e i
  unfolding take_data
  take_data-CleanAt v d db =
      elim (sync_data_to_row_patch e d)
        as (λ o.
          CleanAt
            (elim o [
              | none ↦ update_entity_row e i (set_revisions v) db
              | some c ↦ update_entity_row e i (adopt c v) db
            ])
            e i) [
              | none ↦ CleanAt-update db (set_revisions v) (λ r. refl) (λ r. refl)
              | some c ↦ CleanAt-update db (adopt c v) (λ r. refl) (λ r. refl)
            ]

  take_data-Touches : (v : ℕ) (d : Fields) (db : Db) → Touches e i db (take_data e i v d db)
  unfolding take_data
  take_data-Touches v d db =
      elim (sync_data_to_row_patch e d)
        as (λ o. Touches e i db (elim o [
          | none ↦ update_entity_row e i (set_revisions v) db
          | some c ↦ update_entity_row e i (adopt c v) db
        ])) [
          | none ↦ Touches-update e i db (set_revisions v) (λ r. refl)
          | some c ↦ Touches-update e i db (adopt c v) (λ r. refl)
        ]

  -- Whatever `take_server` ends with is one of three: the record buried, gone, or adopted.
  take_server-cases :
      (P : Db → Type 0) (db : Db)
      → ((v : ℕ) → P (bury_row h e i v db))
      → ((v : ℕ) (d : Fields) → P (take_data e i v d db))
      → P (delete_entity_row e i db)
      → (s : Option ServerState) → P (take_server h e i s db)
  unfolding take_server take_state
  take_server-cases P db buried adopted gone none = gone
  take_server-cases P db buried adopted gone (some s) =
      elim (ltb 0 s.version)
        as (λ b. P (
          if b
          then (if s.deleted then bury_row h e i s.version db else elim s.body [
            | none ↦ bury_row h e i s.version db
            | some d ↦ take_data e i s.version d db
          ])
          else delete_entity_row e i db)) [
            | false ↦ gone
            | true ↦
                elim s.deleted
                  as (λ b. P (
                    if b then bury_row h e i s.version db else elim s.body [
                      | none ↦ bury_row h e i s.version db
                      | some d ↦ take_data e i s.version d db
                    ])) [
                      | true ↦ buried s.version
                      | false ↦
                          elim s.body
                            as (λ o. P (elim o [
                              | none ↦ bury_row h e i s.version db
                              | some d ↦ take_data e i s.version d db
                            ])) [ none ↦ buried s.version | some d ↦ adopted s.version d ]
                    ]
          ]

  conflicts-bury : (v : ℕ) (db : Db) → (bury_row h e i v db).conflicts ≡ db.conflicts
  unfolding bury_row update_entity_row
  conflicts-bury v db = ground arith

  conflicts-take_data :
      (v : ℕ) (d : Fields) (db : Db) → (take_data e i v d db).conflicts ≡ db.conflicts
  unfolding take_data update_entity_row
  conflicts-take_data v d db = ground arith

  conflicts-take_server :
      (s : Option ServerState) (db : Db) → (take_server h e i s db).conflicts ≡ db.conflicts
  unfolding delete_entity_row
  conflicts-take_server s db =
      take_server-cases (λ d. d.conflicts ≡ db.conflicts) db (λ v. conflicts-bury v db)
        (λ v d. conflicts-take_data v d db) refl s

abbrev marked : ℕ → String → SyncConflictRow → SyncConflictRow
marked t k c = if has_conflict_id k c then resolve_at t c else c

get-mark :
    (h : Host) (k : String) (db : Db)
    → get_conflict_by_id (mark_conflict_resolved h k db) k
      ≡ Option.map (marked (h.clock db.calls) k) (get_conflict_by_id db k)
unfolding get_conflict_by_id mark_conflict_resolved
get-mark h k db =
    first-update_kept (has_conflict_id k) (has_conflict_id k) (resolve_at (h.clock db.calls))
      db.conflicts (λ d. refl)

when_unresolved-marked :
    (t : ℕ) (k : String) (o : Option SyncConflictRow)
    → ((x : SyncConflictRow) → o ≡ some x → has_conflict_id k x ≡ true)
    → when_unresolved (Option.map (marked t k) o) ≡ none
unfolding when_unresolved
when_unresolved-marked t k none p = refl
when_unresolved-marked t k (some x) p = rw (p x refl)

-- A marked conflict is not open any more.
open-mark :
    (h : Host) (k : String) (db : Db) → open_conflict (mark_conflict_resolved h k db) k ≡ none
unfolding open_conflict
open-mark h k db = rw (get-mark h k db) (
    when_unresolved-marked (h.clock db.calls) k (get_conflict_by_id db k)
      (unfold get_conflict_by_id in first-passes (has_conflict_id k) db.conflicts))

module _ (h : Host) (k : String) (db : Db) where
  take_open :
      (c : SyncConflictRow)
      → open_conflict db k ≡ some c
      → resolve_conflict_take_server h k db
        ≡ mark_conflict_resolved h k (
            remove_operations_for c.entity c.entity_id
              (take_server h c.entity c.entity_id (parsed_server_state c) db))
  unfolding resolve_conflict_take_server
  take_open c opened = rw (opened, resolve_conflict_take_server)

  -- "Take theirs" on an open conflict: the record is CLEAN or gone, nothing of it is queued, no
  -- other record is touched, and the conflict is open no more.
  pub take_server_lem :
      (c : SyncConflictRow)
      → open_conflict db k ≡ some c
      → let after = resolve_conflict_take_server h k db in
        CleanAt after c.entity c.entity_id
        × (has_operations after c.entity c.entity_id ≡ false)
        × Touches c.entity c.entity_id db after
        × (open_conflict after k ≡ none)
  take_server_lem c opened =
      let e = c.entity in
      let i = c.entity_id in
      let s = parsed_server_state c in
      let taken = take_server h e i s db in
      let removed = remove_operations_for e i taken in
      let same = mark_conflict_resolved-SameRecords h k removed in
      rw (take_open c opened) (
        λ r found.
            take_server-cases h e i (λ d. CleanAt d e i) db (λ v. CleanAt-bury h e i v db)
              (λ v d. take_data-CleanAt h e i v d db) (CleanAt-delete h e i db) s r
              (unfold remove_operations_for read_entity_row in
                (sym (read-SameRecords same e i) ∙ found)),
        has_operations-SameRecords same e i
            ∙ (unfold remove_operations_for in any-delete_self (op_of e i) taken.outbox),
        Touches-trans
            (take_server-cases h e i (Touches e i db) db (λ v. Touches-bury h e i v db)
              (λ v d. take_data-Touches h e i v d db) (Touches-delete e i db) s)
            (Touches-trans (Touches-remove e i taken) (Touches-same e i same)),
        open-mark h k removed,
      )

  keep_open :
      (c : SyncConflictRow) (r : Row c.entity)
      → open_conflict db k ≡ some c
      → read_entity_row db c.entity c.entity_id ≡ some r
      → resolve_conflict_keep_local h k db
        ≡ mark_conflict_resolved h k (
            keep_local h c.entity c.entity_id c.server_version r
              (remove_operations_for c.entity c.entity_id db))
  unfolding resolve_conflict_keep_local
  keep_open c r opened found =
      rw (opened, resolve_conflict_keep_local) (rw (found, resolve_conflict_keep_local))

  -- "Keep mine" on an open conflict of a record that is there: the row is re-based on the server's
  -- version and DIRTY, one fresh operation on that base is all that it has queued, a deletion if
  -- the row is deleted and else an upsert of its full state, no other record is touched, and the
  -- conflict is open no more.
  pub keep_local_lem :
      (c : SyncConflictRow) (r : Row c.entity)
      → open_conflict db k ≡ some c
      → read_entity_row db c.entity c.entity_id ≡ some r
      → let after = resolve_conflict_keep_local h k db in
        let kept = record r {
          server_version = c.server_version;
          version = max r.version (c.server_version + 1);
        } in
        (read_entity_row after c.entity c.entity_id ≡ some kept)
        × (kept.server_version < kept.version)
        × (o : SyncOutboxRow) × (select (op_of c.entity c.entity_id) after.outbox ≡ o ∷ [])
        × (o.base_version ≡ c.server_version)
        × (o.op ≡ (if is_some r.deleted_at then delete_op else upsert))
        × (o.payload ≡ encoded (if is_some r.deleted_at then null else row_to_payload c.entity r))
        × (o.sent_at ≡ none)
        × Touches c.entity c.entity_id db after
        × (open_conflict after k ≡ none)
  keep_local_lem c r opened found =
      let e = c.entity in
      let i = c.entity_id in
      let f : Row e → Row e = keep_row c.server_version r.version in
      let x = keep_input e i c.server_version r in
      let removed = remove_operations_for e i db in
      let updated = update_entity_row e i f removed in
      let kept = keep_local h e i c.server_version r removed in
      let same = mark_conflict_resolved-SameRecords h k kept in
      rw (keep_open c r opened found) (
        read-SameRecords same e i
            ∙ (unfold keep_local enqueue_operation remove_operations_for read_entity_row in
                (read-update_self e i removed f (λ s. refl) ∙ ap (Option.map f) found)),
        omega arith,
        op_row h db.calls x,
        rw (same.outbox) (
            unfold keep_local enqueue_operation remove_operations_for update_entity_row in
            select-requeue (op_of e i) (op_row h db.calls x) db.outbox
              (own_operation h db.calls x)),
        refl,
        refl,
        refl,
        refl,
        unfold keep_local in
            Touches-trans (Touches-remove e i db) (
              Touches-trans (Touches-update e i removed f (λ s. refl))
                (Touches-trans (Touches-enqueue h x updated) (Touches-same e i same))),
        open-mark h k kept,
      )
