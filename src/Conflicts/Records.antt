-- ===== src/Conflicts/Records.antt =====
-- packages/local-data/src/sync/conflicts.ts, `recordConflict`.
use trata.Prelude.{
  ℕ, ◌+◌, ◌≤◌, ◌≡◌, refl, ◌⊎◌, inl, inr, String, true, none, some, Option-cases, Bool-cases, [],
  ◌∷◌, ◌++◌, arith, length, eq_iff, eq_refl, select, update,
}
use trata.Schema.{SyncEntity, SyncConflictRow}
use trata.Json.{encoded}
use trata.Db.{Db, Host}
use trata.Prelude.Rows.{
  first-update_kept, first-append, first-passes, length-select-update, length-select_absent,
  length-select-append,
}
use trata.Outbox.Queue.{entity_code-injective, same_entity_refl}
use trata.Conflicts.{
  RecordConflictInput, unresolved_of, has_conflict_id, find_unresolved_conflict, with_values,
  new_conflict, record_conflict,
}

record_conflict_new :
    (h : Host) (x : RecordConflictInput) (db : Db)
    → find_unresolved_conflict db x.entity x.entity_id ≡ none
    → record_conflict h x db ≡ record db {
      conflicts = db.conflicts ++ new_conflict h db.calls x ∷ [];
      calls = db.calls + 2;
    }
unfolding record_conflict
record_conflict_new h x db absent = rw (absent, record_conflict)

record_conflict_old :
    (h : Host) (x : RecordConflictInput) (db : Db) (c : SyncConflictRow)
    → find_unresolved_conflict db x.entity x.entity_id ≡ some c
    → record_conflict h x db
      ≡ record db { conflicts = update (has_conflict_id c.id) (with_values x) db.conflicts }
unfolding record_conflict
record_conflict_old h x db c found = rw (found, record_conflict)

new_conflict-unresolved :
    (h : Host) (n : ℕ) (x : RecordConflictInput)
    → unresolved_of x.entity x.entity_id (new_conflict h n x) ≡ true
new_conflict-unresolved h n x =
    ground (arith, same_entity_refl x.entity, eq_iff x.entity_id x.entity_id)

refreshed :
    (h : Host) (x : RecordConflictInput) (db : Db) (c : SyncConflictRow)
    → find_unresolved_conflict db x.entity x.entity_id ≡ some c
    → find_unresolved_conflict (record_conflict h x db) x.entity x.entity_id
      ≡ some (with_values x c)
unfolding find_unresolved_conflict
refreshed h x db c found = rw (record_conflict_old h x db c found) (
    rw
      (first-update_kept (unresolved_of x.entity x.entity_id) (has_conflict_id c.id) (with_values x)
        db.conflicts (λ d. refl))
      (rw found (rw eq_refl)))

pub find-record_conflict :
    (h : Host) (x : RecordConflictInput) (db : Db)
    → (c : SyncConflictRow) × (find_unresolved_conflict
          (record_conflict h x db)
          x.entity
          x.entity_id
        ≡ some (with_values x c))
      × ((find_unresolved_conflict db x.entity x.entity_id ≡ some c)
          ⊎ (find_unresolved_conflict db x.entity x.entity_id ≡ none))
find-record_conflict h x db =
    elim (Option-cases (find_unresolved_conflict db x.entity x.entity_id)) [
      | inl absent ↦ (
        new_conflict h db.calls x,
        rw (record_conflict_new h x db absent) (
            unfold find_unresolved_conflict in
            first-append (unresolved_of x.entity x.entity_id) (new_conflict h db.calls x)
              db.conflicts absent (new_conflict-unresolved h db.calls x)),
        inr absent,
      )
      | inr (c, found) ↦ (c, refreshed h x db c found, inl found)
    ]

-- The conflict shows what the input says, and is otherwise as it was.
pub record Shows (x : RecordConflictInput) (c shown : SyncConflictRow) : Type 0 where
  pub same : (shown.id ≡ c.id) × (shown.created_at ≡ c.created_at) × (shown.resolved_at ≡ none)
  pub record_of : (shown.entity ≡ x.entity) × (shown.entity_id ≡ x.entity_id)
  pub op_id : shown.op_id ≡ x.op_id
  pub kind : shown.kind ≡ x.kind
  pub base_version : shown.base_version ≡ x.base_version
  pub server_version : shown.server_version ≡ x.server_version
  pub local_state : shown.local_state ≡ encoded x.local_state
  pub server_state : shown.server_state ≡ encoded x.server_state

unresolved_fields :
    (e : SyncEntity) (i : String) (c : SyncConflictRow)
    → unresolved_of e i c ≡ true
    → (c.entity ≡ e) × (c.entity_id ≡ i) × (c.resolved_at ≡ none)
unresolved_fields e i c p = (
  ground (arith, entity_code-injective c.entity e),
  ground (arith, eq_iff c.entity_id i),
  ground arith,
)

Shows-with_values :
    (x : RecordConflictInput) (c : SyncConflictRow)
    → unresolved_of x.entity x.entity_id (with_values x c) ≡ true
    → Shows x c (with_values x c)
Shows-with_values x c open_still =
    let (e, i, resolved) = unresolved_fields x.entity x.entity_id (with_values x c) open_still in
    record {
      same = (refl, refl, resolved);
      record_of = (e, i);
      op_id = refl;
      kind = refl;
      base_version = refl;
      server_version = refl;
      local_state = refl;
      server_state = refl;
    }

-- No record has two unresolved conflicts.
pub record IsSingle (db : Db) : Type 0 where
  pub single : (e : SyncEntity) (i : String) → length (select (unresolved_of e i) db.conflicts) ≤ 1

same_record :
    (x : RecordConflictInput) (e : SyncEntity) (i : String) (h : Host) (n : ℕ)
    → unresolved_of e i (new_conflict h n x) ≡ true
    → (x.entity ≡ e) × (x.entity_id ≡ i)
same_record x e i h n p = ground (arith, entity_code-injective x.entity e, eq_iff x.entity_id i)

single_at :
    (h : Host) (x : RecordConflictInput) (db : Db)
    → IsSingle db
    → (e : SyncEntity) (i : String)
    → length (select (unresolved_of e i) (record_conflict h x db).conflicts) ≤ 1
single_at h x db s e i = elim (Option-cases (find_unresolved_conflict db x.entity x.entity_id)) [
  | inr (c, found) ↦ rw (record_conflict_old h x db c found) (
      rw
        (length-select-update (unresolved_of e i) (has_conflict_id c.id) (with_values x)
          db.conflicts (λ d. refl))
        (s.single e i))
  | inl absent ↦ rw (record_conflict_new h x db absent) (
      rw (length-select-append (unresolved_of e i) (new_conflict h db.calls x) db.conflicts)
        (elim (Bool-cases (unresolved_of e i (new_conflict h db.calls x))) [
          | inr other ↦ rw other (omega (arith, s.single e i))
          | inl own ↦
              let (p, q) = same_record x e i h db.calls own in
              rw own (
                omega (
                  arith,
                  length-select_absent (unresolved_of e i) db.conflicts
                      (unfold find_unresolved_conflict in rw (p, q) at absent),
                ))
        ]))
]

record_conflict-IsSingle :
    (h : Host) (x : RecordConflictInput) (db : Db) → IsSingle db → IsSingle (record_conflict h x db)
record_conflict-IsSingle h x db s = record { single = single_at h x db s }

-- If every record has at most one unresolved conflict, `recordConflict` leaves it so, and the
-- record's unresolved conflict then has the input's operation, kind, versions and both states: it
-- is the one that was there, refreshed, or a new one.
pub record_conflict_lem :
    (h : Host) (x : RecordConflictInput) (db : Db)
    → IsSingle db
    → let after = record_conflict h x db in
      IsSingle after
      × (c : SyncConflictRow) × (shown : SyncConflictRow) × (find_unresolved_conflict after x.entity
            x.entity_id
          ≡ some shown)
      × Shows x c shown
      × ((find_unresolved_conflict db x.entity x.entity_id ≡ some c)
          ⊎ (find_unresolved_conflict db x.entity x.entity_id ≡ none))
record_conflict_lem h x db s =
    let (c, carries, before) = find-record_conflict h x db in
    let after = record_conflict h x db in
    let still : unresolved_of x.entity x.entity_id (with_values x c) ≡ true =
      first-passes (unresolved_of x.entity x.entity_id) after.conflicts (with_values x c)
        (unfold find_unresolved_conflict in carries) in
    (
      record_conflict-IsSingle h x db s,
      c,
      with_values x c,
      carries,
      Shows-with_values x c still,
      before,
    )
