-- ===== src/Frame.antt =====
-- What an operation on one record may change: the row and the queued operations of that record.
-- One rule for each statement and each helper that the components of packages/local-data share.
pub mod Settled
use trata.Prelude.{
  ℕ, ◌≡◌, refl, sym, ◌∙◌, ap, String, Bool, true, false, ◌||◌, Option, none, some, List, [], ◌∷◌,
  ◌++◌, arith, any, str_eq, eq_iff, delete, first, if◌then◌else◌,
}
use trata.Schema.{SyncEntity, SyncOutboxRow, Row, op_of}
use trata.Db.{Db, Host, read_entity_row, update_entity_row, insert_entity_row, delete_entity_row}
use trata.Db.Laws.{Other, read-update_elsewhere, read-delete_elsewhere, read-insert_elsewhere}
use trata.Outbox.{EnqueueOperationInput, op_row, enqueue_operation, remove_operations_for}
use trata.Prelude.Rows.{any-append, any-delete_disjoint, All-every}
use trata.Outbox.Queue.{op_of_elsewhere, same_entity_refl}
use trata.Conflicts.{
  RecordConflictInput, find_unresolved_conflict, record_conflict, mark_conflict_resolved,
}

-- Whether a record has queued operations.
abbrev pub has_operations : Db → SyncEntity → String → Bool
has_operations db e i = any (op_of e i) db.outbox

pub record Touches (e : SyncEntity) (i : String) (before after : Db) : Type 0 where
  pub rows :
      (g : SyncEntity) (j : String)
      → Other e i g j
      → read_entity_row after g j ≡ read_entity_row before g j
  pub operations :
      (g : SyncEntity) (j : String)
      → Other e i g j
      → has_operations after g j ≡ has_operations before g j

module _ {e : SyncEntity} {i : String} where
  pub Touches-refl : (db : Db) → Touches e i db db
  Touches-refl db = record { rows = λ g j o. refl; operations = λ g j o. refl }

  pub Touches-trans : {a b c : Db} → Touches e i a b → Touches e i b c → Touches e i a c
  Touches-trans p q = record {
    rows = λ g j o. q.rows g j o ∙ p.rows g j o;
    operations = λ g j o. q.operations g j o ∙ p.operations g j o;
  }

module _ (e : SyncEntity) (i : String) (db : Db) where
  pub Touches-update :
      (f : Row e → Row e)
      → ((r : Row e) → (f r).id ≡ r.id)
      → Touches e i db (update_entity_row e i f db)
  unfolding update_entity_row
  Touches-update f keeps = record {
    rows = λ g j o. read-update_elsewhere e i db f keeps g j o;
    operations = λ g j o. refl;
  }

  pub Touches-insert : (r : Row e) → r.id ≡ i → Touches e i db (insert_entity_row e r db)
  unfolding insert_entity_row
  Touches-insert r same = record {
    rows = λ g j o. read-insert_elsewhere e i db r same g j o;
    operations = λ g j o. refl;
  }

  pub Touches-delete : Touches e i db (delete_entity_row e i db)
  unfolding delete_entity_row
  Touches-delete = record {
    rows = λ g j o. read-delete_elsewhere e i db g j o;
    operations = λ g j o. refl;
  }

  pub Touches-remove : Touches e i db (remove_operations_for e i db)
  unfolding remove_operations_for read_entity_row
  Touches-remove = record {
    rows = λ g j o. refl;
    operations = λ g j o.
        any-delete_disjoint (op_of g j) (op_of e i) db.outbox
          (All-every (λ x h. op_of_elsewhere e i g j x o h) db.outbox);
  }

-- A new operation is its record's.
pub own_operation :
    (h : Host) (n : ℕ) (x : EnqueueOperationInput)
    → op_of x.entity x.entity_id (op_row h n x) ≡ true
own_operation h n x = ground (arith, same_entity_refl x.entity, eq_iff x.entity_id x.entity_id)

pub Touches-enqueue :
    (h : Host) (x : EnqueueOperationInput) (db : Db)
    → Touches x.entity x.entity_id db (enqueue_operation h x db)
unfolding enqueue_operation read_entity_row
Touches-enqueue h x db = record {
  rows = λ g j o. refl;
  operations = λ g j o.
      any-append (op_of g j) db.outbox (op_row h db.calls x ∷ [])
      ∙ ground (
        arith,
        op_of_elsewhere x.entity x.entity_id g j (op_row h db.calls x) o
            (own_operation h db.calls x),
      );
}

-- The statements on the conflict records leave the rows and the outbox alone.
pub record SameRecords (before after : Db) : Type 0 where
  pub tables : after.tables ≡ before.tables
  pub outbox : after.outbox ≡ before.outbox

pub record_conflict-SameRecords :
    (h : Host) (x : RecordConflictInput) (db : Db) → SameRecords db (record_conflict h x db)
unfolding record_conflict
record_conflict-SameRecords h x db = ground arith

pub mark_conflict_resolved-SameRecords :
    (h : Host) (c : String) (db : Db) → SameRecords db (mark_conflict_resolved h c db)
unfolding mark_conflict_resolved
mark_conflict_resolved-SameRecords h c db = ground arith

pub read-SameRecords :
    {a b : Db}
    → SameRecords a b
    → (g : SyncEntity) (j : String) → read_entity_row b g j ≡ read_entity_row a g j
unfolding read_entity_row
read-SameRecords s g j = rw s.tables

pub has_operations-SameRecords :
    {a b : Db}
    → SameRecords a b
    → (g : SyncEntity) (j : String) → has_operations b g j ≡ has_operations a g j
has_operations-SameRecords s g j = rw s.outbox

pub Touches-same : {a b : Db} (e : SyncEntity) (i : String) → SameRecords a b → Touches e i a b
Touches-same e i s = record {
  rows = λ g j o. read-SameRecords s g j;
  operations = λ g j o. has_operations-SameRecords s g j;
}
