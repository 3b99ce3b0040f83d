-- ===== src/Repositories/Debtors/Cascading.antt =====
-- packages/local-data/src/repositories/debt.ts: what the deletion of a debtor leaves, and the
-- repository of debtors as a whole.
use trata.Prelude.{
  ◌≡◌, ◌≢◌, refl, ◌∙◌, inl, String, Bool, not, ◌&&◌, none, some, List, [], ◌∷◌, str_eq,
}
use trata.Json.{null}
use trata.Schema.{SyncEntity, debtor, debt_operation, Row}
use trata.Db.{Db, Host, read_entity_row, is_deleted}
use trata.Frame.{has_operations}
use trata.Frame.Settled.{IsSettled}
use trata.Repositories.Values.{not_found_error, Outcome, rejected, done, if_live}
use trata.Repositories.Actions.{is_unborn, delete_with_tombstone}
use trata.Repositories.Queued.{IsRemoved, delete-Touches}
use trata.Repositories.Debtors.{live_operations, delete_operations}

-- The rows that `cascadeDeleteDebtor` reads.
abbrev pub is_live_operation_of : String → Row debt_operation → Bool
is_live_operation_of i o = str_eq o.columns.debtor_id i && not (is_deleted o)

-- Deleting operations is nothing to a record that is none.
pub delete_operations_elsewhere :
    (h : Host) (os : List (Row debt_operation)) (db : Db) (g : SyncEntity) (j : String)
    → debt_operation ≢ g
    → (read_entity_row (delete_operations h os db) g j ≡ read_entity_row db g j)
      × (has_operations (delete_operations h os db) g j ≡ has_operations db g j)
unfolding delete_operations
delete_operations_elsewhere h [] db g j ne = (refl, refl)
delete_operations_elsewhere h (o ∷ os) db g j ne =
    let next = delete_with_tombstone h debt_operation o.id o null db in
    let (reads, ops) = delete_operations_elsewhere h os next g j ne in
    let t = delete-Touches debt_operation h o.id o null db in
    (reads ∙ t.rows g j (inl ne), ops ∙ t.operations g j (inl ne))

-- What `remove` answers.
abbrev pub RemoveDebtorAnswer : String → Db → Outcome Unit → Type 0
RemoveDebtorAnswer i db (rejected not_found_error) = if_live (read_entity_row db debtor i) ≡ none
RemoveDebtorAnswer i db (rejected _) = ⊥
RemoveDebtorAnswer i db (done _ after) =
    (r : Row debtor) × (if_live (read_entity_row db debtor i) ≡ some r)
    × IsRemoved debtor after i r (is_unborn debtor i r.server_version db)
    × (live_operations after i ≡ [])
    × IsSettled after
