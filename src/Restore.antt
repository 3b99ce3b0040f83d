-- ===== src/Restore.antt =====
-- packages/local-data/src/sync/restore.ts: a conflict's preserved local state restored as a new
-- record.
pub mod Decoding
pub mod Answers
pub mod Resolution
use trata.Prelude.{String, Bool, true, false, Option, none, some}
use trata.Json.{Json, Fields, none_left, object, array}
use trata.Schema.{
  SyncEntity, account, category, transaction, debtor, debt_operation, planned_payment, Row,
  SyncConflictRow,
}
use trata.Db.{Db, Host}
use trata.Conflicts.{get_conflict_by_id, parsed_local_state, mark_conflict_resolved}
use trata.Accounts.Creation.{create}
use trata.Repositories.Values.{Outcome, rejected, done}
use trata.Repositories.Categories.{create_category}
use trata.Repositories.Debtors.{create_debtor}
use trata.Repositories.DebtOperations.{create_debt_operation}
use trata.Repositories.PlannedPayments.{create_plan}
use trata.Repositories.Transactions.{create_transaction}
use trata.Restore.Decoding.{Payload, Decoded, decoded, failed, decode_restore_payload}

-- `typeof state === 'object' && state !== null`: an array has none of the fields.
abbrev pub state_of : Json → Option Fields
state_of (object fs) = some fs
state_of (array _) = some none_left
state_of _ = none

-- `canRestoreAsNew`.
unfoldable pub can_restore_as_new : SyncConflictRow → Bool
can_restore_as_new c = elim (state_of (parsed_local_state c)) [ none ↦ false | some _ ↦ true ]

-- `RestoreResult`.
pub data RestoreResult : Type 0 where
  restored : SyncEntity → String → RestoreResult
  conflict_missing : RestoreResult
  no_local_state : SyncEntity → RestoreResult
  invalid_state : SyncEntity → Option String → RestoreResult

abbrev created : {e : SyncEntity} → Outcome (Row e) → Option (String × Db)
created (rejected _) = none
created (done row after) = some (row.id, after)

-- The `switch`: the `create` of the entity's repository, as the new id and the database.
unfoldable pub create_restored : Host → (e : SyncEntity) → Payload e → Db → Option (String × Db)
create_restored h account p db = elim (create h p db) [
  | rejected _ ↦ none
  | done a after ↦ some (a.row.id, after)
]
create_restored h category p db = created (create_category h p db)
create_restored h transaction p db = created (create_transaction h p db)
create_restored h debtor p db = created (create_debtor h p db)
create_restored h debt_operation p db = created (create_debt_operation h p db)
create_restored h planned_payment p db = created (create_plan h p db)

unfoldable pub restore_payload :
    Host → (c : SyncConflictRow) → Payload c.entity → Db → RestoreResult × Db
restore_payload h c p db = elim (create_restored h c.entity p db) [
  | none ↦ (invalid_state c.entity none, db)
  | some (i, after) ↦ (restored c.entity i, mark_conflict_resolved h c.id after)
]

-- `restoreConflictAsNew`.
unfoldable pub restore_conflict_as_new : Host → String → Db → RestoreResult × Db
unfolding restore_payload
restore_conflict_as_new h i db = elim (get_conflict_by_id db i) [
  | none ↦ (conflict_missing, db)
  | some c ↦ elim (state_of (parsed_local_state c)) [
    | none ↦ (no_local_state c.entity, db)
    | some fs ↦ elim (decode_restore_payload c.entity fs) [
      | failed k ↦ (invalid_state c.entity (some k), db)
      | decoded p ↦ restore_payload h c p db
    ]
  ]
]
