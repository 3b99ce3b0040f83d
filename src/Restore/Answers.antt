-- ===== src/Restore/Answers.antt =====
-- packages/local-data/src/sync/restore.ts: what `restoreConflictAsNew` leaves.
use mathlib.Core.Path.{subst}
use trata.Prelude.{◌≡◌, refl, sym, ◌∙◌, ap, String, Option, none, some}
use trata.Schema.{
  SyncEntity, account, category, transaction, debtor, debt_operation, planned_payment, Row,
}
use trata.Db.{Db, Host, read_entity_row}
use trata.Frame.Settled.{IsSettled}
use trata.Repositories.Values.{Outcome, rejected, done}
use trata.Repositories.Queued.{IsQueued}
use trata.Accounts.Creation.{create}
use trata.Accounts.Balance.{AccountWithBalance}
use trata.Accounts.Mutations.{CreateAnswer, chosen_id, create_lem}
use trata.Repositories.Categories.{create_category}
use trata.Repositories.Categories.Answers.{CreateCategoryAnswer, category_repository_lem}
use trata.Repositories.Debtors.{create_debtor}
use trata.Repositories.Debtors.Answers.{CreateDebtorAnswer, create_debtor_lem}
use trata.Repositories.DebtOperations.{create_debt_operation}
use trata.Repositories.DebtOperations.Answers.{CreateOperationAnswer, debt_operation_repository_lem}
use trata.Repositories.PlannedPayments.{create_plan}
use trata.Repositories.PlannedPayments.Answers.{CreatePlanAnswer, planned_payment_repository_lem}
use trata.Repositories.Transactions.{create_transaction}
use trata.Repositories.Transactions.Answers.{
  transaction_id, CreateTransactionAnswer, create_transaction_lem,
}
use trata.Restore.{created, create_restored}
use trata.Restore.Decoding.{Payload}

-- A new record: under an id that was free, queued, with the records without operations CLEAN.
abbrev pub IsCreated : (e : SyncEntity) → Db → String × Db → Type 0
IsCreated e db x =
    (row : Row e) × (read_entity_row db e x.0 ≡ none) × IsQueued e db x.0 row x.1 × IsSettled x.1

module _ {e : SyncEntity} (db : Db) where
  -- A done `create` as a new record.
  done-IsCreated :
      (row : Row e) (after : Db) (i : String) (x : String × Db)
      → row.id ≡ i
      → created (done row after) ≡ some x
      → read_entity_row db e i ≡ none
      → IsQueued e db i row after
      → IsSettled after
      → IsCreated e db x
  done-IsCreated row after i x own h free q s =
      let same : (row.id, after) ≡ x = cc h in
      subst (IsCreated e db) same (
        row,
        ap (read_entity_row db e) own ∙ free,
        subst (λ k. IsQueued e db k row after) (sym own) q,
        s,
      )

-- The outcome of `create` in each repository.
outcome_IsCreated_category :
    (h : Host) (p : Payload category) (db : Db) (o : Outcome (Row category)) (x : String × Db)
    → CreateCategoryAnswer h p db o
    → created o ≡ some x
    → IsCreated category db x
outcome_IsCreated_category h p db (rejected why) x a made = cc made
outcome_IsCreated_category h p db (done row after) x a made =
    done-IsCreated db row after row.id x refl made a.2 a.4 a.5

outcome_IsCreated_debtor :
    (h : Host) (p : Payload debtor) (db : Db) (o : Outcome (Row debtor)) (x : String × Db)
    → CreateDebtorAnswer h p db o
    → created o ≡ some x
    → IsCreated debtor db x
outcome_IsCreated_debtor h p db (rejected why) x a made = cc made
outcome_IsCreated_debtor h p db (done row after) x a made =
    done-IsCreated db row after row.id x refl made a.2 a.4 a.5

outcome_IsCreated_operation :
    (h : Host) (p : Payload debt_operation) (db : Db) (o : Outcome (Row debt_operation))
    (x : String × Db)
    → CreateOperationAnswer h p db o
    → created o ≡ some x
    → IsCreated debt_operation db x
outcome_IsCreated_operation h p db (rejected why) x a made = cc made
outcome_IsCreated_operation h p db (done row after) x a made =
    done-IsCreated db row after row.id x refl made a.4 a.10 a.11

outcome_IsCreated_plan :
    (h : Host) (p : Payload planned_payment) (db : Db) (o : Outcome (Row planned_payment))
    (x : String × Db)
    → CreatePlanAnswer h p db o
    → created o ≡ some x
    → IsCreated planned_payment db x
outcome_IsCreated_plan h p db (rejected why) x a made = cc made
outcome_IsCreated_plan h p db (done row after) x a made =
    done-IsCreated db row after row.id x refl made a.4 a.10 a.11

outcome_IsCreated_transaction :
    (h : Host) (p : Payload transaction) (db : Db) (o : Outcome (Row transaction)) (x : String × Db)
    → CreateTransactionAnswer h p db o
    → created o ≡ some x
    → IsCreated transaction db x
outcome_IsCreated_transaction h p db (rejected why) x a made = cc made
outcome_IsCreated_transaction h p db (done row after) x a made =
    done-IsCreated db row after (transaction_id h p db) x
      (ap (λ (t : Row transaction). t.id) a.3.same) made a.2 a.4 a.5

abbrev with_balance_created : Outcome AccountWithBalance → Option (String × Db)
with_balance_created (rejected _) = none
with_balance_created (done a after) = some (a.row.id, after)

outcome_IsCreated_account :
    (h : Host) (p : Payload account) (db : Db) (o : Outcome AccountWithBalance) (x : String × Db)
    → CreateAnswer h p db o
    → with_balance_created o ≡ some x
    → IsCreated account db x
outcome_IsCreated_account h p db (rejected why) x a made = cc made
outcome_IsCreated_account h p db (done w after) x a made =
    done-IsCreated db w.row after (chosen_id h p db) x a.1 made
      (ap (read_entity_row db account) (sym a.1) ∙ a.8) a.9 a.10

pub create_restored-IsCreated :
    (h : Host) (e : SyncEntity) (p : Payload e) (db : Db) (x : String × Db)
    → IsSettled db
    → create_restored h e p db ≡ some x
    → IsCreated e db x
unfolding create_restored
create_restored-IsCreated h account p db x s made =
    outcome_IsCreated_account h p db (create h p db) x (create_lem h p db s) made
create_restored-IsCreated h category p db x s made =
    outcome_IsCreated_category h p db (create_category h p db) x
      ((category_repository_lem h db s).0 p) made
create_restored-IsCreated h debtor p db x s made =
    outcome_IsCreated_debtor h p db (create_debtor h p db) x (create_debtor_lem h p db s) made
create_restored-IsCreated h debt_operation p db x s made =
    outcome_IsCreated_operation h p db (create_debt_operation h p db) x
      ((debt_operation_repository_lem h db s).0 p) made
create_restored-IsCreated h planned_payment p db x s made =
    outcome_IsCreated_plan h p db (create_plan h p db) x
      ((planned_payment_repository_lem h db s).0 p) made
create_restored-IsCreated h transaction p db x s made =
    outcome_IsCreated_transaction h p db (create_transaction h p db) x
      (create_transaction_lem h p db s) made
