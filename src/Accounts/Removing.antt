-- ===== src/Accounts/Removing.antt =====
-- packages/local-data/src/repositories/account.ts, `remove`.
use trata.Prelude.{
  String, Bool, not, ◌&&◌, ◌||◌, none, some, List, [], ◌∷◌, any, select, str_eq, if◌then◌else◌,
}
use trata.Json.{null}
use trata.Schema.{account, transaction, Row}
use trata.Db.{Db, Host, read_entity_row, is_deleted}
use trata.Outbox.{remove_operations_for}
use trata.Repositories.Actions.{is_unborn, wipe_row, tombstone_row, delete_with_tombstone}
use trata.Repositories.Values.{
  not_found_error, referential_integrity_error, Outcome, rejected, done, is_id, if_live,
}

-- `hasTransactionsForAccount`.
unfoldable pub has_transactions_for_account : Db → String → Bool
has_transactions_for_account db i =
    any
      (λ t.
        not (is_deleted t)
        && (not (str_eq t.columns.type "adjustment")
            && (is_id i t.columns.account_id
                || (is_id i t.columns.from_account_id || is_id i t.columns.to_account_id))))
      db.tables.transactions

-- `hasLivePlansForAccount`.
unfoldable pub has_live_plans_for_account : Db → String → Bool
has_live_plans_for_account db i =
    any (λ p. str_eq p.columns.account_id i && not (is_deleted p)) db.tables.planned_payments

unfoldable pub live_adjustments : Db → String → List (Row transaction)
live_adjustments db i =
    select
      (λ t.
        is_id i t.columns.account_id && (str_eq t.columns.type "adjustment" && not (is_deleted t)))
      db.tables.transactions

-- `absorbAdjustment`.
unfoldable pub absorb_adjustment : Host → Row transaction → Db → Db
absorb_adjustment h adj db =
    if is_unborn transaction adj.id adj.server_version db
    then wipe_row transaction adj.id db
    else remove_operations_for transaction adj.id (tombstone_row h transaction adj.id adj db)

unfoldable pub absorb_adjustments : Host → List (Row transaction) → Db → Db
absorb_adjustments h [] db = db
absorb_adjustments h (adj ∷ adjs) db = absorb_adjustments h adjs (absorb_adjustment h adj db)

-- `remove`.
unfoldable pub remove : Host → String → Db → Outcome Unit
unfolding absorb_adjustments
remove h i db = elim (if_live (read_entity_row db account i)) [
  | none ↦ rejected not_found_error
  | some row ↦
      if has_transactions_for_account db i
      then rejected referential_integrity_error
      else if has_live_plans_for_account db i
      then rejected referential_integrity_error
      else done tt (
          absorb_adjustments h (live_adjustments db i)
            (delete_with_tombstone h account i row null db))
]
