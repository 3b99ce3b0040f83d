-- ===== src/Rebase.antt =====
-- packages/local-data/src/sync/rebase.ts: the local bookkeeping starts over for a new household.
pub mod Union
use trata.Prelude.{ℕ, String, Bool, List, [], ◌∷◌, map, delete}
use trata.Schema.{
  SyncEntity, account, category, transaction, debtor, debt_operation, planned_payment, upsert, Row,
  Tables,
}
use trata.Db.{Db, Host, is_deleted}
use trata.Catalog.{row_to_payload}
use trata.Outbox.{EnqueueOperationInput, enqueue_operation, set_server_version}
use trata.Meta.{set_pull_cursor, set_last_household}

-- Tombstones go, and the survivors become base-0 creates.
abbrev pub survivors : {e : SyncEntity} → List (Row e) → List (Row e)
survivors rows = map (set_server_version 0) (delete is_deleted rows)

abbrev pub surviving_tables : Tables → Tables
surviving_tables t = record {
  accounts = survivors t.accounts;
  categories = survivors t.categories;
  transactions = survivors t.transactions;
  debtors = survivors t.debtors;
  debt_operations = survivors t.debt_operations;
  planned_payments = survivors t.planned_payments;
}

abbrev pub create_input : (e : SyncEntity) → Row e → EnqueueOperationInput
create_input e r = record {
  entity = e;
  entity_id = r.id;
  op = upsert;
  payload = row_to_payload e r;
  base_version = 0;
}

-- `regenerateAsCreates`.
unfoldable pub regenerate_as_creates : Host → (e : SyncEntity) → List (Row e) → Db → Db
regenerate_as_creates h e [] db = db
regenerate_as_creates h e (r ∷ rows) db =
    regenerate_as_creates h e rows (enqueue_operation h (create_input e r) db)

-- The six calls, in the order of the source.
unfoldable pub regenerate_all : Host → Tables → Db → Db
unfolding regenerate_as_creates
regenerate_all h t db = regenerate_as_creates h planned_payment t.planned_payments (
    regenerate_as_creates h debt_operation t.debt_operations (
      regenerate_as_creates h debtor t.debtors (
        regenerate_as_creates h transaction t.transactions (
          regenerate_as_creates h category t.categories
            (regenerate_as_creates h account t.accounts db)))))

-- `rebaseLocalDataForHousehold`.
unfoldable pub rebase_local_data_for_household : Host → String → Db → Db
rebase_local_data_for_household h household db =
    let t = surviving_tables db.tables in
    let cleared = record db { tables = t; outbox = []; conflicts = [] } in
    set_last_household household (set_pull_cursor 0 (regenerate_all h t cleared))
