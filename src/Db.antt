-- ===== src/Db.antt =====
-- The local database as one value, with the statements that the modules of packages/local-data run
-- on it: the entity table is chosen by the kind, as the `switch (entity)` of the source does.
pub mod Laws
use trata.Prelude.{
  ℕ, ◌≡◌, String, Bool, true, false, Option, none, some, List, [], ◌∷◌, ◌++◌, update, first, delete,
  str_eq,
}
use trata.Schema.{
  SyncEntity, account, category, transaction, debtor, debt_operation, planned_payment, Row, Tables,
  SyncOutboxRow, SyncConflictRow, MetaValue, Timestamp,
}

-- `calls` counts the calls of the host: each new id and each reading of the clock is one.
pub record Db : Type 0 where
  pub tables : Tables
  pub outbox : List SyncOutboxRow
  pub conflicts : List SyncConflictRow
  pub meta : List (String × MetaValue)
  pub calls : ℕ

-- What the platform gives: the id factory (`crypto.randomUUID`, or the one of `configureIdFactory`)
-- and the clock, each by the number of the call, the text that `toISOString` gives for an instant,
-- and the text that it gives for the instant that `Date` reads in a text, if it reads one.
pub record Host : Type 0 where
  pub generate_id : ℕ → String
  pub clock : ℕ → Timestamp
  pub iso : Timestamp → String
  pub canonical : String → Option String

abbrev pub get_table : (e : SyncEntity) → Tables → List (Row e)
get_table account t = t.accounts
get_table category t = t.categories
get_table transaction t = t.transactions
get_table debtor t = t.debtors
get_table debt_operation t = t.debt_operations
get_table planned_payment t = t.planned_payments

abbrev pub set_table : (e : SyncEntity) → List (Row e) → Tables → Tables
set_table account rows t = record t { accounts = rows }
set_table category rows t = record t { categories = rows }
set_table transaction rows t = record t { transactions = rows }
set_table debtor rows t = record t { debtors = rows }
set_table debt_operation rows t = record t { debt_operations = rows }
set_table planned_payment rows t = record t { planned_payments = rows }

-- `eq(table.id, id)`.
abbrev pub has_id : {e : SyncEntity} → String → Row e → Bool
has_id i r = str_eq r.id i

-- `readEntityRow`: tombstones included.
unfoldable pub read_entity_row : Db → (e : SyncEntity) → String → Option (Row e)
read_entity_row db e i = first (has_id i) (get_table e db.tables)

-- `updateEntityRow` and `updateEntityRevisions`: a patch is a function on the row.
unfoldable pub update_entity_row : (e : SyncEntity) → String → (Row e → Row e) → Db → Db
update_entity_row e i patch db = record db {
  tables = set_table e (update (has_id i) patch (get_table e db.tables)) db.tables;
}

unfoldable pub insert_entity_row : (e : SyncEntity) → Row e → Db → Db
insert_entity_row e r db = record db {
  tables = set_table e (get_table e db.tables ++ r ∷ []) db.tables;
}

unfoldable pub delete_entity_row : (e : SyncEntity) → String → Db → Db
delete_entity_row e i db = record db {
  tables = set_table e (delete (has_id i) (get_table e db.tables)) db.tables;
}

-- `isRowDeleted`.
abbrev pub is_deleted : {e : SyncEntity} → Row e → Bool
is_deleted r = elim r.deleted_at [ none ↦ false | some _ ↦ true ]

-- CLEAN: version = serverVersion; anything else is DIRTY.
abbrev pub IsClean : {e : SyncEntity} → Row e → Type 0
IsClean r = r.version ≡ r.server_version
