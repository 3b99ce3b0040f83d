-- ===== src/Schema.antt =====
-- packages/local-data/src/schema.ts: the syncable entity kinds, their rows, the outbox, the
-- conflict records and the key/value metadata. A row has the sync columns that every entity table
-- shares, and the columns of its own kind. Timestamps are milliseconds: the canonical ISO-8601
-- texts of the source sort as the instants do.
use trata.Prelude.{ℕ, String, Bool, ◌&&◌, Option, List, ◌==◌, str_eq}
use trata.Prelude.Int.{ℤ}
use trata.Json.{Json, Fields, JsonText}

pub data SyncEntity : Type 0 where
  account category transaction debtor debt_operation planned_payment : SyncEntity

pub data SyncOperationKind : Type 0 where
  upsert delete_op : SyncOperationKind

abbrev pub Timestamp : Type 0
Timestamp = ℕ

abbrev pub entity_code : SyncEntity → ℕ
entity_code account = 0
entity_code category = 1
entity_code transaction = 2
entity_code debtor = 3
entity_code debt_operation = 4
entity_code planned_payment = 5

-- `eq(t.entity, entity)`.
abbrev pub same_entity : SyncEntity → SyncEntity → Bool
same_entity a b = entity_code a == entity_code b

pub record AccountColumns : Type 0 where
  pub name : String
  pub currency : String
  pub opening_balance : ℤ

pub record CategoryColumns : Type 0 where
  pub name : String
  pub type : String
  pub icon : String
  pub color : String
  pub archived_at : Option String
  pub slug : Option String

pub record TransactionColumns : Type 0 where
  pub type : String
  pub amount : ℤ
  pub description : String
  pub occurred_at : String
  pub account_id : Option String
  pub category_id : Option String
  pub from_account_id : Option String
  pub to_account_id : Option String
  pub destination_amount : Option ℤ

pub record DebtorColumns : Type 0 where
  pub name : String
  pub currency : String

pub record DebtOperationColumns : Type 0 where
  pub debtor_id : String
  pub direction : String
  pub kind : String
  pub amount : ℤ
  pub occurred_at : String

pub record PlannedPaymentColumns : Type 0 where
  pub type : String
  pub amount : ℤ
  pub name : String
  pub account_id : String
  pub category_id : String
  pub next_due : String
  pub anchor_date : String
  pub regularity : String
  pub confirm_mode : String
  pub reminder : String
  pub note : String

-- The columns of one kind of entity, without the sync columns.
abbrev pub Columns : SyncEntity → Type 0
Columns account = AccountColumns
Columns category = CategoryColumns
Columns transaction = TransactionColumns
Columns debtor = DebtorColumns
Columns debt_operation = DebtOperationColumns
Columns planned_payment = PlannedPaymentColumns

-- `created_at` is absent from transactions and debt operations, and `updated_at` stands on
-- transactions alone: `none` where the table has no such column.
pub record Row (e : SyncEntity) : Type 0 where
  pub id : String
  pub columns : Columns e
  pub version : ℕ
  pub server_version : ℕ
  pub deleted_at : Option Timestamp
  pub created_at : Option Timestamp
  pub updated_at : Option Timestamp
  pub user_id : Option String

-- `syncOutbox`.
pub record SyncOutboxRow : Type 0 where
  pub op_id : String
  pub entity : SyncEntity
  pub entity_id : String
  pub op : SyncOperationKind
  pub payload : JsonText Json
  pub base_version : ℕ
  pub created_at : Timestamp
  pub sent_at : Option Timestamp
  pub attempts : ℕ
  pub last_error : Option String

-- `ConflictServerState`, which is also the wire `SyncServerState`.
pub record ServerState : Type 0 where
  pub version : ℕ
  pub deleted : Bool
  pub body : Option Fields

pub data ConflictKind : Type 0 where
  version_conflict deleted_conflict : ConflictKind

-- `syncConflicts`; the text 'null' in the server state's column is `encoded none`.
pub record SyncConflictRow : Type 0 where
  pub id : String
  pub entity : SyncEntity
  pub entity_id : String
  pub op_id : Option String
  pub kind : ConflictKind
  pub base_version : ℕ
  pub server_version : ℕ
  pub local_state : JsonText Json
  pub server_state : JsonText (Option ServerState)
  pub created_at : Timestamp
  pub resolved_at : Option Timestamp

-- A value of `syncMeta`: a text, the decimal text that `toString` gives for a number, or the text
-- that `toISOString` gives for an instant.
pub data MetaValue : Type 0 where
  words : String → MetaValue
  decimal : ℕ → MetaValue
  instant : Timestamp → MetaValue

-- The six entity tables.
pub record Tables : Type 0 where
  pub accounts : List (Row account)
  pub categories : List (Row category)
  pub transactions : List (Row transaction)
  pub debtors : List (Row debtor)
  pub debt_operations : List (Row debt_operation)
  pub planned_payments : List (Row planned_payment)

-- The tests of the `where` clauses that name a record of the outbox or a conflict's record.
abbrev pub op_of : SyncEntity → String → SyncOutboxRow → Bool
op_of e i o = same_entity o.entity e && str_eq o.entity_id i

abbrev pub conflict_of : SyncEntity → String → SyncConflictRow → Bool
conflict_of e i c = same_entity c.entity e && str_eq c.entity_id i
