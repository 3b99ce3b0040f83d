-- ===== src/Tests/Shop.antt =====
-- A small database with a record of each kind, at which the theorems on the repositories are applied.
use trata.Prelude.{String, none, some, [], ◌∷◌, first, arith}
use trata.Prelude.Int.{pos}
use trata.Schema.{
  account, category, transaction, debtor, debt_operation, planned_payment, SyncEntity, Row, Columns,
}
use trata.Db.{Db, read_entity_row}
use trata.Frame.Settled.{IsSettled, SettledAt}
use trata.Tests.{cash, dirty_db}

-- A confirmed row.
abbrev clean_row : (e : SyncEntity) → String → Columns e → Row e
clean_row e i columns = record {
  id = i;
  columns = columns;
  version = 1;
  server_version = 1;
  deleted_at = none;
  created_at = some 1;
  updated_at = none;
  user_id = none;
}

abbrev pub food : Row category
food = clean_row category "food" (record {
  name = "Food";
  type = "expense";
  icon = "bowl";
  color = "green";
  archived_at = none;
  slug = none;
})

abbrev pub rent : Row planned_payment
rent = clean_row planned_payment "rent" (record {
  type = "expense";
  amount = pos 300;
  name = "Rent";
  account_id = "cash";
  category_id = "food";
  next_due = "2026-02-28";
  anchor_date = "2026-01-31";
  regularity = "monthly";
  confirm_mode = "manual";
  reminder = "off";
  note = "";
})

abbrev pub lunch : Row transaction
lunch = clean_row transaction "lunch" (record {
  type = "expense";
  amount = pos 12;
  description = "Lunch";
  occurred_at = "2026-01-05T10:00:00.000Z";
  account_id = some "cash";
  category_id = some "food";
  from_account_id = none;
  to_account_id = none;
  destination_amount = none;
})

abbrev pub bob : Row debtor
bob = clean_row debtor "bob" (record { name = "Bob"; currency = "EUR" })

abbrev pub loan : Row debt_operation
loan = clean_row debt_operation "loan" (record {
  debtor_id = "bob";
  direction = "receivable";
  kind = "debt";
  amount = pos 40;
  occurred_at = "2026-01-02T00:00:00.000Z";
})

abbrev pub shop_db : Db
shop_db = record dirty_db {
  tables = record {
    accounts = cash 2 1 ∷ [];
    categories = food ∷ [];
    transactions = lunch ∷ [];
    debtors = bob ∷ [];
    debt_operations = loan ∷ [];
    planned_payments = rent ∷ [];
  };
}

settled_at : (e : SyncEntity) (i : String) → SettledAt shop_db e i
unfolding read_entity_row first
settled_at account i r found waits = ground arith
settled_at category i r found waits = ground arith
settled_at transaction i r found waits = ground arith
settled_at debtor i r found waits = ground arith
settled_at debt_operation i r found waits = ground arith
settled_at planned_payment i r found waits = ground arith

pub shop_db-IsSettled : IsSettled shop_db
shop_db-IsSettled = record { clean = settled_at }
