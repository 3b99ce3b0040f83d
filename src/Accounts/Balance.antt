-- ===== src/Accounts/Balance.antt =====
-- packages/local-data/src/repositories/account.ts, the balances that its SQL aggregates,
-- `getAll` and `getById`.
use trata.Prelude.{
  String, not, Option, none, some, List, [], ◌∷◌, map, select, order_by, or_else, str_eq,
  if◌then◌else◌,
}
use trata.Prelude.Int.{ℤ, pos, ◌+ℤ◌, ◌-ℤ◌}
use trata.Schema.{account, transaction, Row}
use trata.Db.{Db, read_entity_row, is_deleted}
use trata.Repositories.Values.{is_id, if_live, older_first}

abbrev when_id : String → Option String → ℤ → ℤ
when_id i o n = if is_id i o then n else pos 0

-- What the lines of `contributions` sum up for one transaction.
unfoldable pub contribution : String → Row transaction → ℤ
contribution i t =
    if is_deleted t
    then pos 0
    else if str_eq t.columns.type "income"
    then when_id i t.columns.account_id t.columns.amount
    else if str_eq t.columns.type "expense"
    then when_id i t.columns.account_id (pos 0 -ℤ t.columns.amount)
    else if str_eq t.columns.type "transfer"
    then when_id i t.columns.from_account_id (pos 0 -ℤ t.columns.amount)
      +ℤ when_id i t.columns.to_account_id (or_else t.columns.destination_amount t.columns.amount)
    else if str_eq t.columns.type "adjustment"
    then when_id i t.columns.account_id t.columns.amount
    else pos 0

-- `coalesce(c.total, 0)`.
unfoldable pub total_for : String → List (Row transaction) → ℤ
total_for i [] = pos 0
total_for i (t ∷ ts) = contribution i t +ℤ total_for i ts

pub record AccountWithBalance : Type 0 where
  pub row : Row account
  pub balance : ℤ

abbrev pub with_balance : Db → Row account → AccountWithBalance
with_balance db r = record {
  row = r;
  balance = r.columns.opening_balance +ℤ total_for r.id db.tables.transactions;
}

-- `getAll`.
unfoldable pub get_all : Db → List AccountWithBalance
get_all db =
    map (with_balance db)
      (order_by older_first (select (λ r. not (is_deleted r)) db.tables.accounts))

-- `getById`.
unfoldable pub get_by_id : String → Db → Option AccountWithBalance
get_by_id i db = elim (if_live (read_entity_row db account i)) [
  | none ↦ none
  | some r ↦ some (with_balance db r)
]
