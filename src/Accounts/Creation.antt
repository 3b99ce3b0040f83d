-- ===== src/Accounts/Creation.antt =====
-- packages/local-data/src/repositories/account.ts, `create`.
use trata.Prelude.{String, not, Option, none, some, or_else, str_eq, if◌then◌else◌}
use trata.Prelude.Int.{ℤ, pos}
use trata.Json.{Json, text, num, object, field, none_left, as_int, has}
use trata.Schema.{account, Row}
use trata.Db.{Db, Host, read_entity_row}
use trata.Catalog.{currency_values}
use trata.Meta.{get_owner_user_id}
use trata.Repositories.Values.{
  invalid_payload_error, already_exists_error, Outcome, rejected, done, trim,
}
use trata.Repositories.Actions.{after_id, counted, insert_row}
use trata.Accounts.Balance.{AccountWithBalance}

-- `toAccount`, as the payload of an operation.
abbrev pub to_account : Row account → Json
to_account r = object (
    field "id" (text r.id) (
      field "name" (text r.columns.name) (
        field "currency" (text r.columns.currency) (
          field "openingBalance" (num r.columns.opening_balance)
            (field "version" (num (pos r.version)) none_left)))))

pub record CreateAccountPayload : Type 0 where
  pub id : Option String
  pub name : Option String
  pub currency : String
  pub opening_balance : Json

abbrev pub new_account : Host → String → String → String → ℤ → Db → Row account
new_account h i name currency n db = record {
  id = i;
  columns = record { name = name; currency = currency; opening_balance = n };
  version = 1;
  server_version = 0;
  deleted_at = none;
  created_at = some (h.clock db.calls);
  updated_at = none;
  user_id = get_owner_user_id db;
}

unfoldable pub create_with : Host → String → String → String → ℤ → Db → Outcome AccountWithBalance
create_with h i name currency n db = elim (read_entity_row db account i) [
  | some _ ↦ rejected already_exists_error
  | none ↦
      let row = new_account h i name currency n db in
      done (record { row = row; balance = n })
        (insert_row h account row (to_account row) (counted db))
]

-- `create`.
unfoldable pub create : Host → CreateAccountPayload → Db → Outcome AccountWithBalance
unfolding create_with
create h p db =
    let name = trim (or_else p.name "") in
    if str_eq name ""
    then rejected invalid_payload_error
    else if not (has currency_values p.currency)
    then rejected invalid_payload_error
    else elim (as_int (some p.opening_balance)) [
      | none ↦ rejected invalid_payload_error
      | some n ↦
          create_with h (or_else p.id (h.generate_id db.calls)) name p.currency n (after_id p.id db)
    ]
