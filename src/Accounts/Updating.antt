-- ===== src/Accounts/Updating.antt =====
-- packages/local-data/src/repositories/account.ts, `update`.
use trata.Prelude.{ℕ, ◌+◌, String, not, Option, none, some, str_eq, if◌then◌else◌}
use trata.Prelude.Int.{◌+ℤ◌}
use trata.Schema.{account, Row}
use trata.Db.{Db, Host, read_entity_row}
use trata.Repositories.Values.{
  invalid_payload_error, not_found_error, version_conflict_error, Outcome, rejected, done, trim,
  if_live,
}
use trata.Repositories.Actions.{is_version, change_row}
use trata.Accounts.Creation.{to_account}
use trata.Accounts.Balance.{total_for, AccountWithBalance}

pub record UpdateAccountPayload : Type 0 where
  pub name : Option String
  pub version : Option ℕ

abbrev pub renamed : String → Row account → Row account
renamed name row = record row {
  columns = record row.columns { name = name };
  version = row.version + 1;
}

-- The transaction of `update`.
unfoldable pub update_row : Host → String → String → Option ℕ → Db → Outcome AccountWithBalance
update_row h i name version db = elim (if_live (read_entity_row db account i)) [
  | none ↦ rejected not_found_error
  | some row ↦
      if not (is_version row.version version)
      then rejected version_conflict_error
      else let after =
          change_row h account i (renamed name row) (to_account (renamed name row)) db in
        done
          (record {
            row = renamed name row;
            balance = row.columns.opening_balance +ℤ total_for i after.tables.transactions;
          })
          after
]

-- `update`.
unfoldable pub update_account :
    Host → String → UpdateAccountPayload → Db → Outcome AccountWithBalance
unfolding update_row
update_account h i p db = elim p.name [
  | none ↦ rejected invalid_payload_error
  | some name ↦
      if str_eq (trim name) ""
      then rejected invalid_payload_error
      else update_row h i (trim name) p.version db
]
