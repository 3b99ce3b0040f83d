-- ===== src/Repositories/Debtors.antt =====
-- packages/local-data/src/repositories/debt.ts: the repository of debtors.
pub mod Answers
pub mod Cascading
use trata.Prelude.{
  ℕ, ◌+◌, String, Bool, not, Option, none, some, List, [], ◌∷◌, ◌&&◌, map, select, order_by,
  or_else, str_eq, if◌then◌else◌,
}
use trata.Prelude.Int.{pos}
use trata.Json.{Json, null, text, num, object, field, none_left, has}
use trata.Schema.{debtor, debt_operation, Row}
use trata.Db.{Db, Host, read_entity_row, is_deleted}
use trata.Catalog.{currency_values}
use trata.Meta.{get_owner_user_id}
use trata.Repositories.Values.{
  invalid_payload_error, already_exists_error, not_found_error, version_conflict_error, Outcome,
  rejected, done, trim, if_live, has_duplicate, older_first, is_empty,
}
use trata.Repositories.Actions.{
  after_id, counted, is_version, insert_row, change_row, delete_with_tombstone,
}

-- `toDebtor`, as the payload of an operation.
abbrev pub to_debtor : Row debtor → Json
to_debtor r = object (
    field "id" (text r.id) (
      field "name" (text r.columns.name) (
        field "currency" (text r.columns.currency)
          (field "version" (num (pos r.version)) none_left))))

-- `hasDuplicateDebtorName`.
unfoldable pub has_duplicate_debtor_name : Db → String → Option String → Bool
has_duplicate_debtor_name db = has_duplicate (λ (d : Row debtor). d.columns.name) db.tables.debtors

pub record CreateDebtorPayload : Type 0 where
  pub id : Option String
  pub name : Option String
  pub currency : Option String

-- `DEFAULT_CURRENCY`.
abbrev pub default_currency : String
default_currency = "RUB"

abbrev pub new_debtor : Host → String → String → String → Db → Row debtor
new_debtor h i name currency db = record {
  id = i;
  columns = record { name = name; currency = currency };
  version = 1;
  server_version = 0;
  deleted_at = none;
  created_at = some (h.clock db.calls);
  updated_at = none;
  user_id = get_owner_user_id db;
}

-- The transaction of `create`.
unfoldable pub create_debtor_row : Host → String → String → String → Db → Outcome (Row debtor)
create_debtor_row h i name currency db =
    if has_duplicate_debtor_name db name none
    then rejected already_exists_error
    else elim (read_entity_row db debtor i) [
      | some _ ↦ rejected already_exists_error
      | none ↦
          let row = new_debtor h i name currency db in
          done row (insert_row h debtor row (to_debtor row) (counted db))
    ]

-- `create`.
unfoldable pub create_debtor : Host → CreateDebtorPayload → Db → Outcome (Row debtor)
unfolding create_debtor_row
create_debtor h p db =
    let name = trim (or_else p.name "") in
    let currency = or_else p.currency default_currency in
    if is_empty name
    then rejected invalid_payload_error
    else if not (has currency_values currency)
    then rejected invalid_payload_error
    else create_debtor_row h (or_else p.id (h.generate_id db.calls)) name currency
        (after_id p.id db)

pub record UpdateDebtorPayload : Type 0 where
  pub name : Option String
  pub version : Option ℕ

abbrev pub renamed_debtor : String → Row debtor → Row debtor
renamed_debtor name row = record row {
  columns = record row.columns { name = name };
  version = row.version + 1;
}

-- The transaction of `update`.
unfoldable pub update_debtor_row : Host → String → String → Option ℕ → Db → Outcome (Row debtor)
update_debtor_row h i name version db = elim (if_live (read_entity_row db debtor i)) [
  | none ↦ rejected not_found_error
  | some row ↦
      if not (is_version row.version version)
      then rejected version_conflict_error
      else if str_eq name row.columns.name
      then rejected invalid_payload_error
      else if has_duplicate_debtor_name db name (some i)
      then rejected already_exists_error
      else let next = renamed_debtor name row in
        done next (change_row h debtor i next (to_debtor next) db)
]

-- `update`.
unfoldable pub update_debtor : Host → String → UpdateDebtorPayload → Db → Outcome (Row debtor)
unfolding update_debtor_row
update_debtor h i p db = elim p.name [
  | none ↦ rejected invalid_payload_error
  | some name ↦
      if is_empty (trim name)
      then rejected invalid_payload_error
      else update_debtor_row h i (trim name) p.version db
]

unfoldable pub live_operations : Db → String → List (Row debt_operation)
live_operations db i =
    select (λ o. str_eq o.columns.debtor_id i && not (is_deleted o)) db.tables.debt_operations

unfoldable pub delete_operations : Host → List (Row debt_operation) → Db → Db
delete_operations h [] db = db
delete_operations h (o ∷ os) db =
    delete_operations h os (delete_with_tombstone h debt_operation o.id o null db)

-- `cascadeDeleteDebtor`, and `remove`.
unfoldable pub cascade_delete_debtor : Host → String → Db → Outcome Unit
unfolding delete_operations
cascade_delete_debtor h i db = elim (if_live (read_entity_row db debtor i)) [
  | none ↦ rejected not_found_error
  | some row ↦
      done tt
        (delete_with_tombstone h debtor i row null (delete_operations h (live_operations db i) db))
]

-- `getAll`.
unfoldable pub get_debtors : Db → List Json
get_debtors db =
    map to_debtor (order_by older_first (select (λ r. not (is_deleted r)) db.tables.debtors))

-- `getById`.
unfoldable pub get_debtor_by_id : String → Db → Option Json
get_debtor_by_id i db = elim (if_live (read_entity_row db debtor i)) [
  | none ↦ none
  | some r ↦ some (to_debtor r)
]
