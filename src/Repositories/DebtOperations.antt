-- ===== src/Repositories/DebtOperations.antt =====
-- packages/local-data/src/repositories/debt.ts: the repository of debt operations.
pub mod Answers
use package.text.Mathlib.Text.{is_lt}
use Prim.Native.String.{compare as compare_text}
use trata.Prelude.{
  ℕ, ◌+◌, String, Bool, true, false, not, ◌&&◌, ◌||◌, Option, none, some, List, map, select, first,
  order_by, or_else, is_some, str_eq, if◌then◌else◌,
}
use trata.Prelude.Int.{ℤ, pos}
use trata.Json.{Json, null, text, num, object, field, none_left, has}
use trata.Schema.{debt_operation, Row}
use trata.Db.{Db, Host, read_entity_row, is_deleted}
use trata.Catalog.{direction_values, debt_kind_values, text_or_null}
use trata.Meta.{get_owner_user_id}
use trata.Repositories.Values.{
  invalid_payload_error, already_exists_error, not_found_error, version_conflict_error,
  unknown_references_error, Outcome, rejected, done, if_live, is_empty, positive_amount,
  optional_amount, find_live,
}
use trata.Repositories.Actions.{after_id, is_version, insert_row, change_row, delete_with_tombstone}

-- `toDebtOperation`, as the payload of an operation.
abbrev pub to_debt_operation : Row debt_operation → Json
to_debt_operation r = object (
    field "id" (text r.id) (
      field "debtorId" (text r.columns.debtor_id) (
        field "direction" (text r.columns.direction) (
          field "kind" (text r.columns.kind) (
            field "amount" (num r.columns.amount) (
              field "occurredAt" (text r.columns.occurred_at) (
                field "version" (num (pos r.version))
                  (field "authorId" (text_or_null r.user_id) none_left))))))))

pub record CreateDebtOperationPayload : Type 0 where
  pub id : Option String
  pub debtor_id : String
  pub direction : String
  pub kind : String
  pub amount : Json
  pub occurred_at : String

-- `validateOperationShape`; the amount of a payload that passes.
unfoldable pub validate_operation_shape : CreateDebtOperationPayload → Option ℤ
validate_operation_shape p =
    if is_empty p.debtor_id
    then none
    else if not (has direction_values p.direction)
    then none
    else if not (has debt_kind_values p.kind)
    then none
    else elim (positive_amount p.amount) [
      | none ↦ none
      | some n ↦ if is_empty p.occurred_at then none else some n
    ]

-- `liveDebtorExists`.
unfoldable pub live_debtor_exists : Db → String → Bool
live_debtor_exists db i = is_some (find_live i db.tables.debtors)

abbrev pub new_debt_operation : String → CreateDebtOperationPayload → ℤ → Db → Row debt_operation
new_debt_operation i p n db = record {
  id = i;
  columns = record {
    debtor_id = p.debtor_id;
    direction = p.direction;
    kind = p.kind;
    amount = n;
    occurred_at = p.occurred_at;
  };
  version = 1;
  server_version = 0;
  deleted_at = none;
  created_at = none;
  updated_at = none;
  user_id = get_owner_user_id db;
}

-- The transaction of `create`.
unfoldable pub create_operation_row :
    Host → String → CreateDebtOperationPayload → ℤ → Db → Outcome (Row debt_operation)
create_operation_row h i p n db =
    if not (live_debtor_exists db p.debtor_id)
    then rejected unknown_references_error
    else elim (read_entity_row db debt_operation i) [
      | some _ ↦ rejected already_exists_error
      | none ↦
          let row = new_debt_operation i p n db in
          done row (insert_row h debt_operation row (to_debt_operation row) db)
    ]

-- `create`.
unfoldable pub create_debt_operation :
    Host → CreateDebtOperationPayload → Db → Outcome (Row debt_operation)
unfolding create_operation_row
create_debt_operation h p db = elim (validate_operation_shape p) [
  | none ↦ rejected invalid_payload_error
  | some n ↦ create_operation_row h (or_else p.id (h.generate_id db.calls)) p n (after_id p.id db)
]

pub record UpdateDebtOperationPayload : Type 0 where
  pub amount : Option Json
  pub occurred_at : Option String
  pub version : Option ℕ

abbrev pub changed_operation : Option ℤ → Option String → Row debt_operation → Row debt_operation
changed_operation n at row = record row {
  columns = record row.columns {
    amount = or_else n row.columns.amount;
    occurred_at = or_else at row.columns.occurred_at;
  };
  version = row.version + 1;
}

-- The transaction of `update`.
unfoldable pub update_operation_row :
    Host → String → Option ℤ → UpdateDebtOperationPayload → Db → Outcome (Row debt_operation)
update_operation_row h i n p db = elim (if_live (read_entity_row db debt_operation i)) [
  | none ↦ rejected not_found_error
  | some row ↦
      if not (is_version row.version p.version)
      then rejected version_conflict_error
      else let next = changed_operation n p.occurred_at row in
        done next (change_row h debt_operation i next (to_debt_operation next) db)
]

-- `update`.
unfoldable pub update_debt_operation :
    Host → String → UpdateDebtOperationPayload → Db → Outcome (Row debt_operation)
unfolding update_operation_row
update_debt_operation h i p db =
    if not (is_some p.amount || is_some p.occurred_at)
    then rejected invalid_payload_error
    else elim (optional_amount p.amount) [
      | none ↦ rejected invalid_payload_error
      | some n ↦ update_operation_row h i n p db
    ]

-- `remove`.
unfoldable pub remove_debt_operation : Host → String → Db → Outcome Unit
remove_debt_operation h i db = elim (if_live (read_entity_row db debt_operation i)) [
  | none ↦ rejected not_found_error
  | some row ↦ done tt (delete_with_tombstone h debt_operation i row null db)
]

-- `orderBy(asc(occurredAt), asc(id))`.
abbrev earlier_first : Row debt_operation → Row debt_operation → Bool
earlier_first a b =
    is_lt (compare_text a.columns.occurred_at b.columns.occurred_at)
    || (str_eq a.columns.occurred_at b.columns.occurred_at && is_lt (compare_text a.id b.id))

-- `getAll`.
unfoldable pub get_debt_operations : Db → List Json
get_debt_operations db =
    map to_debt_operation
      (order_by earlier_first (select (λ r. not (is_deleted r)) db.tables.debt_operations))

-- `query`.
unfoldable pub query_debt_operations : Option String → Db → List Json
unfolding get_debt_operations
query_debt_operations none db = get_debt_operations db
query_debt_operations (some i) db =
    if is_empty i
    then get_debt_operations db
    else map to_debt_operation (
        order_by earlier_first (
          select (λ r. str_eq r.columns.debtor_id i && not (is_deleted r))
            db.tables.debt_operations))

-- `getById`.
unfoldable pub get_debt_operation_by_id : String → Db → Option Json
get_debt_operation_by_id i db = elim (if_live (read_entity_row db debt_operation i)) [
  | none ↦ none
  | some r ↦ some (to_debt_operation r)
]
