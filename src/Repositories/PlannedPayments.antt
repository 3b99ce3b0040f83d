-- ===== src/Repositories/PlannedPayments.antt =====
-- packages/local-data/src/repositories/planned-payment.ts: the repository of planned payments.
pub mod Confirming
pub mod Answers
pub mod Confirmation
use trata.Prelude.{
  ℕ, ◌+◌, String, Bool, true, false, not, ◌&&◌, ◌||◌, Option, none, some, List, map, select,
  order_by, or_else, is_some, str_eq, if◌then◌else◌,
}
use trata.Prelude.Int.{ℤ, pos}
use trata.Json.{Json, null, text, num, object, field, none_left, has, is_calendar_day}
use trata.Schema.{planned_payment, Row}
use trata.Db.{Db, Host, read_entity_row, is_deleted}
use trata.Catalog.{
  planned_type_values, regularity_values, confirm_mode_values, reminder_values, text_or_null,
}
use trata.Meta.{get_owner_user_id}
use trata.Repositories.Values.{
  invalid_payload_error, already_exists_error, not_found_error, version_conflict_error,
  unknown_references_error, Outcome, rejected, done, if_live, is_empty, older_first,
  positive_amount, optional_amount, find_live,
}
use trata.Repositories.Actions.{
  after_id, counted, is_version, insert_row, change_row, delete_with_tombstone,
}

-- `toPlannedPayment`, as the payload of an operation.
abbrev pub to_planned_payment : Row planned_payment → Json
to_planned_payment r = object (
    field "id" (text r.id) (
      field "type" (text r.columns.type) (
        field "amount" (num r.columns.amount) (
          field "name" (text r.columns.name) (
            field "accountId" (text r.columns.account_id) (
              field "categoryId" (text r.columns.category_id) (
                field "nextDue" (text r.columns.next_due) (
                  field "anchorDate" (text r.columns.anchor_date) (
                    field "regularity" (text r.columns.regularity) (
                      field "confirmMode" (text r.columns.confirm_mode) (
                        field "reminder" (text r.columns.reminder) (
                          field "note" (text r.columns.note) (
                            field "version" (num (pos r.version))
                              (field "authorId" (text_or_null r.user_id) none_left))))))))))))))

-- `isCalendarDay`: the pattern, and a text that `Date.parse` reads.
unfoldable pub is_calendar_day_text : Host → String → Bool
is_calendar_day_text h s = is_calendar_day s && is_some (h.canonical s)

-- `validateReferences`: a live account, and a live category of the plan's type.
unfoldable pub has_references : Db → String → String → String → Bool
has_references db type account_id category_id =
    is_some (find_live account_id db.tables.accounts)
    && (elim (find_live category_id db.tables.categories) [
      | none ↦ false
      | some c ↦ str_eq c.columns.type type
    ])

pub record CreatePlannedPaymentPayload : Type 0 where
  pub id : Option String
  pub type : String
  pub amount : Json
  pub name : Option String
  pub account_id : String
  pub category_id : String
  pub next_due : String
  pub regularity : String
  pub confirm_mode : String
  pub reminder : String
  pub note : Option String

abbrev pub new_plan : Host → String → CreatePlannedPaymentPayload → ℤ → Db → Row planned_payment
new_plan h i p n db = record {
  id = i;
  columns = record {
    type = p.type;
    amount = n;
    name = or_else p.name "";
    account_id = p.account_id;
    category_id = p.category_id;
    next_due = p.next_due;
    anchor_date = p.next_due;
    regularity = p.regularity;
    confirm_mode = p.confirm_mode;
    reminder = p.reminder;
    note = or_else p.note "";
  };
  version = 1;
  server_version = 0;
  deleted_at = none;
  created_at = some (h.clock db.calls);
  updated_at = none;
  user_id = get_owner_user_id db;
}

-- The checks of `create` before its transaction; the amount of a payload that passes.
unfoldable pub validate_plan : Host → CreatePlannedPaymentPayload → Option ℤ
unfolding is_calendar_day_text
validate_plan h p =
    if not (has planned_type_values p.type)
    then none
    else if not (has regularity_values p.regularity)
    then none
    else if not (has confirm_mode_values p.confirm_mode)
    then none
    else if not (has reminder_values p.reminder)
    then none
    else elim (positive_amount p.amount) [
      | none ↦ none
      | some n ↦
          if is_empty p.next_due || not (is_calendar_day_text h p.next_due) then none else some n
    ]

-- The transaction of `create`.
unfoldable pub create_plan_row :
    Host → String → CreatePlannedPaymentPayload → ℤ → Db → Outcome (Row planned_payment)
create_plan_row h i p n db =
    if not (has_references db p.type p.account_id p.category_id)
    then rejected unknown_references_error
    else elim (read_entity_row db planned_payment i) [
      | some _ ↦ rejected already_exists_error
      | none ↦
          let row = new_plan h i p n db in
          done row (insert_row h planned_payment row (to_planned_payment row) (counted db))
    ]

-- `create`.
unfoldable pub create_plan : Host → CreatePlannedPaymentPayload → Db → Outcome (Row planned_payment)
unfolding create_plan_row
create_plan h p db = elim (validate_plan h p) [
  | none ↦ rejected invalid_payload_error
  | some n ↦ create_plan_row h (or_else p.id (h.generate_id db.calls)) p n (after_id p.id db)
]

pub record UpdatePlannedPaymentPayload : Type 0 where
  pub amount : Option Json
  pub name : Option String
  pub note : Option String
  pub account_id : Option String
  pub category_id : Option String
  pub next_due : Option String
  pub regularity : Option String
  pub confirm_mode : Option String
  pub reminder : Option String
  pub version : Option ℕ

abbrev passes : (String → Bool) → Option String → Bool
passes test none = true
passes test (some s) = test s

-- `hasFields`.
abbrev has_plan_fields : UpdatePlannedPaymentPayload → Bool
has_plan_fields p =
    is_some p.amount
    || (is_some p.name
        || (is_some p.note
            || (is_some p.account_id
                || (is_some p.category_id
                    || (is_some p.next_due
                        || (is_some p.regularity
                            || (is_some p.confirm_mode || is_some p.reminder)))))))

-- The checks of `update` before its transaction; the amount, if one is given.
unfoldable pub validate_plan_update : Host → UpdatePlannedPaymentPayload → Option (Option ℤ)
unfolding is_calendar_day_text
validate_plan_update h p =
    if not (has_plan_fields p) then none else elim (optional_amount p.amount) [
      | none ↦ none
      | some n ↦
          if not (passes (has regularity_values) p.regularity)
          then none
          else if not (passes (has confirm_mode_values) p.confirm_mode)
          then none
          else if not (passes (has reminder_values) p.reminder)
          then none
          else if not (passes (is_calendar_day_text h) p.next_due)
          then none
          else some n
    ]

abbrev pub changed_plan :
    Option ℤ → UpdatePlannedPaymentPayload → Row planned_payment → Row planned_payment
changed_plan n p row = record row {
  columns = record row.columns {
    amount = or_else n row.columns.amount;
    name = or_else p.name row.columns.name;
    note = or_else p.note row.columns.note;
    account_id = or_else p.account_id row.columns.account_id;
    category_id = or_else p.category_id row.columns.category_id;
    next_due = or_else p.next_due row.columns.next_due;
    anchor_date = or_else p.next_due row.columns.anchor_date;
    regularity = or_else p.regularity row.columns.regularity;
    confirm_mode = or_else p.confirm_mode row.columns.confirm_mode;
    reminder = or_else p.reminder row.columns.reminder;
  };
  version = row.version + 1;
}

-- The references are looked at when one of them is given.
abbrev pub keeps_references : UpdatePlannedPaymentPayload → Row planned_payment → Db → Bool
keeps_references p row db =
    not (is_some p.account_id || is_some p.category_id)
    || has_references db row.columns.type (or_else p.account_id row.columns.account_id)
        (or_else p.category_id row.columns.category_id)

-- The transaction of `update`.
unfoldable pub update_plan_row :
    Host → String → Option ℤ → UpdatePlannedPaymentPayload → Db → Outcome (Row planned_payment)
update_plan_row h i n p db = elim (if_live (read_entity_row db planned_payment i)) [
  | none ↦ rejected not_found_error
  | some row ↦
      let next = changed_plan n p row in
      if not (is_version row.version p.version)
      then rejected version_conflict_error
      else if not (keeps_references p row db)
      then rejected unknown_references_error
      else done next (change_row h planned_payment i next (to_planned_payment next) db)
]

-- `update`.
unfoldable pub update_plan :
    Host → String → UpdatePlannedPaymentPayload → Db → Outcome (Row planned_payment)
unfolding update_plan_row
update_plan h i p db = elim (validate_plan_update h p) [
  | none ↦ rejected invalid_payload_error
  | some n ↦ update_plan_row h i n p db
]

-- `remove`.
unfoldable pub remove_plan : Host → String → Db → Outcome Unit
remove_plan h i db = elim (if_live (read_entity_row db planned_payment i)) [
  | none ↦ rejected not_found_error
  | some row ↦ done tt (delete_with_tombstone h planned_payment i row null db)
]

-- `getAll`.
unfoldable pub get_plans : Db → List Json
get_plans db =
    map to_planned_payment
      (order_by older_first (select (λ r. not (is_deleted r)) db.tables.planned_payments))

-- `query`.
unfoldable pub query_plans : Option String → Db → List Json
unfolding get_plans
query_plans none db = get_plans db
query_plans (some type) db =
    if is_empty type
    then get_plans db
    else map to_planned_payment (
        order_by older_first (
          select (λ r. str_eq r.columns.type type && not (is_deleted r))
            db.tables.planned_payments))

-- `getById`.
unfoldable pub get_plan_by_id : String → Db → Option Json
get_plan_by_id i db = elim (if_live (read_entity_row db planned_payment i)) [
  | none ↦ none
  | some r ↦ some (to_planned_payment r)
]
