-- ===== src/Repositories/Transactions.antt =====
-- packages/local-data/src/repositories/transaction.ts: the repository of transactions.
pub mod Rules
pub mod Reading
pub mod Pages
pub mod References
pub mod Answers
pub mod Changing
pub mod Changes
use trata.Prelude.{
  ℕ, ◌+◌, ◌⊎◌, inl, inr, String, Bool, true, false, not, ◌&&◌, ◌||◌, Option, none, some, or_else,
  is_some, str_eq, if◌then◌else◌,
}
use trata.Prelude.Int.{ℤ, pos}
use trata.Json.{Json, Fields, null, text, num, object, field, none_left, has, as_string}
use trata.Schema.{transaction, Row}
use trata.Db.{Db, Host, read_entity_row}
use trata.Catalog.{transaction_type_values, text_or_null}
use trata.Meta.{get_owner_user_id}
use trata.Repositories.Values.{
  Rejection, invalid_payload_error, already_exists_error, not_found_error, version_conflict_error,
  Outcome, rejected, done, if_live,
}
use trata.Repositories.Actions.{
  after_id, counted, is_version, insert_row, change_row, delete_with_tombstone,
}
use trata.Repositories.Transactions.Rules.{
  is_falsy, assert_amount, validate_references, resolve_destination_amount,
}

-- A property that is left out of the payload when it is undefined.
abbrev optional_field : String → Option Json → Fields → Fields
optional_field k none rest = rest
optional_field k (some v) rest = field k v rest

abbrev of_text : Option String → Option Json
of_text none = none
of_text (some s) = some (text s)

abbrev of_num : Option ℤ → Option Json
of_num none = none
of_num (some n) = some (num n)

-- The properties of `toTransaction` that its type has.
abbrev typed_fields : Row transaction → Fields
typed_fields r =
    if str_eq r.columns.type "transfer"
    then field "fromAccountId" (text_or_null r.columns.from_account_id) (
        field "toAccountId" (text_or_null r.columns.to_account_id)
          (optional_field "destinationAmount" (of_num r.columns.destination_amount) none_left))
    else if str_eq r.columns.type "adjustment"
    then field "accountId" (text_or_null r.columns.account_id) none_left
    else field "accountId" (text_or_null r.columns.account_id)
        (field "categoryId" (text_or_null r.columns.category_id) none_left)

abbrev iso_of : Host → Option ℕ → Option String
iso_of h none = none
iso_of h (some t) = some (h.iso t)

-- `toTransaction`, as the payload of an operation.
abbrev pub to_transaction : Host → Row transaction → Json
to_transaction h r = object (
    field "id" (text r.id) (
      field "amount" (num r.columns.amount) (
        field "description" (text r.columns.description) (
          field "occurredAt" (text r.columns.occurred_at) (
            optional_field "updatedAt" (of_text (iso_of h r.updated_at)) (
              field "version" (num (pos r.version)) (
                field "authorId" (text_or_null r.user_id)
                  (field "type" (text r.columns.type) (typed_fields r)))))))))

-- A payload of `create`; the outer option of a reference says whether the property is there, and
-- `none` is null.
pub record CreateTransactionPayload : Type 0 where
  pub id : Option String
  pub type : String
  pub amount : Json
  pub description : Option Json
  pub occurred_at : String
  pub account_id : Option String
  pub category_id : Option (Option String)
  pub from_account_id : Option (Option String)
  pub to_account_id : Option (Option String)
  pub destination_amount : Option Json

-- A description that may be left out: `none` is one that is no text.
abbrev pub description_of : Option Json → Option (Option String)
description_of none = some none
description_of (some v) = elim (as_string (some v)) [ none ↦ none | some s ↦ some (some s) ]

-- An adjustment carries only an account reference.
abbrev is_misshapen : CreateTransactionPayload → Bool
is_misshapen p =
    str_eq p.type "adjustment"
    && (is_some p.category_id
        || (is_some p.from_account_id || (is_some p.to_account_id || is_falsy p.account_id)))

-- What `create` stores of a payload that passes its checks.
pub record Checked : Type 0 where
  pub amount : ℤ
  pub description : Option String
  pub occurred_at : String

-- The checks of `create` before its transaction.
unfoldable pub check_transaction : Host → CreateTransactionPayload → Option Checked
check_transaction h p =
    if not (has transaction_type_values p.type)
    then none
    else elim (assert_amount p.type p.amount) [
      | none ↦ none
      | some n ↦ elim (description_of p.description) [
        | none ↦ none
        | some d ↦ elim (h.canonical p.occurred_at) [
          | none ↦ none
          | some at ↦
              if is_misshapen p
              then none
              else some (record { amount = n; description = d; occurred_at = at })
        ]
      ]
    ]

-- The row of `create`, before the destination amount is resolved: the references of its type.
abbrev pub new_transaction :
    Host → String → CreateTransactionPayload → Checked → Db → Row transaction
new_transaction h i p c db =
    let moves = str_eq p.type "transfer" in
    let adjusts = str_eq p.type "adjustment" in
    record {
      id = i;
      columns = record {
        type = p.type;
        amount = c.amount;
        description = or_else c.description "";
        occurred_at = c.occurred_at;
        account_id = if moves then none else p.account_id;
        category_id = if moves || adjusts then none else or_else p.category_id none;
        from_account_id = if moves then or_else p.from_account_id none else none;
        to_account_id = if moves then or_else p.to_account_id none else none;
        destination_amount = none;
      };
      version = 1;
      server_version = 0;
      deleted_at = none;
      created_at = none;
      updated_at = some (h.clock db.calls);
      user_id = get_owner_user_id db;
    }

-- The references of a row, and the destination amount of a transfer: the row to store.
unfoldable pub settle_references :
    Db → Option String → Option Json → Option ℤ → Row transaction → Rejection ⊎ Row transaction
settle_references db previous_category provided previous row =
    elim (validate_references db row.columns.type row.columns.account_id row.columns.category_id
      row.columns.from_account_id row.columns.to_account_id previous_category) [
        | some why ↦ inl why
        | none ↦
            if not (str_eq row.columns.type "transfer")
            then inr row
            else elim (resolve_destination_amount db row.columns.from_account_id
                row.columns.to_account_id provided previous) [
                  | none ↦ inl invalid_payload_error
                  | some n ↦
                      inr (record row { columns = record row.columns { destination_amount = n } })
                ]
      ]

-- The transaction of `create`.
unfoldable pub create_transaction_row :
    Host → String → CreateTransactionPayload → Checked → Db → Outcome (Row transaction)
unfolding settle_references
create_transaction_row h i p c db = elim (read_entity_row db transaction i) [
  | some _ ↦ rejected already_exists_error
  | none ↦ elim (settle_references db none p.destination_amount none (new_transaction h i p c db)) [
    | inl why ↦ rejected why
    | inr row ↦ done row (insert_row h transaction row (to_transaction h row) (counted db))
  ]
]

-- `create`.
unfoldable pub create_transaction : Host → CreateTransactionPayload → Db → Outcome (Row transaction)
unfolding create_transaction_row check_transaction
create_transaction h p db = elim (check_transaction h p) [
  | none ↦ rejected invalid_payload_error
  | some c ↦ create_transaction_row h (or_else p.id (h.generate_id db.calls)) p c (after_id p.id db)
]
