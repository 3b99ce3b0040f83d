-- ===== src/Repositories/Transactions/Changing.antt =====
-- packages/local-data/src/repositories/transaction.ts, `update` and `remove`.
use trata.Prelude.{
  ℕ, ◌+◌, inl, inr, String, Bool, not, ◌||◌, Option, none, some, or_else, is_some, str_eq,
  if◌then◌else◌,
}
use trata.Prelude.Int.{ℤ}
use trata.Json.{Json, null}
use trata.Schema.{transaction, Row}
use trata.Db.{Db, Host, read_entity_row}
use trata.Repositories.Values.{
  invalid_payload_error, not_found_error, version_conflict_error, Outcome, rejected, done, if_live,
}
use trata.Repositories.Actions.{counted, is_version, change_row, delete_with_tombstone}
use trata.Repositories.Transactions.{to_transaction, description_of, settle_references}
use trata.Repositories.Transactions.Rules.{assert_amount}

-- `TransactionPatch`; an inner `none` is null.
pub record UpdateTransactionPayload : Type 0 where
  pub amount : Option Json
  pub description : Option Json
  pub occurred_at : Option String
  pub account_id : Option (Option String)
  pub category_id : Option (Option String)
  pub from_account_id : Option (Option String)
  pub to_account_id : Option (Option String)
  pub destination_amount : Option Json
  pub version : Option ℕ

abbrev has_patch_fields : UpdateTransactionPayload → Bool
has_patch_fields p =
    is_some p.amount
    || (is_some p.description
        || (is_some p.occurred_at
            || (is_some p.account_id
                || (is_some p.category_id
                    || (is_some p.from_account_id
                        || (is_some p.to_account_id || is_some p.destination_amount))))))

-- The description and the canonical time of a patch, each if it is given.
pub record Patched : Type 0 where
  pub description : Option String
  pub occurred_at : Option String

abbrev normalized : Host → Option String → Option (Option String)
normalized h none = some none
normalized h (some s) = elim (h.canonical s) [ none ↦ none | some at ↦ some (some at) ]

-- The checks of `update` before its transaction.
unfoldable pub check_patch : Host → UpdateTransactionPayload → Option Patched
check_patch h p = if not (has_patch_fields p) then none else elim (description_of p.description) [
  | none ↦ none
  | some d ↦ elim (normalized h p.occurred_at) [
    | none ↦ none
    | some at ↦ some (record { description = d; occurred_at = at })
  ]
]

-- The sign rule of the record's type, if an amount is given.
abbrev pub patched_amount : String → Option Json → Option (Option ℤ)
patched_amount type none = some none
patched_amount type (some v) = elim (assert_amount type v) [ none ↦ none | some n ↦ some (some n) ]

-- The next row, before its destination amount: a reference that its type has not stays.
abbrev pub changed_transaction :
    Host → UpdateTransactionPayload → Patched → Option ℤ → Row transaction → Db → Row transaction
changed_transaction h p c n row db =
    let moves = str_eq row.columns.type "transfer" in
    let adjusts = str_eq row.columns.type "adjustment" in
    record row {
      columns = record row.columns {
        amount = or_else n row.columns.amount;
        description = or_else c.description row.columns.description;
        occurred_at = or_else c.occurred_at row.columns.occurred_at;
        account_id =
            if moves then row.columns.account_id else or_else p.account_id row.columns.account_id;
        category_id =
            if moves || adjusts
            then row.columns.category_id
            else or_else p.category_id row.columns.category_id;
        from_account_id =
            if moves
            then or_else p.from_account_id row.columns.from_account_id
            else row.columns.from_account_id;
        to_account_id =
            if moves
            then or_else p.to_account_id row.columns.to_account_id
            else row.columns.to_account_id;
      };
      updated_at = some (h.clock db.calls);
      version = row.version + 1;
    }

-- The transaction of `update`.
unfoldable pub update_transaction_row :
    Host → String → UpdateTransactionPayload → Patched → Db → Outcome (Row transaction)
update_transaction_row h i p c db = elim (if_live (read_entity_row db transaction i)) [
  | none ↦ rejected not_found_error
  | some row ↦
      if not (is_version row.version p.version)
      then rejected version_conflict_error
      else elim (patched_amount row.columns.type p.amount) [
        | none ↦ rejected invalid_payload_error
        | some n ↦
            elim (settle_references db row.columns.category_id p.destination_amount
              row.columns.destination_amount (changed_transaction h p c n row db)) [
                | inl why ↦ rejected why
                | inr next ↦
                    done next (change_row h transaction i next (to_transaction h next) (counted db))
              ]
      ]
]

-- `update`.
unfoldable pub update_transaction :
    Host → String → UpdateTransactionPayload → Db → Outcome (Row transaction)
unfolding update_transaction_row check_patch
update_transaction h i p db = elim (check_patch h p) [
  | none ↦ rejected invalid_payload_error
  | some c ↦ update_transaction_row h i p c db
]

-- `remove`.
unfoldable pub remove_transaction : Host → String → Db → Outcome Unit
remove_transaction h i db = elim (if_live (read_entity_row db transaction i)) [
  | none ↦ rejected not_found_error
  | some row ↦ done tt (delete_with_tombstone h transaction i row null db)
]
