-- ===== src/Repositories/PlannedPayments/Confirming.antt =====
-- packages/local-data/src/repositories/planned-payment.ts, `confirmPlannedPayment`.
use Prim.Native.String.{◌++◌}
use trata.Prelude.{◌+◌, String, not, Option, none, some, or_else, if◌then◌else◌}
use trata.Prelude.Int.{ℤ}
use trata.Json.{Json, text, num, object, field, none_left}
use trata.Schema.{transaction, planned_payment, Row}
use trata.Db.{Db, Host, read_entity_row}
use trata.Meta.{get_owner_user_id}
use trata.Recurrence.Texts.{advance_next_due}
use trata.Repositories.Values.{
  invalid_payload_error, not_found_error, unknown_references_error, range_error, constraint_error,
  Outcome, rejected, done, positive_amount, find_live,
}
use trata.Repositories.Actions.{counted, insert_row, change_row}
use trata.Repositories.PlannedPayments.{to_planned_payment, has_references}

-- `ConfirmPlannedPaymentInput`.
pub record ConfirmInput : Type 0 where
  pub plan_id : String
  pub amount : Option Json
  pub occurred_at : Option String
  pub note : Option String

-- `input.occurredAt ?? new Date(...).toISOString()`.
abbrev pub occurred_at_of : Host → ConfirmInput → Row planned_payment → Option String
occurred_at_of h p plan = elim p.occurred_at [
  | some at ↦ some at
  | none ↦ h.canonical (plan.columns.next_due ++ "T12:00:00.000Z")
]

abbrev pub amount_of : ConfirmInput → Row planned_payment → Option ℤ
amount_of p plan = positive_amount (or_else p.amount (num plan.columns.amount))

abbrev pub next_due_of : Row planned_payment → Option String
next_due_of plan =
    advance_next_due plan.columns.next_due plan.columns.anchor_date plan.columns.regularity

-- The transaction of a confirmed occurrence.
abbrev pub confirmed_payment :
    String → ConfirmInput → ℤ → String → Row planned_payment → Db → Row transaction
confirmed_payment i p n at plan db = record {
  id = i;
  columns = record {
    type = plan.columns.type;
    amount = n;
    description = or_else p.note plan.columns.name;
    occurred_at = at;
    account_id = some plan.columns.account_id;
    category_id = some plan.columns.category_id;
    from_account_id = none;
    to_account_id = none;
    destination_amount = none;
  };
  version = 1;
  server_version = 0;
  deleted_at = none;
  created_at = none;
  updated_at = none;
  user_id = get_owner_user_id db;
}

abbrev pub confirmed_payload : Row transaction → Row planned_payment → Json
confirmed_payload t plan = object (
    field "id" (text t.id) (
      field "type" (text t.columns.type) (
        field "amount" (num t.columns.amount) (
          field "description" (text t.columns.description) (
            field "occurredAt" (text t.columns.occurred_at) (
              field "accountId" (text plan.columns.account_id)
                (field "categoryId" (text plan.columns.category_id) none_left)))))))

abbrev pub advanced_plan : String → Row planned_payment → Row planned_payment
advanced_plan next_due plan = record plan {
  columns = record plan.columns { next_due = next_due };
  version = plan.version + 1;
}

-- The writes, once the time of the payment and the next due day are there.
unfoldable pub confirm_row :
    Host → ConfirmInput → ℤ → String → String → Row planned_payment → Db → Db
confirm_row h p n at next_due plan db =
    let t = confirmed_payment (h.generate_id db.calls) p n at plan db in
    let next = advanced_plan next_due plan in
    change_row h planned_payment plan.id next (to_planned_payment next)
      (insert_row h transaction t (confirmed_payload t plan) (counted db))

-- `confirmPlannedPayment`; an error anywhere undoes the transaction.
unfoldable pub confirm_planned_payment : Host → ConfirmInput → Db → Outcome Unit
unfolding confirm_row
confirm_planned_payment h p db = elim (find_live p.plan_id db.tables.planned_payments) [
  | none ↦ rejected not_found_error
  | some plan ↦
      if not (has_references db plan.columns.type plan.columns.account_id plan.columns.category_id)
      then rejected unknown_references_error
      else elim (amount_of p plan) [
        | none ↦ rejected invalid_payload_error
        | some n ↦ elim (occurred_at_of h p plan) [
          | none ↦ rejected range_error
          | some at ↦ elim (read_entity_row db transaction (h.generate_id db.calls)) [
            | some _ ↦ rejected constraint_error
            | none ↦ elim (next_due_of plan) [
              | none ↦ rejected range_error
              | some next_due ↦ done tt (confirm_row h p n at next_due plan db)
            ]
          ]
        ]
      ]
]
