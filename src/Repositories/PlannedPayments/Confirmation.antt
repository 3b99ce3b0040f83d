-- ===== src/Repositories/PlannedPayments/Confirmation.antt =====
-- packages/local-data/src/repositories/planned-payment.ts: what `confirmPlannedPayment` leaves.
use trata.Prelude.{◌+◌, or_else, Bool, ◌≡◌, String, true, false, Option, none, some, ◌⊎◌}
use trata.Prelude.Int.{ℤ}
use trata.Schema.{SyncEntity, transaction, planned_payment, Row}
use trata.Db.{Db, Host, read_entity_row}
use trata.Db.Laws.{Other}
use trata.Frame.{has_operations}
use trata.Frame.Settled.{IsSettled}
use trata.Repositories.Values.{
  invalid_payload_error, not_found_error, unknown_references_error, range_error, constraint_error,
  Outcome, rejected, done, find_live,
}
use trata.Repositories.PlannedPayments.{has_references}
use trata.Repositories.PlannedPayments.Answers.{is_referable}
use trata.Repositories.Amounts.{is_bad_amount}
use trata.Recurrence.Texts.{advance_next_due}
use trata.Json.{Json, num, as_int}
use Prim.Native.String.{◌++◌ as ◌++s◌}
use trata.Repositories.PlannedPayments.Confirming.{ConfirmInput}

-- What a confirmation leaves: the payment and the advanced plan, each with an operation queued, and
-- neither the row nor the queue of a third record touched.
pub record IsConfirmed (before : Db) (t : Row transaction) (plan : Row planned_payment) (after : Db)
    : Type 0 where
  pub payment : read_entity_row after transaction t.id ≡ some t
  pub payment_queued : has_operations after transaction t.id ≡ true
  pub advanced : read_entity_row after planned_payment plan.id ≡ some plan
  pub advance_queued : has_operations after planned_payment plan.id ≡ true
  pub elsewhere :
      (g : SyncEntity) (j : String)
      → Other transaction t.id g j
      → Other planned_payment plan.id g j
      → (read_entity_row after g j ≡ read_entity_row before g j)
        × (has_operations after g j ≡ has_operations before g j)
  pub settled : IsSettled after

-- The plan that `confirmPlannedPayment` reads.
abbrev pub plan_of : ConfirmInput → Db → Option (Row planned_payment)
plan_of p db = find_live p.plan_id db.tables.planned_payments

abbrev pub plan_references : Row planned_payment → Db → Bool
plan_references plan db =
    has_references db plan.columns.type plan.columns.account_id plan.columns.category_id

-- What is paid: the input's amount, or else the plan's.
abbrev pub paid_amount : ConfirmInput → Row planned_payment → Json
paid_amount p plan = or_else p.amount (num plan.columns.amount)

-- When: the time of the input, or else noon of the day on which the plan is due.
abbrev pub paid_at : Host → ConfirmInput → Row planned_payment → Option String
paid_at h p plan = elim p.occurred_at [
  | none ↦ h.canonical (plan.columns.next_due ++s "T12:00:00.000Z")
  | some at ↦ some at
]

-- The occurrence after the one that is confirmed.
abbrev pub due_next : Row planned_payment → Option String
due_next plan =
    advance_next_due plan.columns.next_due plan.columns.anchor_date plan.columns.regularity

abbrev pub is_plan_referable : Row planned_payment → Db → Bool
is_plan_referable plan db =
    is_referable db plan.columns.type plan.columns.account_id plan.columns.category_id

-- What `confirmPlannedPayment` answers.
abbrev pub ConfirmAnswer : Host → ConfirmInput → Db → Outcome Unit → Type 0
ConfirmAnswer h p db (rejected not_found_error) = plan_of p db ≡ none
ConfirmAnswer h p db (rejected unknown_references_error) =
    (plan : Row planned_payment) × (plan_of p db ≡ some plan) × (is_plan_referable plan db ≡ false)
ConfirmAnswer h p db (rejected invalid_payload_error) =
    (plan : Row planned_payment) × (plan_of p db ≡ some plan)
    × (is_bad_amount (paid_amount p plan) ≡ true)
ConfirmAnswer h p db (rejected range_error) =
    (plan : Row planned_payment) × (plan_of p db ≡ some plan)
    × ((paid_at h p plan ≡ none) ⊎ (due_next plan ≡ none))
ConfirmAnswer h p db (rejected constraint_error) =
    (t : Row transaction) × (read_entity_row db transaction (h.generate_id db.calls) ≡ some t)
ConfirmAnswer h p db (rejected _) = ⊥
ConfirmAnswer h p db (done _ after) =
    (plan : Row planned_payment) × (n : ℤ) × (at : String) × (next_due : String) × (t : Row
      transaction)
    × (plan_of p db ≡ some plan)
    × (is_plan_referable plan db ≡ true)
    × (is_bad_amount (paid_amount p plan) ≡ false)
    × (as_int (some (paid_amount p plan)) ≡ some n)
    × (paid_at h p plan ≡ some at)
    × (due_next plan ≡ some next_due)
    × (t.id ≡ h.generate_id db.calls)
    × (t.columns ≡ record {
      type = plan.columns.type;
      amount = n;
      description = or_else p.note plan.columns.name;
      occurred_at = at;
      account_id = some plan.columns.account_id;
      category_id = some plan.columns.category_id;
      from_account_id = none;
      to_account_id = none;
      destination_amount = none;
    })
    × (t.version ≡ 1)
    × (t.server_version ≡ 0)
    × (t.deleted_at ≡ none)
    × IsConfirmed db t
        (record plan {
          columns = record plan.columns { next_due = next_due };
          version = plan.version + 1;
        })
        after
