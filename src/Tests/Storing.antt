-- ===== src/Tests/Storing.antt =====
-- The local repositories at small databases.
use trata.Prelude.{◌≡◌, refl, String, Bool, true, false, Option, none, some, [], first, update}
use trata.Prelude.Int.{pos}
use trata.Json.{num, text, has, as_int, as_string}
use trata.Db.{Db, read_entity_row, update_entity_row, insert_entity_row}
use trata.Outbox.{enqueue_operation}
use trata.Repositories.Values.{Outcome, rejected, done, positive_amount, find_live}
use trata.Repositories.Actions.{insert_row, change_row}
use trata.Repositories.Debtors.{cascade_delete_debtor}
use trata.Repositories.Categories.Removing.{remove_category}
use trata.Repositories.PlannedPayments.Confirming.{ConfirmInput, confirm_planned_payment}
use trata.Repositories.Transactions.{CreateTransactionPayload, create_transaction}
use trata.Repositories.Transactions.Rules.{assert_amount, validate_references}
use trata.Repositories.PlannedPayments.{has_references}
use trata.Repositories.Categories.{has_live_plans}
use trata.Recurrence.Texts.{advance_next_due}
use trata.Tests.{host}
use trata.Tests.Shop.{shop_db}

abbrev pay_rent : ConfirmInput
pay_rent = record { plan_id = "rent"; amount = none; occurred_at = none; note = none }

-- What a read-back of the plan gives after a mutation that is done.
abbrev due_after : Outcome Unit → Option String
due_after (rejected _) = none
due_after (done _ after) = elim (first (λ p. true) after.tables.planned_payments) [
  | none ↦ none
  | some p ↦ some p.columns.next_due
]

confirmed_rent : due_after (confirm_planned_payment host pay_rent shop_db) ≡ some "2026-03-31"
unfolding confirm_planned_payment first find_live has_references positive_amount as_int
    read_entity_row advance_next_due change_row enqueue_operation update_entity_row update
    insert_row insert_entity_row
confirmed_rent = refl

abbrev stays : {A : Type 0} → Outcome A → Bool
stays (rejected _) = false
stays (done _ _) = true

abbrev dinner : CreateTransactionPayload
dinner = record {
  id = none;
  type = "expense";
  amount = num (pos 25);
  description = some (text "Dinner");
  occurred_at = "2026-01-06T20:00:00.000Z";
  account_id = some "cash";
  category_id = some (some "food");
  from_account_id = none;
  to_account_id = none;
  destination_amount = none;
}

stored_dinner : stays (create_transaction host dinner shop_db) ≡ true
unfolding create_transaction has assert_amount as_int as_string read_entity_row first
    validate_references find_live
stored_dinner = refl

-- The category can be removed with its transactions once the plan is gone.
abbrev no_plans : Db
no_plans = record shop_db { tables = record shop_db.tables { planned_payments = [] } }

freed : stays (remove_category host true "food" no_plans) ≡ true
unfolding remove_category read_entity_row first has_live_plans
freed = refl

deleted_bob : stays (cascade_delete_debtor host "bob" shop_db) ≡ true
unfolding cascade_delete_debtor read_entity_row first
deleted_bob = refl
