-- ===== src/Restore/Decoding.antt =====
-- sync-entity-catalog.generated.ts, `decodeCatalogRestorePayload`: the preserved local state of a
-- conflict as the payload of a `create`, with no value made up.
use trata.Prelude.{String, Option, none, some, List, str_eq, if◌then◌else◌}
use trata.Prelude.Int.{ℤ}
use trata.Json.{
  Json, Fields, num, text, property, as_string, as_non_empty, as_int, as_calendar_day, one_of,
  required,
}
use trata.Schema.{
  SyncEntity, account, category, transaction, debtor, debt_operation, planned_payment,
}
use trata.Catalog.{
  currency_values, category_type_values, direction_values, debt_kind_values, planned_type_values,
  regularity_values, confirm_mode_values, reminder_values, transaction_type_values, at_least_one,
  nonzero, refused_destination,
}
use trata.Accounts.Creation.{CreateAccountPayload}
use trata.Repositories.Categories.{CreateCategoryPayload}
use trata.Repositories.Debtors.{CreateDebtorPayload}
use trata.Repositories.DebtOperations.{CreateDebtOperationPayload}
use trata.Repositories.PlannedPayments.{CreatePlannedPaymentPayload}
use trata.Repositories.Transactions.{CreateTransactionPayload}

-- `CatalogRestoreDecodeResult`: the payload, or the field that is missing or invalid.
pub data Decoded (A : Type 0) : Type 0 where
  decoded : A → Decoded A
  failed : String → Decoded A

infixl 5 ◌>>=◌
abbrev pub ◌>>=◌ : {A B : Type 0} → Decoded A → (A → Decoded B) → Decoded B
decoded a >>= f = f a
failed k >>= f = failed k

-- `if (!x) return fail(k)`.
abbrev need : {A : Type 0} → String → Option A → Decoded A
need k none = failed k
need k (some a) = decoded a

abbrev text_of : String → Fields → Option String
text_of k s = as_string (property k s)

-- `asNonEmpty` and the refusal.
abbrev need_text : String → Fields → Decoded String
need_text k s = need k (as_non_empty (property k s))

abbrev need_one_of : List String → String → Fields → Decoded String
need_one_of values k s = need k (one_of values (text_of k s))

abbrev need_amount : String → Fields → Decoded ℤ
need_amount k s = need k (at_least_one (as_int (property k s)))

-- The payload that each kind's `create` takes.
abbrev pub Payload : SyncEntity → Type 0
Payload account = CreateAccountPayload
Payload category = CreateCategoryPayload
Payload transaction = CreateTransactionPayload
Payload debtor = CreateDebtorPayload
Payload debt_operation = CreateDebtOperationPayload
Payload planned_payment = CreatePlannedPaymentPayload

abbrev no_references : String → Json → Option String → String → CreateTransactionPayload
no_references type amount description at = record {
  id = none;
  type = type;
  amount = amount;
  description = elim description [ none ↦ some (text "") | some d ↦ some (text d) ];
  occurred_at = at;
  account_id = none;
  category_id = none;
  from_account_id = none;
  to_account_id = none;
  destination_amount = none;
}

-- `state.destinationAmount === undefined ? null : asInt(state.destinationAmount)`.
abbrev destination_of : Fields → Option ℤ
destination_of s = as_int (property "destinationAmount" s)

abbrev num_of : Option ℤ → Option Json
num_of none = none
num_of (some n) = some (num n)

unfoldable decode_transfer : String → Fields → Decoded CreateTransactionPayload
decode_transfer type s = do
  amount ← need_amount "amount" s
  at ← need_text "occurredAt" s
  from ← need_text "fromAccountId" s
  to ← need_text "toAccountId" s
  let n = destination_of s
  if refused_destination n
      then failed "destinationAmount"
      else decoded (record (no_references type (num amount) (text_of "description" s) at) {
        from_account_id = some (some from);
        to_account_id = some (some to);
        destination_amount = num_of n;
      })

unfoldable decode_adjustment : String → Fields → Decoded CreateTransactionPayload
decode_adjustment type s = do
  amount ← need "amount" (nonzero (as_int (property "amount" s)))
  at ← need_text "occurredAt" s
  i ← need_text "accountId" s
  decoded (record (no_references type (num amount) (text_of "description" s) at) {
    account_id = some i;
  })

unfoldable decode_cashflow : String → Fields → Decoded CreateTransactionPayload
decode_cashflow type s = do
  amount ← need_amount "amount" s
  at ← need_text "occurredAt" s
  i ← need_text "categoryId" s
  decoded (record (no_references type (num amount) (text_of "description" s) at) {
    account_id = text_of "accountId" s;
    category_id = some (some i);
  })

-- `decodeCatalogRestorePayload`.
unfoldable pub decode_restore_payload : (e : SyncEntity) → Fields → Decoded (Payload e)
unfolding decode_transfer decode_adjustment decode_cashflow
decode_restore_payload account s = do
  name ← need_text "name" s
  currency ← need_one_of currency_values "currency" s
  n ← need "openingBalance" (as_int (property "openingBalance" s))
  decoded (record { id = none; name = some name; currency = currency; opening_balance = num n })
decode_restore_payload category s = do
  name ← need_text "name" s
  type ← need_one_of category_type_values "type" s
  icon ← need_text "icon" s
  color ← need_text "color" s
  decoded
      (record { id = none; name = some name; type = type; icon = icon; color = color; slug = none })
decode_restore_payload debtor s = do
  name ← need_text "name" s
  currency ← need_one_of currency_values "currency" s
  decoded (record { id = none; name = some name; currency = some currency })
decode_restore_payload debt_operation s = do
  debtor_id ← need_text "debtorId" s
  direction ← need_one_of direction_values "direction" s
  kind ← need_one_of debt_kind_values "kind" s
  amount ← need_amount "amount" s
  at ← need_text "occurredAt" s
  decoded (record {
    id = none;
    debtor_id = debtor_id;
    direction = direction;
    kind = kind;
    amount = num amount;
    occurred_at = at;
  })
decode_restore_payload planned_payment s = do
  type ← need_one_of planned_type_values "type" s
  amount ← need_amount "amount" s
  account_id ← need_text "accountId" s
  category_id ← need_text "categoryId" s
  next_due ← need "nextDue" (required (as_calendar_day (property "nextDue" s)))
  regularity ← need_one_of regularity_values "regularity" s
  confirm_mode ← need_one_of confirm_mode_values "confirmMode" s
  reminder ← need_one_of reminder_values "reminder" s
  decoded (record {
    id = none;
    type = type;
    amount = num amount;
    name = text_of "name" s;
    account_id = account_id;
    category_id = category_id;
    next_due = next_due;
    regularity = regularity;
    confirm_mode = confirm_mode;
    reminder = reminder;
    note = text_of "note" s;
  })
decode_restore_payload transaction s = do
  type ← need_one_of transaction_type_values "type" s
  if str_eq type "transfer"
      then decode_transfer type s
      else if str_eq type "adjustment"
      then decode_adjustment type s
      else decode_cashflow type s
