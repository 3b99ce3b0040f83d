-- ===== src/Catalog/Patch.antt =====
-- sync-entity-catalog.generated.ts, `catalogSyncDataToRowPatch`: wire data as the columns that a pull
-- writes.
use trata.Prelude.{String, Option, none, some, str_eq, ◌>>=◌, if◌then◌else◌}
use trata.Json.{Fields, property, as_calendar_day, one_of, required}
use trata.Schema.{
  SyncEntity, account, category, transaction, debtor, debt_operation, planned_payment, Columns,
}
use trata.Catalog.Readers.{
  currency_values, category_type_values, direction_values, debt_kind_values, planned_type_values,
  regularity_values, confirm_mode_values, reminder_values, transaction_type_values, string_at,
  int_at, string_or_empty, at_least_one, nonzero, refused_destination,
}

transfer_patch : Fields → String → Option (Columns transaction)
transfer_patch p type = do
  amount ← at_least_one (int_at "amount" p)
  occurred_at ← required (string_at "occurredAt" p)
  from_account ← required (string_at "fromAccountId" p)
  to_account ← required (string_at "toAccountId" p)
  let destination = int_at "destinationAmount" p
  if refused_destination destination
      then none
      else some (record {
        type = type;
        amount = amount;
        description = string_or_empty "description" p;
        occurred_at = occurred_at;
        account_id = none;
        category_id = none;
        from_account_id = some from_account;
        to_account_id = some to_account;
        destination_amount = destination;
      })

adjustment_patch : Fields → String → Option (Columns transaction)
adjustment_patch p type = do
  amount ← nonzero (int_at "amount" p)
  occurred_at ← required (string_at "occurredAt" p)
  account_id ← required (string_at "accountId" p)
  some (record {
    type = type;
    amount = amount;
    description = string_or_empty "description" p;
    occurred_at = occurred_at;
    account_id = some account_id;
    category_id = none;
    from_account_id = none;
    to_account_id = none;
    destination_amount = none;
  })

cashflow_patch : Fields → String → Option (Columns transaction)
cashflow_patch p type = do
  amount ← at_least_one (int_at "amount" p)
  occurred_at ← required (string_at "occurredAt" p)
  category_id ← required (string_at "categoryId" p)
  some (record {
    type = type;
    amount = amount;
    description = string_or_empty "description" p;
    occurred_at = occurred_at;
    account_id = string_at "accountId" p;
    category_id = some category_id;
    from_account_id = none;
    to_account_id = none;
    destination_amount = none;
  })

-- `catalogSyncDataToRowPatch`: the columns that a wire upsert writes.
unfoldable pub sync_data_to_row_patch : (e : SyncEntity) → Fields → Option (Columns e)
unfolding transfer_patch adjustment_patch cashflow_patch
sync_data_to_row_patch account p = do
  currency ← one_of currency_values (string_at "currency" p)
  opening_balance ← int_at "openingBalance" p
  some (record {
    name = string_or_empty "name" p;
    currency = currency;
    opening_balance = opening_balance;
  })
sync_data_to_row_patch category p = do
  type ← one_of category_type_values (string_at "type" p)
  some (record {
    name = string_or_empty "name" p;
    type = type;
    icon = string_or_empty "icon" p;
    color = string_or_empty "color" p;
    archived_at = string_at "archivedAt" p;
    slug = none;
  })
sync_data_to_row_patch debtor p = do
  currency ← one_of currency_values (string_at "currency" p)
  some (record { name = string_or_empty "name" p; currency = currency })
sync_data_to_row_patch debt_operation p = do
  debtor_id ← required (string_at "debtorId" p)
  direction ← one_of direction_values (string_at "direction" p)
  kind ← one_of debt_kind_values (string_at "kind" p)
  amount ← at_least_one (int_at "amount" p)
  occurred_at ← required (string_at "occurredAt" p)
  some (record {
    debtor_id = debtor_id;
    direction = direction;
    kind = kind;
    amount = amount;
    occurred_at = occurred_at;
  })
sync_data_to_row_patch planned_payment p = do
  type ← one_of planned_type_values (string_at "type" p)
  amount ← at_least_one (int_at "amount" p)
  account_id ← required (string_at "accountId" p)
  category_id ← required (string_at "categoryId" p)
  next_due ← required (as_calendar_day (property "nextDue" p))
  anchor_date ← required (as_calendar_day (property "anchorDate" p))
  regularity ← one_of regularity_values (string_at "regularity" p)
  confirm_mode ← one_of confirm_mode_values (string_at "confirmMode" p)
  reminder ← one_of reminder_values (string_at "reminder" p)
  some (record {
    type = type;
    amount = amount;
    name = string_or_empty "name" p;
    account_id = account_id;
    category_id = category_id;
    next_due = next_due;
    anchor_date = anchor_date;
    regularity = regularity;
    confirm_mode = confirm_mode;
    reminder = reminder;
    note = string_or_empty "note" p;
  })
sync_data_to_row_patch transaction p = do
  type ← one_of transaction_type_values (string_at "type" p)
  if str_eq type "transfer"
      then transfer_patch p type
      else if str_eq type "adjustment"
      then adjustment_patch p type
      else cashflow_patch p type
