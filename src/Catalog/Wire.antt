-- ===== src/Catalog/Wire.antt =====
-- sync-entity-catalog.generated.ts, `payloadToCatalogSyncData`: a payload as the wire data of a push.
use trata.Prelude.{String, ◌&&◌, Option, none, some, str_eq, ◌>>=◌, if◌then◌else◌}
use trata.Json.{
  Json, num, text, array, object, Fields, none_left, field, property, as_calendar_day, one_of,
  required,
}
use trata.Schema.{
  SyncEntity, account, category, transaction, debtor, debt_operation, planned_payment,
}
use trata.Catalog.Payload.{text_or_null}
use trata.Catalog.Readers.{
  currency_values, category_type_values, direction_values, debt_kind_values, planned_type_values,
  regularity_values, confirm_mode_values, reminder_values, transaction_type_values, string_at,
  int_at, string_or_empty, at_least_one, nonzero, refused_destination, optional_int, optional_text,
  nonempty,
}

transfer_data : Fields → String → Option Fields
transfer_data p type = do
  amount ← at_least_one (int_at "amount" p)
  occurred_at ← required (string_at "occurredAt" p)
  from_account ← required (string_at "fromAccountId" p)
  to_account ← required (string_at "toAccountId" p)
  let destination = int_at "destinationAmount" p
  if refused_destination destination
      then none
      else some (
          field "type" (text type) (
            field "amount" (num amount) (
              field "description" (text (string_or_empty "description" p)) (
                field "occurredAt" (text occurred_at) (
                  field "fromAccountId" (text from_account) (
                    field "toAccountId" (text to_account)
                      (optional_int "destinationAmount" destination)))))))

adjustment_data : Fields → String → Option Fields
adjustment_data p type = do
  amount ← nonzero (int_at "amount" p)
  occurred_at ← required (string_at "occurredAt" p)
  account_id ← required (string_at "accountId" p)
  some (
      field "type" (text type) (
        field "amount" (num amount) (
          field "description" (text (string_or_empty "description" p)) (
            field "occurredAt" (text occurred_at)
              (field "accountId" (text account_id) none_left)))))

cashflow_data : Fields → String → Option Fields
cashflow_data p type = do
  amount ← at_least_one (int_at "amount" p)
  occurred_at ← required (string_at "occurredAt" p)
  category_id ← required (string_at "categoryId" p)
  some (
      field "type" (text type) (
        field "amount" (num amount) (
          field "description" (text (string_or_empty "description" p)) (
            field "occurredAt" (text occurred_at) (
              field "accountId" (text_or_null (string_at "accountId" p))
                (field "categoryId" (text category_id) none_left))))))

-- `payloadToCatalogSyncData`.
unfoldable pub object_to_sync_data : SyncEntity → Fields → Option Fields
unfolding transfer_data adjustment_data cashflow_data
object_to_sync_data account p = do
  currency ← one_of currency_values (string_at "currency" p)
  opening_balance ← int_at "openingBalance" p
  let name = string_or_empty "name" p
  if nonempty name
      then some (
          field "name" (text name) (
            field "currency" (text currency)
              (field "openingBalance" (num opening_balance) none_left)))
      else none
object_to_sync_data category p = do
  type ← one_of category_type_values (string_at "type" p)
  let name = string_or_empty "name" p
  let icon = string_or_empty "icon" p
  let color = string_or_empty "color" p
  if nonempty name && nonempty icon && nonempty color
      then some (
          field "name" (text name) (
            field "type" (text type) (
              field "icon" (text icon) (
                field "color" (text color)
                  (optional_text "archivedAt" (required (string_at "archivedAt" p)))))))
      else none
object_to_sync_data debtor p = do
  currency ← one_of currency_values (string_at "currency" p)
  let name = string_or_empty "name" p
  if nonempty name
      then some (field "name" (text name) (field "currency" (text currency) none_left))
      else none
object_to_sync_data debt_operation p = do
  debtor_id ← required (string_at "debtorId" p)
  direction ← one_of direction_values (string_at "direction" p)
  kind ← one_of debt_kind_values (string_at "kind" p)
  amount ← at_least_one (int_at "amount" p)
  occurred_at ← required (string_at "occurredAt" p)
  some (
      field "debtorId" (text debtor_id) (
        field "direction" (text direction) (
          field "kind" (text kind)
            (field "amount" (num amount) (field "occurredAt" (text occurred_at) none_left)))))
object_to_sync_data planned_payment p = do
  type ← one_of planned_type_values (string_at "type" p)
  amount ← at_least_one (int_at "amount" p)
  account_id ← required (string_at "accountId" p)
  category_id ← required (string_at "categoryId" p)
  next_due ← required (as_calendar_day (property "nextDue" p))
  anchor_date ← required (as_calendar_day (property "anchorDate" p))
  regularity ← one_of regularity_values (string_at "regularity" p)
  confirm_mode ← one_of confirm_mode_values (string_at "confirmMode" p)
  reminder ← one_of reminder_values (string_at "reminder" p)
  some (
      field "type" (text type) (
        field "amount" (num amount) (
          field "name" (text (string_or_empty "name" p)) (
            field "accountId" (text account_id) (
              field "categoryId" (text category_id) (
                field "nextDue" (text next_due) (
                  field "anchorDate" (text anchor_date) (
                    field "regularity" (text regularity) (
                      field "confirmMode" (text confirm_mode) (
                        field "reminder" (text reminder)
                          (field "note" (text (string_or_empty "note" p)) none_left)))))))))))
object_to_sync_data transaction p = do
  type ← one_of transaction_type_values (string_at "type" p)
  if str_eq type "transfer"
      then transfer_data p type
      else if str_eq type "adjustment"
      then adjustment_data p type
      else cashflow_data p type

-- `payloadToSyncData`: an array is an object with none of the fields.
unfoldable pub payload_to_sync_data : SyncEntity → Json → Option Fields
payload_to_sync_data e (object p) = object_to_sync_data e p
payload_to_sync_data e (array _) = object_to_sync_data e none_left
payload_to_sync_data e _ = none
