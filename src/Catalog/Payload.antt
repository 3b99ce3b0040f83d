-- ===== src/Catalog/Payload.antt =====
-- sync-entity-catalog.generated.ts, `rowToCatalogPayload`: a row as the payload that the outbox stores.
use trata.Prelude.{String, Option, none, some, str_eq, if◌then◌else◌}
use trata.Prelude.Int.{ℤ, pos}
use trata.Json.{Json, null, num, text, object, none_left, field}
use trata.Schema.{
  SyncEntity, account, category, transaction, debtor, debt_operation, planned_payment, Row,
}

-- A nullable column in a payload.
abbrev pub text_or_null : Option String → Json
text_or_null none = null
text_or_null (some s) = text s

abbrev pub num_or_null : Option ℤ → Json
num_or_null none = null
num_or_null (some z) = num z

-- `rowToCatalogPayload`.
unfoldable pub row_to_payload : (e : SyncEntity) → Row e → Json
row_to_payload account r = object (
    field "id" (text r.id) (
      field "name" (text r.columns.name) (
        field "currency" (text r.columns.currency)
          (field "openingBalance" (num r.columns.opening_balance) none_left))))
row_to_payload category r = object (
    field "id" (text r.id) (
      field "name" (text r.columns.name) (
        field "type" (text r.columns.type) (
          field "icon" (text r.columns.icon) (
            field "color" (text r.columns.color)
              (field "archivedAt" (text_or_null r.columns.archived_at) none_left))))))
row_to_payload debtor r = object (
    field "id" (text r.id)
      (field "name" (text r.columns.name) (field "currency" (text r.columns.currency) none_left)))
row_to_payload debt_operation r = object (
    field "id" (text r.id) (
      field "debtorId" (text r.columns.debtor_id) (
        field "direction" (text r.columns.direction) (
          field "kind" (text r.columns.kind) (
            field "amount" (num r.columns.amount)
              (field "occurredAt" (text r.columns.occurred_at) none_left))))))
row_to_payload planned_payment r = object (
    field "id" (text r.id) (
      field "type" (text r.columns.type) (
        field "amount" (num r.columns.amount) (
          field "name" (text r.columns.name) (
            field "accountId" (text r.columns.account_id) (
              field "categoryId" (text r.columns.category_id) (
                field "nextDue" (text r.columns.next_due) (
                  field "anchorDate" (text r.columns.anchor_date) (
                    field "regularity" (text r.columns.regularity) (
                      field "confirmMode" (text r.columns.confirm_mode) (
                        field "reminder" (text r.columns.reminder) (
                          field "note" (text r.columns.note)
                            (field "version" (num (pos r.version)) none_left)))))))))))))
row_to_payload transaction r =
    let refs =
      if str_eq r.columns.type "transfer"
      then field "fromAccountId" (text_or_null r.columns.from_account_id) (
          field "toAccountId" (text_or_null r.columns.to_account_id)
            (field "destinationAmount" (num_or_null r.columns.destination_amount) none_left))
      else field "accountId" (text_or_null r.columns.account_id)
          (field "categoryId" (text_or_null r.columns.category_id) none_left) in
    object (
      field "id" (text r.id) (
        field "type" (text r.columns.type) (
          field "amount" (num r.columns.amount) (
            field "description" (text r.columns.description)
              (field "occurredAt" (text r.columns.occurred_at) refs)))))
