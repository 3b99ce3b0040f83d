-- ===== src/Catalog.antt =====
-- packages/local-data/src/sync/sync-entity-catalog.generated.ts and sync-data.ts: a row as the domain
-- payload that the outbox stores, a payload as the wire data of a push, and wire data as the columns
-- that a pull writes. A payload that is no object has no wire data.
mod Readers
mod Payload
mod Wire
mod Patch
pub mod RoundTrip
pub use Readers.{
  currency_values, category_type_values, direction_values, debt_kind_values, planned_type_values,
  regularity_values, confirm_mode_values, reminder_values, transaction_type_values, at_least_one,
  nonzero, refused_destination, string_or_empty,
}
pub use Payload.{text_or_null, num_or_null}
unfoldable pub use Payload.{row_to_payload}
unfoldable pub use Wire.{object_to_sync_data, payload_to_sync_data}
unfoldable pub use Patch.{sync_data_to_row_patch}
