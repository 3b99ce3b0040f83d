-- ===== src/Repositories/Categories/Removing.antt =====
-- packages/local-data/src/repositories/category.ts, `remove`.
use trata.Prelude.{
  ℕ, String, Bool, true, not, ◌&&◌, none, some, List, [], ◌∷◌, any, select, if◌then◌else◌,
}
use trata.Json.{Json, null, bool, object, field, none_left}
use trata.Schema.{category, transaction, Row}
use trata.Db.{Db, Host, read_entity_row, update_entity_row, is_deleted}
use trata.Outbox.{remove_operations_for}
use trata.Repositories.Values.{
  not_found_error, referential_integrity_error, Outcome, rejected, done, is_id, if_live, set_row,
}
use trata.Repositories.Actions.{counted, is_unborn, buried, wipe_row, delete_with_tombstone}
use trata.Repositories.Categories.{has_live_plans}

abbrev pub references : String → Row transaction → Bool
references i t = is_id i t.columns.category_id && not (is_deleted t)

-- A live transaction references the category.
unfoldable pub is_referenced : Db → String → Bool
is_referenced db i = any (references i) db.tables.transactions

unfoldable pub referencing : Db → String → List (Row transaction)
referencing db i = select (references i) db.tables.transactions

-- The loop for a category that never left the device.
unfoldable pub wipe_all : List (Row transaction) → Db → Db
wipe_all [] db = db
wipe_all (t ∷ ts) db = wipe_all ts (wipe_row transaction t.id db)

-- One round of the local mirror of the cascade, at the time of the one stamp.
unfoldable pub absorb_one : ℕ → Row transaction → Db → Db
absorb_one stamp t db =
    if is_unborn transaction t.id t.server_version db
    then wipe_row transaction t.id db
    else remove_operations_for transaction t.id
        (update_entity_row transaction t.id (set_row (buried stamp t)) db)

unfoldable pub absorb_all : ℕ → List (Row transaction) → Db → Db
unfolding absorb_one
absorb_all stamp [] db = db
absorb_all stamp (t ∷ ts) db = absorb_all stamp ts (absorb_one stamp t db)

-- `cascade ? { cascade: true } : null`.
abbrev pub cascade_payload : Bool → Json
cascade_payload cascade = if cascade then object (field "cascade" (bool true) none_left) else null

-- The writes of `remove`, past its guards: the transactions are read before the first of them.
unfoldable pub remove_category_row : Host → Bool → String → Row category → Db → Db
unfolding wipe_all absorb_all
remove_category_row h cascade i row db =
    let ts = referencing db i in
    let after = delete_with_tombstone h category i row (cascade_payload cascade) db in
    if is_unborn category i row.server_version db
    then wipe_all ts after
    else if not cascade
    then after
    else absorb_all (h.clock after.calls) ts (counted after)

-- `remove`.
unfoldable pub remove_category : Host → Bool → String → Db → Outcome Unit
unfolding remove_category_row
remove_category h cascade i db = elim (if_live (read_entity_row db category i)) [
  | none ↦ rejected not_found_error
  | some row ↦
      if not cascade && is_referenced db i
      then rejected referential_integrity_error
      else if has_live_plans db i
      then rejected referential_integrity_error
      else done tt (remove_category_row h cascade i row db)
]
