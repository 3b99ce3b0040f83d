-- ===== src/Conflicts/Subject.antt =====
-- packages/local-data/src/sync/conflicts.ts, `conflictSubject`, and `catalogConflictSubject` of
-- sync-entity-catalog.generated.ts: the label under which the user sees a conflict.
use trata.Prelude.{String, none, some, if◌then◌else◌}
use trata.Json.{Json, null, object, Fields, none_left}
use trata.Schema.{
  SyncEntity, account, category, transaction, debtor, debt_operation, planned_payment,
  SyncConflictRow,
}
use trata.Catalog.{string_or_empty}
use trata.Conflicts.{parsed_local_state, parsed_server_state}
use trata.Repositories.Values.{is_empty}

-- The fields of the server's copy.
abbrev server_fields : SyncConflictRow → Fields
server_fields c = elim (parsed_server_state c) [
  | none ↦ none_left
  | some s ↦ elim s.body [ none ↦ none_left | some fs ↦ fs ]
]

-- `source`: the local state, or the server's copy where that is null. A value that is not an object
-- has none of the fields.
unfoldable source_of : Json → Fields → Fields
source_of null server = server
source_of (object fs) server = fs
source_of _ server = none_left

-- `catalogConflictSubject`.
unfoldable catalog_conflict_subject : SyncEntity → Fields → String
catalog_conflict_subject account fs = string_or_empty "name" fs
catalog_conflict_subject category fs = string_or_empty "name" fs
catalog_conflict_subject debtor fs = string_or_empty "name" fs
catalog_conflict_subject debt_operation fs = ""
catalog_conflict_subject planned_payment fs = string_or_empty "name" fs
catalog_conflict_subject transaction fs = string_or_empty "description" fs

-- `a || b` on texts.
abbrev or_text : String → String → String
or_text s t = if is_empty s then t else s

-- `conflictSubject`.
unfoldable pub conflict_subject : SyncConflictRow → String
unfolding source_of catalog_conflict_subject
conflict_subject c =
    let fs = source_of (parsed_local_state c) (server_fields c) in
    or_text (or_text (catalog_conflict_subject c.entity fs) (string_or_empty "name" fs))
      (string_or_empty "description" fs)
