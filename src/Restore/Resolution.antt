-- ===== src/Restore/Resolution.antt =====
-- packages/local-data/src/sync/restore.ts: what `restoreConflictAsNew` answers.
use trata.Prelude.{◌≡◌, String, true, false, Option, none, some, All}
use trata.Json.{Fields}
use trata.Schema.{SyncConflictRow}
use trata.Db.{Db, Host}
use trata.Conflicts.{get_conflict_by_id, parsed_local_state, is_unresolved, has_conflict_id}
use trata.Restore.{
  state_of, RestoreResult, restored, conflict_missing, no_local_state, invalid_state,
  create_restored,
}
use trata.Restore.Decoding.{Payload, decoded, failed, decode_restore_payload}
use trata.Restore.Answers.{IsCreated}

-- No conflict with the id is unresolved.
abbrev pub IsResolved : String → Db → Type 0
IsResolved i db = All (λ c. has_conflict_id i c ≡ true → is_unresolved c ≡ false) db.conflicts

-- The conflict whose preserved state is restored.
abbrev pub IsRestorable : SyncConflictRow → Fields → Type 0
IsRestorable c fs = state_of (parsed_local_state c) ≡ some fs

-- Why a preserved state does not become a record: a field that does not decode, or a refused create.
abbrev pub IsInvalid : Host → SyncConflictRow → Fields → Option String → Db → Type 0
IsInvalid h c fs (some k) db = decode_restore_payload c.entity fs ≡ failed k
IsInvalid h c fs none db =
    (p : Payload c.entity) × (decode_restore_payload c.entity fs ≡ decoded p)
    × (create_restored h c.entity p db ≡ none)

-- What `restoreConflictAsNew` answers.
abbrev pub RestoreAnswer : Host → String → Db → RestoreResult × Db → Type 0
RestoreAnswer h i db (conflict_missing, after) = (get_conflict_by_id db i ≡ none) × (after ≡ db)
RestoreAnswer h i db (no_local_state e, after) =
    (c : SyncConflictRow) × (get_conflict_by_id db i ≡ some c)
    × (e ≡ c.entity)
    × (state_of (parsed_local_state c) ≡ none)
    × (after ≡ db)
RestoreAnswer h i db (invalid_state e k, after) =
    (c : SyncConflictRow) × (fs : Fields) × (get_conflict_by_id db i ≡ some c)
    × (e ≡ c.entity)
    × IsRestorable c fs
    × IsInvalid h c fs k db
    × (after ≡ db)
RestoreAnswer h i db (restored e j, after) =
    (c : SyncConflictRow) × (fs : Fields) × (get_conflict_by_id db i ≡ some c)
    × (e ≡ c.entity)
    × IsRestorable c fs
    × IsCreated e db (j, after)
    × IsResolved i after
