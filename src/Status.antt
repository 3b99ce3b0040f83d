-- ===== src/Status.antt =====
-- packages/local-data/src/sync/sync-status.ts: the snapshot that the UI shows.
pub mod Counts
use trata.Prelude.{
  ℕ, String, Bool, not, Option, none, some, List, [], ◌∷◌, length, ltb, is_some, select, order_by,
}
use trata.Schema.{SyncOutboxRow, MetaValue}
use trata.Db.{Db}
use trata.Conflicts.{is_unresolved}
use trata.Meta.{get_meta_value, last_synced_at_key}

pub record SyncStatusSnapshot : Type 0 where
  pub pending_operations : ℕ
  pub unresolved_conflicts : ℕ
  pub last_synced_at : Option MetaValue
  pub failing_operations : ℕ
  pub last_error : Option String

abbrev pub is_failing : SyncOutboxRow → Bool
is_failing o = is_some o.last_error

-- `orderBy(desc(createdAt))`.
abbrev pub newer_first : SyncOutboxRow → SyncOutboxRow → Bool
newer_first a b = ltb b.created_at a.created_at

-- `failingSample?.lastError ?? null`.
abbrev pub sample_error : List SyncOutboxRow → Option String
sample_error [] = none
sample_error (o ∷ _) = o.last_error

-- `readSyncStatus`.
unfoldable pub read_sync_status : Db → SyncStatusSnapshot
read_sync_status db =
    let failing = select is_failing db.outbox in
    record {
      pending_operations = length db.outbox;
      failing_operations = length failing;
      last_error = sample_error (order_by newer_first failing);
      unresolved_conflicts = length (select is_unresolved db.conflicts);
      last_synced_at = get_meta_value db last_synced_at_key;
    }
