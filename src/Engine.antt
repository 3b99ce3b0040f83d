-- ===== src/Engine.antt =====
-- packages/local-data/src/sync/sync-engine.ts, with the wire types of packages/api/src/http/sync.ts.
-- This file has the types that the phases share and the backoff; the phases are the modules below.
pub mod Backoff
pub mod Select
pub mod Push
pub mod Pull
pub mod Run
use trata.Prelude.{ℕ, ◌-◌, ◌*◌, ◌^◌, ◌≡◌, String, Bool, true, false, Option, List, min}
use trata.Json.{Fields}
use trata.Schema.{SyncEntity, SyncOperationKind, SyncOutboxRow, ServerState}
use trata.Db.{Db}

pub record SyncPushOperation : Type 0 where
  pub op_id : String
  pub entity : SyncEntity
  pub action : SyncOperationKind
  pub id : String
  pub base_version : ℕ
  pub body : Option Fields

pub data PushStatus : Type 0 where
  applied conflict error : PushStatus

pub record SyncPushResultItem : Type 0 where
  pub op_id : String
  pub status : PushStatus
  pub version : Option ℕ
  pub code : Option String
  pub message : Option String
  pub server_state : Option ServerState

pub data ChangeAction : Type 0 where
  upsert_change tombstone : ChangeAction

-- The kind of a change, by its name on the wire: a newer server may know a kind that this build
-- does not.
pub data ChangeEntity : Type 0 where
  known : SyncEntity → ChangeEntity
  unknown : String → ChangeEntity

pub record SyncChangeItem : Type 0 where
  pub seq : ℕ
  pub entity : ChangeEntity
  pub id : String
  pub action : ChangeAction
  pub version : ℕ
  pub user_id : Option String
  pub body : Option Fields

pub record SyncPullPage : Type 0 where
  pub changes : List SyncChangeItem
  pub next_cursor : Option ℕ

-- How an awaited request ends.
pub data Reply (A : Type 0) : Type 0 where
  answered : A → Reply A
  unauthorized : Reply A
  failed : Reply A

-- The transport by the number of the request, and what the app does while a request is out:
-- to the database, and whether it calls `run` again.
pub record Network : Type 0 where
  pub push : ℕ → List SyncPushOperation → Reply (List SyncPushResultItem)
  pub pull : ℕ → ℕ → Reply SyncPullPage
  pub meanwhile : ℕ → Db → Db
  pub called_again : ℕ → Bool

pub data RunStatus : Type 0 where
  completed paused_run : RunStatus

pub record SyncRunOutcome : Type 0 where
  pub status : RunStatus
  pub pushed : ℕ
  pub pulled : ℕ
  pub conflicts : ℕ

-- What a phase reads and writes: the database, the two flags of the closure that a cycle sets, the
-- outcome, and the number of the next request.
pub record Cycle : Type 0 where
  pub db : Db
  pub paused : Bool
  pub wrote : Bool
  pub outcome : SyncRunOutcome
  pub request : ℕ

pub record SelectedOp : Type 0 where
  pub op : SyncOutboxRow
  pub wire : SyncPushOperation

abbrev pub push_batch_size : ℕ
push_batch_size = 50

abbrev pub backoff_base_ms : ℕ
backoff_base_ms = 5000

abbrev pub backoff_cap_ms : ℕ
backoff_cap_ms = 15 * 60000

-- `backoffDelayMs`; `attempts - 1` stops at 0, as `Math.max(0, attempts - 1)` does.
unfoldable pub backoff_delay_ms : ℕ → ℕ
backoff_delay_ms attempts = min (backoff_base_ms * 2 ^ (attempts - 1)) backoff_cap_ms

abbrev pub is_paused : RunStatus → Bool
is_paused completed = false
is_paused paused_run = true

-- The flag of the engine and the status of the outcome agree.
abbrev pub Reports : Cycle → Type 0
Reports c = c.paused ≡ is_paused c.outcome.status
