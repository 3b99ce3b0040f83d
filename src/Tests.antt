-- ===== src/Tests.antt =====
-- A small database with a host and a network, at which the theorems are applied.
pub mod Syncing
pub mod Settling
pub mod Owning
pub mod Accounting
pub mod Storing
pub mod Shop
pub mod Planning
pub mod Running
use trata.Prelude.{
  str_eq, ℕ, ◌+◌, ◌==◌, String, Bool, true, false, Option, none, some, List, [], ◌∷◌, if◌then◌else◌,
}
use trata.Prelude.Int.{ℤ, pos}
use trata.Json.{null, encoded}
use trata.Schema.{
  SyncEntity, account, upsert, delete_op, Row, SyncOutboxRow, SyncConflictRow, version_conflict,
  Tables, words, ServerState,
}
use trata.Db.{Db, Host}
use trata.Meta.{owner_user_id_key}
use trata.Engine.{
  SyncChangeItem, known, upsert_change, tombstone, SyncPullPage, SyncPushResultItem, applied, Reply,
  answered, Network, Cycle,
}
use trata.Engine.Run.{Engine, start_cycle}

abbrev pub host : Host
host = record {
  generate_id = λ n. "generated";
  clock = λ n. 1000 + n;
  iso = λ t. "2026-01-31T12:00:00.000Z";
  canonical = λ s. if str_eq s "" then none else some s;
}

abbrev pub cash : ℕ → ℕ → Row account
cash version server = record {
  id = "cash";
  columns = record { name = "Cash"; currency = "USD"; opening_balance = pos 500 };
  version = version;
  server_version = server;
  deleted_at = none;
  created_at = some 1;
  updated_at = none;
  user_id = none;
}

abbrev pub rename_cash : SyncOutboxRow
rename_cash = record {
  op_id = "op1";
  entity = account;
  entity_id = "cash";
  op = upsert;
  payload = encoded null;
  base_version = 1;
  created_at = 10;
  sent_at = none;
  attempts = 0;
  last_error = none;
}

abbrev pub tables_with : Row account → Tables
tables_with r = record {
  accounts = r ∷ [];
  categories = [];
  transactions = [];
  debtors = [];
  debt_operations = [];
  planned_payments = [];
}

-- One account with an unconfirmed change that waits in the outbox.
abbrev pub dirty_db : Db
dirty_db = record {
  tables = tables_with (cash 2 1);
  outbox = rename_cash ∷ [];
  conflicts = [];
  meta = (owner_user_id_key, words "ann") ∷ [];
  calls = 0;
}

-- An open conflict on the account.
abbrev pub cash_conflict : SyncConflictRow
cash_conflict = record {
  id = "c1";
  entity = account;
  entity_id = "cash";
  op_id = some "op1";
  kind = version_conflict;
  base_version = 1;
  server_version = 3;
  local_state = encoded null;
  server_state = encoded (some (record { version = 3; deleted = true; body = none }));
  created_at = 11;
  resolved_at = none;
}

abbrev pub conflict_db : Db
conflict_db = record dirty_db { conflicts = cash_conflict ∷ [] }

-- The server deleted the account.
abbrev pub cash_tombstone : SyncChangeItem
cash_tombstone = record {
  seq = 7;
  entity = known account;
  id = "cash";
  action = tombstone;
  version = 3;
  user_id = none;
  body = none;
}

abbrev pub tombstone_page : SyncPullPage
tombstone_page = record { changes = cash_tombstone ∷ []; next_cursor = none }

abbrev pub everything : SyncEntity → Bool
everything _ = true

abbrev pub confirmed : SyncPushResultItem
confirmed = record {
  op_id = "op1";
  status = applied;
  version = some 2;
  code = none;
  message = none;
  server_state = none;
}

-- The first push is confirmed, later ones get an empty answer; every page is the last one; the app
-- calls `run` again while request 1 is out.
abbrev pub network : Network
network = record {
  push = λ k ops. if k == 0 then answered (confirmed ∷ []) else answered [];
  pull = λ k cursor. answered tombstone_page;
  meanwhile = λ k db. db;
  called_again = λ k. k == 2;
}

abbrev pub engine : Engine
engine = record {
  db = dirty_db;
  running = false;
  rerun_queued = false;
  paused = false;
  request = 0;
}

abbrev pub cycle : Cycle
cycle = start_cycle engine
