-- ===== src/Tests/Owning.antt =====
-- Conflicts, owners, households, the wire and the balances at sample values.
use mathlib.Core.Option
use trata.Prelude.{
  ◌≤◌, ◌<◌, ◌≡◌, ◌≢◌, ◌⊎◌, refl, String, true, false, none, some, List, [], ◌∷◌, arith, All, map,
  any, select, max, ◌+◌, ltb, is_some, str_eq, eq_iff, first,
}
use trata.Prelude.Int.{pos}
use trata.Json.{Fields, null, encoded, text, num, field, none_left, property}
use trata.Schema.{
  SyncEntity, account, upsert, delete_op, Row, SyncOutboxRow, SyncConflictRow, deleted_conflict,
  version_conflict, op_of, ServerState,
}
use trata.Db.{read_entity_row, get_table}
use trata.Meta.{
  get_owner_user_id, get_pull_cursor, get_meta_value, household_needs_rebase, get_last_household,
}
use trata.Catalog.{row_to_payload, payload_to_sync_data, sync_data_to_row_patch}
use trata.Catalog.RoundTrip.{wire_columns, sync_data_to_row_patch_lem}
use trata.Conflicts.{
  RecordConflictInput, record_conflict, find_unresolved_conflict, unresolved_of,
  apply_local_delete_wins, fields_or_null, resolve_conflict_take_server,
  resolve_conflict_keep_local, open_conflict,
}
use trata.Conflicts.Records.{IsSingle, Shows, record_conflict_lem}
use trata.Conflicts.DeleteWins.{local_delete_wins_lem}
use trata.Conflicts.Resolve.{CleanAt, take_server_lem, keep_local_lem}
use trata.Frame.{has_operations, Touches}
use trata.Rebase.{rebase_local_data_for_household}
use trata.Rebase.Union.{IsFresh, said, creates, rebase_local_data_for_household_lem}
use trata.Ownership.{ownership_gate_decision, pass, foreign_owner, rebind_owner, adopt_unowned}
use trata.Ownership.Gate.{rebind_owner_lem, adopt_unowned_lem}
use trata.Status.{read_sync_status}
use trata.Status.Counts.{read_sync_status_lem}
use trata.Balances.{
  BalanceAccount, TransactionImpact, transfer, income, lookup, get_accounts_balances,
  get_computed_account_balance, DebtOperation, receivable, debt, repayment, side,
  balances_by_debtor, balance_in_direction, get_debtor, totals_by_direction,
}
use trata.Balances.Accounts.{IsProper, last_account, lookup-get_accounts_balances}
use trata.Balances.Debts.{balances_of, sum_sides, balances_by_debtor_lem}
use trata.Tests.{host, cash, dirty_db, conflict_db, cash_conflict}

abbrev conflict_input : RecordConflictInput
conflict_input = record {
  entity = account;
  entity_id = "cash";
  op_id = some "op1";
  kind = version_conflict;
  base_version = 1;
  server_version = 4;
  local_state = null;
  server_state = none;
}

dirty_db-IsSingle : IsSingle dirty_db
dirty_db-IsSingle = record { single = λ e i. unfold select in omega arith }

record_conflict_lem_example :
    let after = record_conflict host conflict_input dirty_db in
    IsSingle after
    × (c : SyncConflictRow) × (shown : SyncConflictRow) × (find_unresolved_conflict after account
          "cash"
        ≡ some shown)
    × Shows conflict_input c shown
    × ((find_unresolved_conflict dirty_db account "cash" ≡ some c)
        ⊎ (find_unresolved_conflict dirty_db account "cash" ≡ none))
record_conflict_lem_example = record_conflict_lem host conflict_input dirty_db dirty_db-IsSingle

abbrev remote_edit : ServerState
remote_edit = record { version = 3; deleted = false; body = none }

local_delete_wins_lem_example :
    let after = apply_local_delete_wins host account "cash" none 1 3 none remote_edit dirty_db in
    (read_entity_row after account "cash"
      ≡ Option.map
          (λ (r : Row account). record r { server_version = 3; version = max r.version (3 + 1) })
          (read_entity_row dirty_db account "cash"))
    × ((r : Row account) → read_entity_row after account "cash" ≡ some r → 3 < r.version)
    × (has_operations after account "cash" ≡ true)
    × (o : SyncOutboxRow) × (select (op_of account "cash") after.outbox ≡ o ∷ [])
    × (o.op ≡ delete_op)
    × (o.base_version ≡ 3)
    × (o.payload ≡ encoded null)
    × (o.sent_at ≡ none)
    × (c : SyncConflictRow) × (find_unresolved_conflict after account "cash" ≡ some c)
    × (c.kind ≡ deleted_conflict)
    × (c.local_state ≡ encoded (fields_or_null none))
local_delete_wins_lem_example =
    local_delete_wins_lem host account "cash" none 1 3 none remote_edit dirty_db

opened : open_conflict conflict_db "c1" ≡ some cash_conflict
unfolding open_conflict trata.Conflicts.when_unresolved trata.Conflicts.get_conflict_by_id first
opened = refl

take_server_lem_example :
    let after = resolve_conflict_take_server host "c1" conflict_db in
    CleanAt after account "cash"
    × (has_operations after account "cash" ≡ false)
    × Touches account "cash" conflict_db after
    × (open_conflict after "c1" ≡ none)
take_server_lem_example = take_server_lem host "c1" conflict_db cash_conflict opened

found_cash : read_entity_row conflict_db account "cash" ≡ some (cash 2 1)
unfolding read_entity_row first
found_cash = refl

keep_local_lem_example :
    let after = resolve_conflict_keep_local host "c1" conflict_db in
    let kept = record (cash 2 1) { server_version = 3; version = 4 } in
    (read_entity_row after account "cash" ≡ some kept)
    × (kept.server_version < kept.version)
    × (o : SyncOutboxRow) × (select (op_of account "cash") after.outbox ≡ o ∷ [])
    × (o.base_version ≡ 3)
    × (o.op ≡ upsert)
    × (o.payload ≡ encoded (row_to_payload account (cash 2 1)))
    × (o.sent_at ≡ none)
    × Touches account "cash" conflict_db after
    × (open_conflict after "c1" ≡ none)
keep_local_lem_example =
    keep_local_lem host "c1" conflict_db cash_conflict (cash 2 1) opened found_cash

rebase_local_data_for_household_lem_example :
    let after = rebase_local_data_for_household host "home" conflict_db in
    ((e : SyncEntity) → All IsFresh (get_table e after.tables))
    × (map said after.outbox ≡ creates after.tables)
    × (after.conflicts ≡ [])
    × (get_pull_cursor after ≡ 0)
    × (household_needs_rebase after "home" ≡ false)
rebase_local_data_for_household_lem_example =
    rebase_local_data_for_household_lem host "home" conflict_db

abbrev bob : String
bob = "bob"

abbrev ann : String
ann = "ann"

rebind_owner_lem_example :
    let after = rebind_owner "bob" conflict_db in
    (ownership_gate_decision (get_owner_user_id after) "bob" ≡ pass)
    × (bob ≢ ""
        → bob ≢ ann
        → ownership_gate_decision (get_owner_user_id after) "ann" ≡ foreign_owner "bob")
    × ((e : SyncEntity) (i : String) → read_entity_row after e i ≡ none)
    × (after.outbox ≡ [])
    × (after.conflicts ≡ [])
    × (get_pull_cursor after ≡ 0)
    × (get_last_household after ≡ none)
    × (get_meta_value after "last_synced_at" ≡ none)
    × ((k : String)
        → k ≢ "owner_user_id"
        → k ≢ "pull_cursor"
        → k ≢ "last_synced_at"
        → k ≢ "last_household"
        → get_meta_value after k ≡ get_meta_value conflict_db k)
rebind_owner_lem_example = rebind_owner_lem bob ann conflict_db

adopt_unowned_lem_example :
    let after = adopt_unowned "ann" dirty_db in
    (ownership_gate_decision (get_owner_user_id after) "ann"
      ≡ ownership_gate_decision (get_owner_user_id dirty_db) "ann")
    × (ownership_gate_decision (get_owner_user_id dirty_db) "ann" ≡ pass
        → (get_owner_user_id after ≡ some "ann")
          × (ownership_gate_decision (get_owner_user_id after) "bob" ≡ foreign_owner "ann"))
    × (ownership_gate_decision (get_owner_user_id dirty_db) "ann" ≢ pass → after ≡ dirty_db)
adopt_unowned_lem_example =
    adopt_unowned_lem "ann" "bob" dirty_db (λ e. cc ((eq_iff "ann" "").1 e))
      (λ e. cc ((eq_iff "ann" "bob").1 e))

read_sync_status_lem_example :
    let s = read_sync_status dirty_db in
    (s.failing_operations ≤ s.pending_operations)
    × (is_some s.last_error ≡ ltb 0 s.failing_operations)
read_sync_status_lem_example = read_sync_status_lem dirty_db

abbrev accounts : List BalanceAccount
accounts =
    record { id = "cash"; opening_balance = pos 100; manual_adjustment = pos 5 }
    ∷ record { id = "bank"; opening_balance = pos 0; manual_adjustment = pos 0 }
    ∷ []

abbrev moves : List TransactionImpact
moves = transfer "cash" "bank" (pos 40) (some (pos 38)) ∷ income "bank" (pos 7) ∷ []

moves-IsProper : All IsProper moves
moves-IsProper = (
  λ same. let clash : str_eq "cash" "bank" ≡ true = (eq_iff "cash" "bank").1 same in cc clash,
  (tt, tt),
)

lookup-get_accounts_balances_example :
    lookup "bank" (get_accounts_balances accounts moves)
    ≡ Option.map (λ a. get_computed_account_balance a moves) (last_account "bank" accounts)
lookup-get_accounts_balances_example =
    lookup-get_accounts_balances accounts moves "bank" moves-IsProper

abbrev debts : List DebtOperation
debts =
    record { debtor_id = "eve"; direction = receivable; kind = debt; amount = pos 10 }
    ∷ record { debtor_id = "eve"; direction = receivable; kind = repayment; amount = pos 4 }
    ∷ []

balances_by_debtor_lem_example :
    (side receivable (balances_of "eve" (balances_by_debtor debts))
      ≡ balance_in_direction debts "eve" receivable)
    × (is_some (get_debtor "eve" (balances_by_debtor debts))
        ≡ any (λ o. str_eq o.debtor_id "eve") debts)
    × (side receivable (totals_by_direction debts)
        ≡ sum_sides receivable (balances_by_debtor debts))
balances_by_debtor_lem_example = balances_by_debtor_lem debts "eve" receivable

abbrev cash_data : Fields
cash_data =
    field "name" (text "Cash")
      (field "currency" (text "USD") (field "openingBalance" (num (pos 500)) none_left))

pushed_cash : payload_to_sync_data account (row_to_payload account (cash 2 1)) ≡ some cash_data
unfolding payload_to_sync_data row_to_payload trata.Catalog.object_to_sync_data trata.Json.one_of
    trata.Json.as_string property trata.Json.has trata.Json.as_int
pushed_cash = refl

sync_data_to_row_patch_lem_example :
    sync_data_to_row_patch account cash_data ≡ some (wire_columns account (cash 2 1).columns)
sync_data_to_row_patch_lem_example =
    sync_data_to_row_patch_lem account (cash 2 1) cash_data (λ same. cc same) pushed_cash
