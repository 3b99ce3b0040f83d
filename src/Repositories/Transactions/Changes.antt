-- ===== src/Repositories/Transactions/Changes.antt =====
-- packages/local-data/src/repositories/transaction.ts: what `update` and `remove` answer, and
-- the repository of transactions as a whole.
use trata.Prelude.{◌≡◌, ◌⊎◌, inl, String, true, false, Option, none, some}
use trata.Prelude.Int.{ℤ}
use trata.Schema.{transaction, Row}
use trata.Db.{Db, Host, read_entity_row}
use trata.Frame.{Touches}
use trata.Frame.Settled.{IsSettled}
use trata.Repositories.Values.{
  Rejection, invalid_payload_error, not_found_error, version_conflict_error, Outcome, rejected,
  done, if_live,
}
use trata.Repositories.Actions.{is_version, is_unborn}
use trata.Repositories.Queued.{IsQueued, IsRemoved}
use trata.Repositories.Transactions.{settle_references}
use trata.Repositories.Transactions.References.{IsReferred}
use trata.Repositories.Transactions.Changing.{
  UpdateTransactionPayload, Patched, check_patch, patched_amount, changed_transaction,
}

abbrev pub update_references :
    Host
    → UpdateTransactionPayload
    → Patched
    → Option ℤ
    → Row transaction
    → Db
    → Rejection ⊎ Row transaction
update_references h p c n r db =
    settle_references db r.columns.category_id p.destination_amount r.columns.destination_amount
      (changed_transaction h p c n r db)

-- What an `update` of a live row at its version refuses.
abbrev pub IsRefusedPatch :
    Host → UpdateTransactionPayload → Patched → Row transaction → Db → Rejection → Type 0
IsRefusedPatch h p c r db why =
    ((why ≡ invalid_payload_error) × (patched_amount r.columns.type p.amount ≡ none))
    ⊎ ((n : Option ℤ) × (patched_amount r.columns.type p.amount ≡ some n)
        × (update_references h p c n r db ≡ inl why))

-- What `update` answers.
abbrev pub UpdateTransactionAnswer :
    Host → String → UpdateTransactionPayload → Db → Outcome (Row transaction) → Type 0
UpdateTransactionAnswer h i p db (rejected why) =
    ((why ≡ invalid_payload_error) × (check_patch h p ≡ none))
    ⊎ (((why ≡ not_found_error) × (if_live (read_entity_row db transaction i) ≡ none))
        ⊎ ((r : Row transaction) × (if_live (read_entity_row db transaction i) ≡ some r)
            × (((why ≡ version_conflict_error) × (is_version r.version p.version ≡ false))
                ⊎ ((c : Patched) × (check_patch h p ≡ some c) × IsRefusedPatch h p c r db why))))
UpdateTransactionAnswer h i p db (done row after) =
    (r : Row transaction) × (c : Patched) × (n : Option ℤ) × (if_live
        (read_entity_row db transaction i)
      ≡ some r)
    × (check_patch h p ≡ some c)
    × (is_version r.version p.version ≡ true)
    × (patched_amount r.columns.type p.amount ≡ some n)
    × IsReferred db r.columns.category_id (changed_transaction h p c n r db) row
    × IsQueued transaction db i row after
    × IsSettled after

-- What `remove` answers.
abbrev pub RemoveTransactionAnswer : String → Db → Outcome Unit → Type 0
RemoveTransactionAnswer i db (rejected not_found_error) =
    if_live (read_entity_row db transaction i) ≡ none
RemoveTransactionAnswer i db (rejected _) = ⊥
RemoveTransactionAnswer i db (done _ after) =
    (r : Row transaction) × (if_live (read_entity_row db transaction i) ≡ some r)
    × IsRemoved transaction after i r (is_unborn transaction i r.server_version db)
    × Touches transaction i db after
    × IsSettled after
