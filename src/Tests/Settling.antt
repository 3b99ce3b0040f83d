-- ===== src/Tests/Settling.antt =====
-- The pull and the confirmations at the sample database.
use mathlib.Core.Option
use trata.Prelude.{
  any, ◌&&◌, ◌≡◌, refl, inl, inr, String, true, false, not, some, [], ◌∷◌, arith, str_eq, All,
  first, delete, Bool-cases,
}
use trata.Schema.{
  SyncEntity, account, category, transaction, debtor, debt_operation, planned_payment, Row, op_of,
}
use trata.Db.{read_entity_row, IsClean}
use trata.Outbox.{PushConfirmation, has_op_id, apply_confirmation, apply_push_confirmations}
use trata.Outbox.Keyed.{IsKeyed}
use trata.Outbox.Confirm.{
  is_confirmed, confirm_patch, outbox-apply_push_confirmations, apply_push_confirmations-IsSettled,
  confirmation_lem,
}
use trata.Frame.{has_operations, Touches, SameRecords}
use trata.Frame.Settled.{IsSettled}
use trata.Engine.Push.{settle}
use trata.Engine.Push.Results.{IsSound, settle-IsSound}
use trata.Engine.Pull.{Pulled, apply_known_change, apply_pull_change, apply_page}
use trata.Engine.Pull.Page.{KeepsColumns, apply_pull_change-KeepsColumns, apply_page-IsSettled}
use trata.Engine.Pull.Redelivery.{redelivery}
use trata.Tests.{
  confirmed, host, cash, rename_cash, dirty_db, cash_tombstone, tombstone_page, everything, cycle,
}

read_cash :
    (i : String) (r : Row account)
    → read_entity_row dirty_db account i ≡ some r
    → str_eq "cash" i ≡ true
unfolding read_entity_row first
read_cash i r found = elim (Bool-cases (str_eq "cash" i)) [
  | inl own ↦ own
  | inr other ↦ cc ((rw other at found))
]

settled_at :
    (e : SyncEntity) (i : String) (r : Row e)
    → read_entity_row dirty_db e i ≡ some r
    → has_operations dirty_db e i ≡ false
    → IsClean r
unfolding read_entity_row first
settled_at account i r found idle = let own = read_cash i r found in cc ((rw own at idle))
settled_at category i r found idle = cc found
settled_at transaction i r found idle = cc found
settled_at debtor i r found idle = cc found
settled_at debt_operation i r found idle = cc found
settled_at planned_payment i r found idle = cc found

pub dirty_db-IsSettled : IsSettled dirty_db
dirty_db-IsSettled = record { clean = settled_at }

keyed_at :
    (k : String) (e : SyncEntity) (i : String)
    → any (λ o. has_op_id k o && op_of e i o) dirty_db.outbox ≡ true
    → All (λ p. has_op_id k p ≡ true → op_of e i p ≡ true) dirty_db.outbox
keyed_at k e i some_op = (λ own. ground (arith, some_op), tt)

dirty_db-IsKeyed : IsKeyed dirty_db.outbox
dirty_db-IsKeyed = record { keyed = keyed_at }

abbrev pulled : Pulled
pulled = record { db = dirty_db; wrote = false; conflicts = 0 }

abbrev confirmation : PushConfirmation
confirmation = record { op_id = "op1"; version = 2 }

found_cash : read_entity_row dirty_db account "cash" ≡ some (cash 2 1)
unfolding read_entity_row first
found_cash = refl

apply_pull_change-KeepsColumns_example :
    KeepsColumns
      (apply_pull_change host everything cash_tombstone pulled).db
      account
      "cash"
      (cash 2 1)
apply_pull_change-KeepsColumns_example =
    apply_pull_change-KeepsColumns host everything cash_tombstone pulled account "cash" (cash 2 1)
      found_cash (omega arith)

apply_page-IsSettled_example : IsSettled (apply_page host everything 0 tombstone_page cycle).db
apply_page-IsSettled_example =
    apply_page-IsSettled host everything 0 tombstone_page cycle dirty_db-IsSettled

redelivery_example :
    SameRecords
      (apply_known_change host account cash_tombstone pulled).db
      (apply_known_change host account cash_tombstone
        (apply_known_change host account cash_tombstone pulled)).db
redelivery_example = redelivery host account cash_tombstone pulled

apply_push_confirmations-IsSettled_example :
    IsSettled (apply_push_confirmations (confirmation ∷ []) dirty_db)
    × IsKeyed (apply_push_confirmations (confirmation ∷ []) dirty_db).outbox
apply_push_confirmations-IsSettled_example =
    apply_push_confirmations-IsSettled (confirmation ∷ []) dirty_db dirty_db-IsKeyed
      dirty_db-IsSettled

outbox-apply_push_confirmations_example :
    (apply_push_confirmations (confirmation ∷ []) dirty_db).outbox
    ≡ delete (is_confirmed (confirmation ∷ [])) (rename_cash ∷ [])
outbox-apply_push_confirmations_example =
    outbox-apply_push_confirmations (confirmation ∷ []) dirty_db

found_op : first (has_op_id "op1") dirty_db.outbox ≡ some rename_cash
unfolding first
found_op = refl

confirmation_lem_example :
    (read_entity_row (apply_confirmation confirmation dirty_db) account "cash"
      ≡ Option.map
          (confirm_patch 2
            (not (has_operations (apply_confirmation confirmation dirty_db) account "cash")))
          (read_entity_row dirty_db account "cash"))
    × Touches account "cash" dirty_db (apply_confirmation confirmation dirty_db)
confirmation_lem_example =
    confirmation_lem confirmation rename_cash dirty_db dirty_db-IsKeyed found_op

settle-IsSound_example : IsSound (settle host [] (confirmed ∷ []) cycle).0.db
settle-IsSound_example =
    settle-IsSound host [] (confirmed ∷ []) cycle
      (record { settled = dirty_db-IsSettled; keyed = dirty_db-IsKeyed })
