-- ===== src/Outbox/Confirm.antt =====
-- packages/local-data/src/outbox.ts, `applyPushConfirmations`: the outbox, the record and the
-- invariant of the sync columns.
use mathlib.Core.Option
use trata.Prelude.{
  ℕ, ◌≡◌, refl, sym, ◌∙◌, ap, inl, inr, String, Bool, true, false, not, Option, none, some,
  Option-cases, Bool-cases, List, [], ◌∷◌, any, All, first, delete, if◌then◌else◌,
}
use trata.Prelude.Rows.{delete_absent, delete-delete, any-delete_disjoint}
use trata.Schema.{SyncEntity, SyncOutboxRow, Row, op_of}
use trata.Db.{Db, read_entity_row, update_entity_row}
use trata.Db.Laws.{Other, read-update_self}
use trata.Outbox.{
  PushConfirmation, has_op_id, set_server_version, set_version, no_operations_for,
  confirm_operation, apply_confirmation, apply_push_confirmations,
}
use trata.Outbox.Keyed.{SameKey, IsKeyed, found-SameKey, IsKeyed-delete}
use trata.Outbox.Queue.{op_of_elsewhere}
use trata.Frame.{has_operations, Touches, Touches-trans, Touches-update}
use trata.Frame.Settled.{IsSettled, SettledAt, touch-IsSettled}
use trata.Conflicts.Resolve.{patched}

outbox-confirm :
    (c : PushConfirmation) (op : SyncOutboxRow) (db : Db)
    → (confirm_operation c op db).outbox ≡ delete (has_op_id c.op_id) db.outbox
unfolding confirm_operation update_entity_row
outbox-confirm c op db =
    elim (Bool-cases (any (op_of op.entity op.entity_id) (delete (has_op_id c.op_id) db.outbox))) [
      | inl more ↦ rw more
      | inr last ↦ rw last
    ]

confirm_absent :
    (c : PushConfirmation) (db : Db)
    → first (has_op_id c.op_id) db.outbox ≡ none
    → apply_confirmation c db ≡ db
unfolding apply_confirmation
confirm_absent c db absent = rw (absent, apply_confirmation)

confirm_found :
    (c : PushConfirmation) (db : Db) (op : SyncOutboxRow)
    → first (has_op_id c.op_id) db.outbox ≡ some op
    → apply_confirmation c db ≡ confirm_operation c op db
unfolding apply_confirmation
confirm_found c db op found = rw (found, apply_confirmation)

outbox-apply_confirmation :
    (c : PushConfirmation) (db : Db)
    → (apply_confirmation c db).outbox ≡ delete (has_op_id c.op_id) db.outbox
outbox-apply_confirmation c db = elim (Option-cases (first (has_op_id c.op_id) db.outbox)) [
  | inl absent ↦
      rw (confirm_absent c db absent) (sym (delete_absent (has_op_id c.op_id) db.outbox absent))
  | inr (op, found) ↦ rw (confirm_found c db op found) (outbox-confirm c op db)
]

-- `o` is one of the confirmed operations.
abbrev pub is_confirmed : List PushConfirmation → SyncOutboxRow → Bool
is_confirmed cs o = any (λ c. has_op_id c.op_id o) cs

delete_none : {A : Type 0} (xs : List A) → delete (λ x. false) xs ≡ xs
unfolding delete
delete_none [] = refl
delete_none (x ∷ xs) = rw (delete_none xs)

-- Exactly the confirmed operations leave the outbox.
pub outbox-apply_push_confirmations :
    (cs : List PushConfirmation) (db : Db)
    → (apply_push_confirmations cs db).outbox ≡ delete (is_confirmed cs) db.outbox
unfolding apply_push_confirmations
outbox-apply_push_confirmations [] db = sym (delete_none db.outbox)
outbox-apply_push_confirmations (c ∷ cs) db =
    outbox-apply_push_confirmations cs (apply_confirmation c db)
    ∙ ap (delete (is_confirmed cs)) (outbox-apply_confirmation c db)
    ∙ delete-delete (is_confirmed cs) (has_op_id c.op_id) db.outbox

-- What a confirmation writes to its record: the server version, and the version with the last one.
abbrev pub confirm_patch : {e : SyncEntity} → ℕ → Bool → Row e → Row e
confirm_patch v last r =
    if last then record r { server_version = v; version = v } else record r { server_version = v }

abbrev removed : PushConfirmation → Db → Db
removed c db = record db { outbox = delete (has_op_id c.op_id) db.outbox }

read-confirm :
    (c : PushConfirmation) (op : SyncOutboxRow) (db : Db)
    → read_entity_row (confirm_operation c op db) op.entity op.entity_id
      ≡ Option.map
          (confirm_patch c.version (no_operations_for op.entity op.entity_id (removed c db)))
          (read_entity_row db op.entity op.entity_id)
unfolding confirm_operation
read-confirm c op db =
    let e = op.entity in
    let i = op.entity_id in
    let stamped = update_entity_row e i (set_server_version c.version) (removed c db) in
    let once : read_entity_row stamped e i
        ≡ Option.map (set_server_version c.version) (read_entity_row db e i) =
      unfold read_entity_row in
      read-update_self e i (removed c db) (set_server_version c.version) (λ r. refl) in
    elim (Bool-cases (any (op_of e i) (delete (has_op_id c.op_id) db.outbox))) [
      | inl more ↦ rw more once
      | inr last ↦ rw last (
          read-update_self e i stamped (set_version c.version) (λ r. refl)
          ∙ ap (Option.map (set_version c.version)) once
          ∙ twice (read_entity_row db e i))
    ]
  where
    twice :
        (o : Option (Row op.entity))
        → Option.map (set_version c.version) (Option.map (set_server_version c.version) o)
          ≡ Option.map (confirm_patch c.version true) o
    twice none = refl
    twice (some r) = refl

foreign :
    (k : String) (e : SyncEntity) (i : String) (g : SyncEntity) (j : String)
    → Other e i g j
    → (outbox : List SyncOutboxRow) → All (SameKey k e i) outbox
    → All (λ p. has_op_id k p ≡ true → op_of g j p ≡ false) outbox
foreign k e i g j o [] h = tt
foreign k e i g j o (p ∷ ps) (h, hs) =
    ((λ own. op_of_elsewhere e i g j p o (h own)), foreign k e i g j o ps hs)

Touches-confirm :
    (c : PushConfirmation) (op : SyncOutboxRow) (db : Db)
    → All (SameKey c.op_id op.entity op.entity_id) db.outbox
    → Touches op.entity op.entity_id db (confirm_operation c op db)
unfolding confirm_operation
Touches-confirm c op db own =
    let e = op.entity in
    let i = op.entity_id in
    let gone : Touches e i db (removed c db) = record {
      rows = unfold read_entity_row in (λ g j o. refl);
      operations = λ g j o.
          any-delete_disjoint (op_of g j) (has_op_id c.op_id) db.outbox
            (foreign c.op_id e i g j o db.outbox own);
    } in
    let stamped = update_entity_row e i (set_server_version c.version) (removed c db) in
    let marked =
      Touches-trans gone
        (Touches-update e i (removed c db) (set_server_version c.version) (λ r. refl)) in
    elim (Bool-cases (any (op_of e i) (delete (has_op_id c.op_id) db.outbox))) [
      | inl more ↦ rw more marked
      | inr last ↦
          rw last
            (Touches-trans marked (Touches-update e i stamped (set_version c.version) (λ r. refl)))
    ]

confirm-SettledAt :
    (c : PushConfirmation) (op : SyncOutboxRow) (db : Db)
    → SettledAt (confirm_operation c op db) op.entity op.entity_id
confirm-SettledAt c op db r found idle =
    let last : no_operations_for op.entity op.entity_id (removed c db) ≡ true =
      rw (outbox-confirm c op db) at (ap not idle) in
    patched (confirm_patch c.version true) (read_entity_row db op.entity op.entity_id) r (λ s. refl)
      (rw last at (sym (read-confirm c op db) ∙ found))

apply_confirmation-IsSettled :
    (c : PushConfirmation) (db : Db)
    → IsKeyed db.outbox
    → IsSettled db
    → IsSettled (apply_confirmation c db)
apply_confirmation-IsSettled c db k s = elim (Option-cases (first (has_op_id c.op_id) db.outbox)) [
  | inl absent ↦ rw (confirm_absent c db absent) s
  | inr (op, found) ↦ rw (confirm_found c db op found) (
      touch-IsSettled (Touches-confirm c op db (found-SameKey c.op_id op db.outbox k found)) s
        (confirm-SettledAt c op db))
]

-- If operations with one id are of one record and every record without queued operations is CLEAN,
-- both hold after any list of confirmations, whatever versions the server confirmed.
pub apply_push_confirmations-IsSettled :
    (cs : List PushConfirmation) (db : Db)
    → IsKeyed db.outbox
    → IsSettled db
    → IsSettled (apply_push_confirmations cs db) × IsKeyed (apply_push_confirmations cs db).outbox
unfolding apply_push_confirmations
apply_push_confirmations-IsSettled [] db k s = (s, k)
apply_push_confirmations-IsSettled (c ∷ cs) db k s =
    apply_push_confirmations-IsSettled cs (apply_confirmation c db)
      (rw (outbox-apply_confirmation c db) (IsKeyed-delete (has_op_id c.op_id) db.outbox k))
      (apply_confirmation-IsSettled c db k s)

-- A confirmation of a queued operation, where operations with one id are of one record: the record
-- takes the server's version, as its own version too exactly when nothing else of it is queued, and
-- every other record is left alone.
pub confirmation_lem :
    (c : PushConfirmation) (op : SyncOutboxRow) (db : Db)
    → IsKeyed db.outbox
    → first (has_op_id c.op_id) db.outbox ≡ some op
    → let after = apply_confirmation c db in
      (read_entity_row after op.entity op.entity_id
        ≡ Option.map
            (confirm_patch c.version (not (has_operations after op.entity op.entity_id)))
            (read_entity_row db op.entity op.entity_id))
      × Touches op.entity op.entity_id db after
unfolding confirm_operation
confirmation_lem c op db k found = rw (confirm_found c db op found) (
  rw (outbox-confirm c op db) (read-confirm c op db),
  Touches-confirm c op db (found-SameKey c.op_id op db.outbox k found),
)
