-- ===== src/Engine/Pull/Safety.antt =====
-- `applyPullChange` of sync-engine.ts: the steps, one by one, at the frame, the invariant of the sync
-- columns and the local data.
use mathlib.Core.Option
use trata.Prelude.{ℕ, max, ◌+◌, ◌≡◌, ◌≢◌, refl, sym, ◌∙◌, ap, Bool, false, none, some}
use trata.Schema.{SyncEntity, Row, Columns}
use trata.Db.{Db, Host, read_entity_row, update_entity_row, insert_entity_row}
use trata.Db.Laws.{read-update_self, read-insert_self}
use trata.Outbox.{remove_operations_for}
use trata.Conflicts.{set_revisions, first_pending_op_id, bury}
use trata.Conflicts.DeleteWins.{
  Touches-delete_wins, Touches-local_delete_wins, delete_wins_lem, local_delete_wins_lem,
}
use trata.Conflicts.Resolve.{CleanAt, CleanAt-update, patched}
use trata.Engine.{SyncChangeItem}
use trata.Engine.Pull.{pulled_row, bury_pulled, replace_pulled}
use trata.Engine.Pull.Changes.{
  PullStep, ignored, inserted, refreshed, buried, replaced, converged, remote_delete_wins,
  local_delete_wins, conflicted, version_conflict_of,
}
use trata.Frame.{
  Touches, Touches-refl, Touches-trans, Touches-update, Touches-insert, Touches-remove,
  Touches-same, SameRecords, record_conflict-SameRecords, read-SameRecords,
}
use trata.Frame.Settled.{IsSettled, SettledAt, touch-IsSettled, same-IsSettled}

module _ (h : Host) (e : SyncEntity) (ch : SyncChangeItem) where
  pub conflict_with-SameRecords :
      (row : Row e) (deleted : Bool) (db : Db)
      → SameRecords db (version_conflict_of h e ch row deleted db)
  conflict_with-SameRecords row deleted db = record_conflict-SameRecords h _ db

  -- A reading of the clock is no change to the records.
  counted : (db : Db) (n : ℕ) → SameRecords db (record db { calls = n })
  counted db n = record { tables = refl; outbox = refl }

  pub PullStep-Touches : {a b : Db} → PullStep h e ch a b → Touches e ch.id a b
  PullStep-Touches {a} (ignored i q) = rw q (Touches-refl a)
  PullStep-Touches {a} (inserted n c absent readable q) = rw q (
      Touches-trans (Touches-same e ch.id (counted a (n + 1)))
        (Touches-insert e ch.id (record a { calls = n + 1 }) (pulled_row e ch (h.clock n) c) refl))
  PullStep-Touches {a} (refreshed row news q) =
      rw q (Touches-same e ch.id (conflict_with-SameRecords row _ a))
  PullStep-Touches {a} (buried row n news t q) = rw q (
      Touches-trans (Touches-same e ch.id (counted a (n + 1))) (
        Touches-update e ch.id (record a { calls = n + 1 }) (bury_pulled ch (h.clock n))
          (λ r. refl)))
  PullStep-Touches {a} (replaced row c news readable q) =
      rw q (Touches-update e ch.id a (replace_pulled ch c) (λ r. refl))
  PullStep-Touches {a} (converged row news d t q) = rw q (
      Touches-trans (Touches-update e ch.id a (set_revisions ch.version) (λ r. refl))
        (Touches-remove e ch.id _))
  PullStep-Touches {a} (remote_delete_wins row news l t q) =
      rw q (Touches-delete_wins h e ch.id _ row.server_version ch.version a)
  PullStep-Touches {a} (local_delete_wins row news d u q) =
      rw q (Touches-local_delete_wins h e ch.id _ row.server_version ch.version ch.body _ a)
  PullStep-Touches {a} (conflicted row news l u q) =
      rw q (Touches-same e ch.id (conflict_with-SameRecords row false a))

  inserted-CleanAt :
      (a : Db) (n : ℕ) (c : Columns e)
      → read_entity_row a e ch.id ≡ none
      → CleanAt
          (insert_entity_row e (pulled_row e ch (h.clock n) c) (record a { calls = n + 1 }))
          e
          ch.id
  inserted-CleanAt a n c absent r found =
      let x = pulled_row e ch (h.clock n) c in
      let same : some x ≡ some r =
        sym (
          read-insert_self e ch.id (record a { calls = n + 1 }) x refl
            (unfold read_entity_row in absent))
        ∙ found in
      let is : x ≡ r = cc in rw (← is) refl

  -- What a step leaves of its own record: CLEAN, or with an operation queued.
  pub PullStep-SettledAt : {a b : Db} → PullStep h e ch a b → IsSettled a → SettledAt b e ch.id
  PullStep-SettledAt (ignored i q) s = rw q (s.clean e ch.id)
  PullStep-SettledAt {a} (inserted n c absent readable q) s =
      rw q (λ r found idle. inserted-CleanAt a n c absent r found)
  PullStep-SettledAt {a} (refreshed row news q) s =
      rw q ((same-IsSettled (conflict_with-SameRecords row _ a) s).clean e ch.id)
  PullStep-SettledAt {a} (buried row n news t q) s = rw q (λ r found idle.
      CleanAt-update h e ch.id (record a { calls = n + 1 }) (bury_pulled ch (h.clock n)) (λ r. refl)
        (λ r. refl) r found)
  PullStep-SettledAt {a} (replaced row c news readable q) s = rw q (λ r found idle.
      CleanAt-update h e ch.id a (replace_pulled ch c) (λ r. refl) (λ r. refl) r found)
  PullStep-SettledAt {a} (converged row news d t q) s = rw q (λ r found idle.
      CleanAt-update h e ch.id a (set_revisions ch.version) (λ r. refl) (λ r. refl) r
        (unfold remove_operations_for read_entity_row in found))
  PullStep-SettledAt {a} (remote_delete_wins row news l t q) s = rw q (λ r found idle.
      patched (bury (h.clock a.calls) ch.version) (read_entity_row a e ch.id) r (λ r. refl)
        (sym
            (delete_wins_lem h e ch.id (first_pending_op_id a e ch.id) row.server_version ch.version
              a).0
          ∙ found))
  PullStep-SettledAt {a} (local_delete_wins row news d u q) s = rw q (λ r found idle. cc (
    idle,
    (local_delete_wins_lem h e ch.id (first_pending_op_id a e ch.id) row.server_version ch.version
        ch.body (record { version = ch.version; deleted = false; body = ch.body }) a).2,
  ))
  PullStep-SettledAt {a} (conflicted row news l u q) s =
      rw q ((same-IsSettled (conflict_with-SameRecords row false a) s).clean e ch.id)

  pub PullStep-IsSettled : {a b : Db} → PullStep h e ch a b → IsSettled a → IsSettled b
  PullStep-IsSettled step s = touch-IsSettled (PullStep-Touches step) s (PullStep-SettledAt step s)

  -- The columns and the deletion mark of a DIRTY row that a change leaves: its own, unless both
  -- sides or the server deleted the record.
  abbrev pub KeepsWork : Row e → Db → Type 0
  KeepsWork row after =
      (r : Row e) × (read_entity_row after e ch.id ≡ some r) × (r.columns ≡ row.columns)

  read-patched :
      (a : Db) (row : Row e) (f : Row e → Row e)
      → ((r : Row e) → (f r).id ≡ r.id)
      → ((r : Row e) → (f r).columns ≡ r.columns)
      → read_entity_row a e ch.id ≡ some row
      → KeepsWork row (update_entity_row e ch.id f a)
  read-patched a row f keeps same found =
      (f row, read-update_self e ch.id a f keeps ∙ ap (Option.map f) found, same row)

  pub PullStep-KeepsWork :
      {a b : Db} (row : Row e)
      → PullStep h e ch a b
      → read_entity_row a e ch.id ≡ some row
      → row.version ≢ row.server_version
      → KeepsWork row b
  PullStep-KeepsWork row (ignored i q) found dirty = rw q (row, found, refl)
  PullStep-KeepsWork row (inserted n c absent readable q) found dirty = cc (absent, found)
  PullStep-KeepsWork {a} row (refreshed row2 news q) found dirty =
      rw q (row, read-SameRecords (conflict_with-SameRecords row2 _ a) e ch.id ∙ found, refl)
  PullStep-KeepsWork row (buried row2 n news t q) found dirty =
      let is : row2 ≡ row = cc (news.news.found, found) in absurd (dirty (rw is at news.clean))
  PullStep-KeepsWork row (replaced row2 c news readable q) found dirty =
      let is : row2 ≡ row = cc (news.news.found, found) in absurd (dirty (rw is at news.clean))
  PullStep-KeepsWork {a} row (converged row2 news d t q) found dirty = rw q (
      unfold remove_operations_for read_entity_row in
      (read-patched a row (set_revisions ch.version) (λ r. refl) (λ r. refl) found))
  PullStep-KeepsWork {a} row (remote_delete_wins row2 news l t q) found dirty = rw q (
    bury (h.clock a.calls) ch.version row,
    (delete_wins_lem h e ch.id (first_pending_op_id a e ch.id) row2.server_version ch.version a).0
        ∙ ap (Option.map (bury (h.clock a.calls) ch.version)) found,
    refl,
  )
  PullStep-KeepsWork {a} row (local_delete_wins row2 news d u q) found dirty =
      let f : Row e → Row e =
        λ r. record r { server_version = ch.version; version = max r.version (ch.version + 1) } in
      rw q (
        f row,
        (local_delete_wins_lem h e ch.id (first_pending_op_id a e ch.id) row2.server_version
              ch.version ch.body (record { version = ch.version; deleted = false; body = ch.body })
              a).0
            ∙ ap (Option.map f) found,
        refl,
      )
  PullStep-KeepsWork {a} row (conflicted row2 news l u q) found dirty =
      rw q (row, read-SameRecords (conflict_with-SameRecords row2 false a) e ch.id ∙ found, refl)
