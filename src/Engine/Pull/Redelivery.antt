-- ===== src/Engine/Pull/Redelivery.antt =====
-- `applyPullChange` of sync-engine.ts on a change that the server delivers twice.
use mathlib.Core.Option
use trata.Prelude.{
  ◌+◌, ◌≤◌, ◌≡◌, refl, sym, ◌∙◌, ap, inl, inr, ◌⊎◌, Bool, false, none, some, arith, Option-cases,
  Bool-cases, leb, ◌==◌, is_some,
}
use trata.Schema.{SyncEntity, Row, SyncConflictRow}
use trata.Db.{Db, Host, read_entity_row, update_entity_row}
use trata.Db.Laws.{read-update_self, read-insert_self}
use trata.Outbox.{remove_operations_for}
use trata.Conflicts.{find_unresolved_conflict, set_revisions, first_pending_op_id, bury, rebase_row}
use trata.Conflicts.DeleteWins.{delete_wins_lem, local_delete_wins_lem}
use trata.Conflicts.Records.{find-record_conflict}
use trata.Engine.{SyncChangeItem}
use trata.Engine.Pull.{
  Pulled, pulled_row, bury_pulled, replace_pulled, apply_known_change, is_tombstone,
  upserted_columns, insert_from_change, apply_to_clean, apply_to_dirty, apply_to_row,
}
use trata.Engine.Pull.Changes.{
  PullStep, ignored, inserted, refreshed, buried, replaced, converged, remote_delete_wins,
  local_delete_wins, conflicted, version_conflict_of, IsNews, apply_known_change-PullStep,
}
use trata.Engine.Pull.Safety.{conflict_with-SameRecords}
use trata.Frame.{SameRecords, read-SameRecords}

-- The local side knows the change: the row has its version, or an unresolved conflict is open.
abbrev Knows : SyncEntity → SyncChangeItem → Db → Type 0
Knows e ch db =
    (row : Row e) × (read_entity_row db e ch.id ≡ some row)
    × ((ch.version ≤ row.server_version)
        ⊎ ((c : SyncConflictRow) × (find_unresolved_conflict db e ch.id ≡ some c)))

module _ (h : Host) (e : SyncEntity) (ch : SyncChangeItem) where
  same : (a : Db) → SameRecords a a
  same a = record { tables = refl; outbox = refl }

  patched-Knows :
      (a : Db) (row : Row e) (f : Row e → Row e)
      → ((r : Row e) → (f r).id ≡ r.id)
      → ch.version ≤ (f row).server_version
      → read_entity_row a e ch.id ≡ some row
      → Knows e ch (update_entity_row e ch.id f a)
  patched-Knows a row f keeps level found =
      (f row, read-update_self e ch.id a f keeps ∙ ap (Option.map f) found, inl level)

  conflict-Knows :
      (a : Db) (row : Row e) (deleted : Bool)
      → read_entity_row a e ch.id ≡ some row
      → Knows e ch (version_conflict_of h e ch row deleted a)
  conflict-Knows a row deleted found =
      let (c, waits, _) = find-record_conflict h _ a in
      (
        row,
        read-SameRecords (conflict_with-SameRecords h e ch row deleted a) e ch.id ∙ found,
        inr (_, waits),
      )

  step-Knows : {a b : Db} → PullStep h e ch a b → (b ≡ a) ⊎ Knows e ch b
  step-Knows (ignored i q) = inl q
  step-Knows {a} (inserted n c absent readable q) = inr (
      rw q (
        pulled_row e ch (h.clock n) c,
        read-insert_self e ch.id (record a { calls = n + 1 }) (pulled_row e ch (h.clock n) c) refl
            (unfold read_entity_row in absent),
        inl (omega arith),
      ))
  step-Knows {a} (refreshed row news q) = inr (rw q (conflict-Knows a row _ news.found))
  step-Knows {a} (buried row n news t q) = inr (
      rw q (
        patched-Knows (record a { calls = n + 1 }) row (bury_pulled ch (h.clock n)) (λ r. refl)
          (omega arith) (unfold read_entity_row in news.news.found)))
  step-Knows {a} (replaced row c news readable q) =
      inr
        (rw q (patched-Knows a row (replace_pulled ch c) (λ r. refl) (omega arith) news.news.found))
  step-Knows {a} (converged row news d t q) = inr (
      rw q (
        unfold remove_operations_for read_entity_row find_unresolved_conflict in
        (patched-Knows a row (set_revisions ch.version) (λ r. refl) (omega arith) news.news.found)))
  step-Knows {a} (remote_delete_wins row news l t q) =
      let reads =
        (delete_wins_lem h e ch.id (first_pending_op_id a e ch.id) row.server_version ch.version
          a).0 in
      inr (
        rw q (
          bury (h.clock a.calls) ch.version row,
          reads ∙ ap (Option.map (bury (h.clock a.calls) ch.version)) news.news.found,
          inl (omega arith),
        ))
  step-Knows {a} (local_delete_wins row news d u q) =
      let reads =
        (local_delete_wins_lem h e ch.id (first_pending_op_id a e ch.id) row.server_version
          ch.version ch.body (record { version = ch.version; deleted = false; body = ch.body })
          a).0 in
      inr (
        rw q (
          rebase_row ch.version (some row) row,
          reads ∙ rw news.news.found refl,
          inl (omega arith),
        ))
  step-Knows {a} (conflicted row news l u q) =
      inr (rw q (conflict-Knows a row false news.news.found))

  stale :
      (b : Db) (row other : Row e)
      → IsNews e ch b other
      → read_entity_row b e ch.id ≡ some row
      → (ch.version ≤ row.server_version)
        ⊎ ((c : SyncConflictRow) × (find_unresolved_conflict b e ch.id ≡ some c))
      → find_unresolved_conflict b e ch.id ≡ none
      → ⊥
  stale b row other news found (inl level) quiet =
      let is : other ≡ row = cc (news.found, found) in
      omega (arith, news.newer, level, ap (λ r. r.server_version) is)
  stale b row other news found (inr (c, waits)) quiet = cc (waits, quiet)

  again-SameRecords : {b c : Db} → PullStep h e ch b c → Knows e ch b → SameRecords b c
  again-SameRecords {b} (ignored i q) k = rw q (same b)
  again-SameRecords {b} (inserted n c absent readable q) (row, found, k) = cc (absent, found)
  again-SameRecords {b} (refreshed row news q) k = rw q (conflict_with-SameRecords h e ch row _ b)
  again-SameRecords {b} (buried row n news t q) (row2, found, k) =
      absurd (stale b row2 row news.news found k news.quiet)
  again-SameRecords {b} (replaced row c news readable q) (row2, found, k) =
      absurd (stale b row2 row news.news found k news.quiet)
  again-SameRecords {b} (converged row news d t q) (row2, found, k) =
      absurd (stale b row2 row news.news found k news.quiet)
  again-SameRecords {b} (remote_delete_wins row news l t q) (row2, found, k) =
      absurd (stale b row2 row news.news found k news.quiet)
  again-SameRecords {b} (local_delete_wins row news d u q) (row2, found, k) =
      absurd (stale b row2 row news.news found k news.quiet)
  again-SameRecords {b} (conflicted row news l u q) (row2, found, k) =
      absurd (stale b row2 row news.news found k news.quiet)

  -- The database that a change leaves does not depend on what the cycle has counted so far.
  abbrev fresh : Db → Pulled
  fresh db = record { db = db; wrote = false; conflicts = 0 }

  clean-fresh :
      (p : Pulled) → (apply_to_clean h e ch p).db ≡ (apply_to_clean h e ch (fresh p.db)).db
  unfolding apply_to_clean
  clean-fresh p = elim (Bool-cases (is_tombstone ch.action)) [
    | inl t ↦ rw (t, apply_to_clean) refl
    | inr u ↦
        rw (u, apply_to_clean)
          (elim (Option-cases (upserted_columns e ch)) [
            | inl unreadable ↦ rw unreadable refl
            | inr (c, readable) ↦ rw readable refl
          ])
  ]

  dirty-fresh :
      (row : Row e) (p : Pulled)
      → (apply_to_dirty h e ch row p).db ≡ (apply_to_dirty h e ch row (fresh p.db)).db
  unfolding apply_to_dirty
  dirty-fresh row p = elim (Bool-cases (is_tombstone ch.action)) [
    | inl t ↦ elim (Bool-cases (is_some row.deleted_at)) [
      | inl d ↦ rw (t, d, apply_to_dirty) refl
      | inr l ↦ rw (t, l, apply_to_dirty) refl
    ]
    | inr u ↦ elim (Bool-cases (is_some row.deleted_at)) [
      | inl d ↦ rw (u, d, apply_to_dirty) refl
      | inr l ↦ rw (u, l, apply_to_dirty) refl
    ]
  ]

  row-fresh :
      (row : Row e) (p : Pulled)
      → (apply_to_row h e ch row p).db ≡ (apply_to_row h e ch row (fresh p.db)).db
  unfolding apply_to_row
  row-fresh row p = elim (Bool-cases (leb ch.version row.server_version)) [
    | inl old ↦ rw (old, apply_to_row) refl
    | inr news ↦
        rw (news, apply_to_row)
          (elim (Option-cases (find_unresolved_conflict p.db e ch.id)) [
            | inr (c, waiting) ↦ rw waiting refl
            | inl quiet ↦ rw quiet (elim (Bool-cases (row.version == row.server_version)) [
              | inl clean ↦ rw clean (clean-fresh p)
              | inr dirty ↦ rw dirty (dirty-fresh row p)
            ])
          ])
  ]

  known-fresh :
      (p : Pulled) → (apply_known_change h e ch p).db ≡ (apply_known_change h e ch (fresh p.db)).db
  unfolding apply_known_change insert_from_change
  known-fresh p = elim (Option-cases (read_entity_row p.db e ch.id)) [
    | inl absent ↦
        rw (absent, apply_known_change)
          (elim (Option-cases (upserted_columns e ch)) [
            | inl unreadable ↦ rw (unreadable, insert_from_change) refl
            | inr (c, readable) ↦ rw (readable, insert_from_change) refl
          ])
    | inr (row, found) ↦ rw (found, apply_known_change) (row-fresh row p)
  ]

  -- Delivery is at least once: a change of a known kind that arrives a second time leaves every
  -- entity row and the whole outbox as the first delivery left them.
  pub redelivery :
      (p : Pulled)
      → SameRecords
          (apply_known_change h e ch p).db
          (apply_known_change h e ch (apply_known_change h e ch p)).db
  redelivery p =
      let once = apply_known_change h e ch p in
      elim (step-Knows (apply_known_change-PullStep h e ch p)) [
        | inr k ↦ again-SameRecords (apply_known_change-PullStep h e ch once) k
        | inl q ↦
            let level : (apply_known_change h e ch once).db ≡ once.db =
              known-fresh once
              ∙ ap (λ db. (apply_known_change h e ch (fresh db)).db) q
              ∙ sym (known-fresh p) in
            rw level (same once.db)
      ]
