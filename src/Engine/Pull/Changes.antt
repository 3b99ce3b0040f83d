-- ===== src/Engine/Pull/Changes.antt =====
-- `applyPullChange` of sync-engine.ts as a step relation: the branches on a known kind, each with the
-- condition under which it is taken and the database that it leaves.
use trata.Prelude.{
  ℕ, ◌+◌, ◌<◌, ◌≤◌, ◌≡◌, ◌≢◌, refl, ◌∙◌, Bool, Option, if◌then◌else◌, inl, inr, true, false, none,
  some, Option-cases, Bool-cases, arith, leb, ◌==◌, is_some,
}
use trata.Schema.{SyncEntity, Row, Columns, version_conflict}
use trata.Catalog.{row_to_payload, sync_data_to_row_patch}
use trata.Db.{Db, Host, read_entity_row, update_entity_row, insert_entity_row, IsClean}
use trata.Outbox.{remove_operations_for}
use trata.Conflicts.{
  find_unresolved_conflict, record_conflict, first_pending_op_id, apply_delete_wins,
  apply_local_delete_wins,
}
use trata.Engine.{SyncChangeItem, tombstone, upsert_change}
use trata.Engine.Pull.{
  Pulled, has_created_at, upserted_columns, insert_from_change, is_tombstone, conflict_with,
  apply_to_clean, apply_to_dirty, apply_to_row, apply_known_change,
}

-- The row is there, and the change is newer than what the server confirmed of it.
pub record IsNews (e : SyncEntity) (ch : SyncChangeItem) (before : Db) (row : Row e) : Type 0 where
  pub found : read_entity_row before e ch.id ≡ some row
  pub newer : row.server_version < ch.version

-- Besides, no conflict waits on the record, and the row has no unconfirmed local changes.
pub record IsCleanNews (e : SyncEntity) (ch : SyncChangeItem) (before : Db) (row : Row e)
    : Type 0 where
  pub news : IsNews e ch before row
  pub quiet : find_unresolved_conflict before e ch.id ≡ none
  pub clean : IsClean row

-- Or it has some.
pub record IsDirtyNews (e : SyncEntity) (ch : SyncChangeItem) (before : Db) (row : Row e)
    : Type 0 where
  pub news : IsNews e ch before row
  pub quiet : find_unresolved_conflict before e ch.id ≡ none
  pub dirty : row.version ≢ row.server_version

-- The version conflict that the change leaves: what was confirmed of the row, its local state, and
-- the server's.
abbrev pub version_conflict_of : Host → (e : SyncEntity) → SyncChangeItem → Row e → Bool → Db → Db
version_conflict_of h e ch row deleted db =
    record_conflict h
      (record {
        entity = e;
        entity_id = ch.id;
        op_id = first_pending_op_id db e ch.id;
        kind = version_conflict;
        base_version = row.server_version;
        server_version = ch.version;
        local_state = row_to_payload e row;
        server_state = some (record { version = ch.version; deleted = deleted; body = ch.body });
      })
      db

conflict_with_lem :
    (h : Host) (e : SyncEntity) (ch : SyncChangeItem) (row : Row e) (deleted : Bool) (db : Db)
    → conflict_with h e ch row deleted db ≡ version_conflict_of h e ch row deleted db
unfolding conflict_with
conflict_with_lem h e ch row deleted db = refl

-- The columns that an upsert carries.
abbrev pub carried : (e : SyncEntity) → SyncChangeItem → Option (Columns e)
carried e ch = elim ch.action [
  | tombstone ↦ none
  | upsert_change ↦ elim ch.body [ none ↦ none | some d ↦ sync_data_to_row_patch e d ]
]

carried_lem : (e : SyncEntity) (ch : SyncChangeItem) → carried e ch ≡ upserted_columns e ch
unfolding upserted_columns
carried_lem e ch = refl

-- When a change of a known kind is passed over: there is no row and nothing readable to insert; the
-- change is no newer than what the server confirmed; or it is an upsert of a CLEAN row without
-- readable data.
pub data IsIgnored (e : SyncEntity) (ch : SyncChangeItem) (before : Db) : Type 0 where
  nothing_to_insert :
      read_entity_row before e ch.id ≡ none → carried e ch ≡ none → IsIgnored e ch before
  stale :
      (row : Row e)
      → read_entity_row before e ch.id ≡ some row
      → ch.version ≤ row.server_version
      → IsIgnored e ch before
  unreadable :
      (row : Row e)
      → IsCleanNews e ch before row
      → is_tombstone ch.action ≡ false
      → carried e ch ≡ none
      → IsIgnored e ch before

pub data PullStep (h : Host) (e : SyncEntity) (ch : SyncChangeItem) (before after : Db)
    : Type 0 where
  ignored : IsIgnored e ch before → after ≡ before → PullStep h e ch before after
  inserted :
      (n : ℕ) (c : Columns e)
      → read_entity_row before e ch.id ≡ none
      → carried e ch ≡ some c
      → after
        ≡ insert_entity_row e
            (record {
              id = ch.id;
              columns = c;
              version = ch.version;
              server_version = ch.version;
              deleted_at = none;
              created_at = if has_created_at e then some (h.clock n) else none;
              updated_at = none;
              user_id = ch.user_id;
            })
            (record before { calls = n + 1 })
      → PullStep h e ch before after
  refreshed :
      (row : Row e)
      → IsNews e ch before row
      → after ≡ version_conflict_of h e ch row (is_tombstone ch.action) before
      → PullStep h e ch before after
  buried :
      (row : Row e) (n : ℕ)
      → IsCleanNews e ch before row
      → is_tombstone ch.action ≡ true
      → after
        ≡ update_entity_row e ch.id
            (λ r. record r {
              deleted_at = some (h.clock n);
              user_id = ch.user_id;
              version = ch.version;
              server_version = ch.version;
            })
            (record before { calls = n + 1 })
      → PullStep h e ch before after
  replaced :
      (row : Row e) (c : Columns e)
      → IsCleanNews e ch before row
      → carried e ch ≡ some c
      → after
        ≡ update_entity_row e ch.id
            (λ r. record r {
              columns = c;
              user_id = ch.user_id;
              deleted_at = none;
              version = ch.version;
              server_version = ch.version;
            })
            before
      → PullStep h e ch before after
  converged :
      (row : Row e)
      → IsDirtyNews e ch before row
      → is_some row.deleted_at ≡ true
      → is_tombstone ch.action ≡ true
      → after
        ≡ remove_operations_for e ch.id (
            update_entity_row e ch.id
              (λ r. record r { version = ch.version; server_version = ch.version })
              before)
      → PullStep h e ch before after
  remote_delete_wins :
      (row : Row e)
      → IsDirtyNews e ch before row
      → is_some row.deleted_at ≡ false
      → is_tombstone ch.action ≡ true
      → after
        ≡ apply_delete_wins h e ch.id
            (first_pending_op_id before e ch.id)
            row.server_version
            ch.version
            before
      → PullStep h e ch before after
  local_delete_wins :
      (row : Row e)
      → IsDirtyNews e ch before row
      → is_some row.deleted_at ≡ true
      → is_tombstone ch.action ≡ false
      → after
        ≡ apply_local_delete_wins h e ch.id
            (first_pending_op_id before e ch.id)
            row.server_version
            ch.version
            ch.body
            (record { version = ch.version; deleted = false; body = ch.body })
            before
      → PullStep h e ch before after
  conflicted :
      (row : Row e)
      → IsDirtyNews e ch before row
      → is_some row.deleted_at ≡ false
      → is_tombstone ch.action ≡ false
      → after ≡ version_conflict_of h e ch row false before
      → PullStep h e ch before after

module _ (h : Host) (e : SyncEntity) (ch : SyncChangeItem) (p : Pulled) where
  insert-PullStep :
      read_entity_row p.db e ch.id ≡ none → PullStep h e ch p.db (insert_from_change h e ch p).db
  unfolding insert_from_change
  insert-PullStep absent = elim (Option-cases (upserted_columns e ch)) [
    | inl empty ↦
        rw (empty, insert_from_change)
          (ignored (nothing_to_insert absent (carried_lem e ch ∙ empty)) refl)
    | inr (c, readable) ↦
        rw (readable, insert_from_change)
          (inserted p.db.calls c absent (carried_lem e ch ∙ readable) refl)
  ]

  clean-PullStep :
      (row : Row e) → IsCleanNews e ch p.db row → PullStep h e ch p.db (apply_to_clean h e ch p).db
  unfolding apply_to_clean
  clean-PullStep row news = elim (Bool-cases (is_tombstone ch.action)) [
    | inl t ↦ rw (t, apply_to_clean) (buried row p.db.calls news t refl)
    | inr u ↦
        rw (u, apply_to_clean)
          (elim (Option-cases (upserted_columns e ch)) [
            | inl empty ↦ rw empty (ignored (unreadable row news u (carried_lem e ch ∙ empty)) refl)
            | inr (c, readable) ↦
                rw readable (replaced row c news (carried_lem e ch ∙ readable) refl)
          ])
  ]

  dirty-PullStep :
      (row : Row e)
      → IsDirtyNews e ch p.db row
      → PullStep h e ch p.db (apply_to_dirty h e ch row p).db
  unfolding apply_to_dirty
  dirty-PullStep row news = elim (Bool-cases (is_tombstone ch.action)) [
    | inl t ↦ elim (Bool-cases (is_some row.deleted_at)) [
      | inl d ↦ rw (t, d, apply_to_dirty) (converged row news d t refl)
      | inr l ↦ rw (t, l, apply_to_dirty) (remote_delete_wins row news l t refl)
    ]
    | inr u ↦ elim (Bool-cases (is_some row.deleted_at)) [
      | inl d ↦ rw (u, d, apply_to_dirty) (local_delete_wins row news d u refl)
      | inr l ↦
          rw (u, l, apply_to_dirty)
            (conflicted row news l u (conflict_with_lem h e ch row false p.db))
    ]
  ]

  row-PullStep :
      (row : Row e)
      → read_entity_row p.db e ch.id ≡ some row
      → PullStep h e ch p.db (apply_to_row h e ch row p).db
  unfolding apply_to_row
  row-PullStep row found = elim (Bool-cases (leb ch.version row.server_version)) [
    | inl old ↦ rw (old, apply_to_row) (ignored (stale row found (ground arith)) refl)
    | inr news ↦
        let newer : row.server_version < ch.version = ground arith in
        let n : IsNews e ch p.db row = record { found = found; newer = newer } in
        rw (news, apply_to_row)
          (elim (Option-cases (find_unresolved_conflict p.db e ch.id)) [
            | inr (c, waiting) ↦ rw waiting (refreshed row n (conflict_with_lem h e ch row _ p.db))
            | inl quiet ↦ rw quiet (elim (Bool-cases (row.version == row.server_version)) [
              | inl same ↦
                  rw same
                    (clean-PullStep row (record { news = n; quiet = quiet; clean = ground arith }))
              | inr dirty ↦
                  rw dirty
                    (dirty-PullStep row (record { news = n; quiet = quiet; dirty = ground arith }))
            ])
          ])
  ]

  pub apply_known_change-PullStep : PullStep h e ch p.db (apply_known_change h e ch p).db
  unfolding apply_known_change
  apply_known_change-PullStep = elim (Option-cases (read_entity_row p.db e ch.id)) [
    | inl absent ↦ rw (absent, apply_known_change) (insert-PullStep absent)
    | inr (row, found) ↦ rw (found, apply_known_change) (row-PullStep row found)
  ]
