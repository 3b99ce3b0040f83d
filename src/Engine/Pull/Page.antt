-- ===== src/Engine/Pull/Page.antt =====
-- `applyPullChange` and the transaction over a page in `pullPhase` of sync-engine.ts, for every
-- record of the database.
use trata.Prelude.{
  ℕ, ◌≡◌, ◌≢◌, refl, ◌∙◌, inl, inr, String, Bool, some, List, [], ◌∷◌, or_else, Bool-cases,
  if◌then◌else◌,
}
use trata.Schema.{SyncEntity, Row}
use trata.Db.{Db, Host, read_entity_row}
use trata.Meta.{set_pull_cursor, set_meta_value}
use trata.Engine.{SyncChangeItem, ChangeEntity, known, unknown, SyncPullPage, Cycle}
use trata.Engine.Pull.{
  Pulled, apply_known_change, apply_pull_change, apply_pull_changes, apply_page, last_seq,
}
use trata.Engine.Pull.Changes.{apply_known_change-PullStep}
use trata.Engine.Pull.Safety.{PullStep-Touches, PullStep-IsSettled, PullStep-KeepsWork}
use trata.Frame.{SameRecords}
use trata.Frame.Settled.{IsSettled, same-IsSettled, which_record}
use mathlib.Core.Path.{subst}

-- The record still holds the columns of `row`.
abbrev pub KeepsColumns : Db → (g : SyncEntity) → String → Row g → Type 0
KeepsColumns after g j row =
    (r : Row g) × (read_entity_row after g j ≡ some r) × (r.columns ≡ row.columns)

module _ (h : Host) (knows : SyncEntity → Bool) where
  change_cases :
      (P : Db → Type 0) (ch : SyncChangeItem) (p : Pulled)
      → P p.db
      → ((e : SyncEntity) → ch.entity ≡ known e → P (apply_known_change h e ch p).db)
      → P (apply_pull_change h knows ch p).db
  unfolding apply_pull_change
  change_cases P ch p same taken = by_kind ch.entity refl
    where
      by_kind :
          (x : ChangeEntity)
          → ch.entity ≡ x
          → P
              (elim x as (λ _. Pulled) [
                | unknown _ ↦ p
                | known e ↦ if knows e then apply_known_change h e ch p else p
              ]).db
      by_kind (unknown _) q = same
      by_kind (known e) q = elim (Bool-cases (knows e)) [
        | inl known_here ↦ rw known_here (taken e q)
        | inr skipped ↦ rw skipped same
      ]

  change-IsSettled :
      (ch : SyncChangeItem) (p : Pulled)
      → IsSettled p.db
      → IsSettled (apply_pull_change h knows ch p).db
  change-IsSettled ch p s =
      change_cases IsSettled ch p s
        (λ e q. PullStep-IsSettled h e ch (apply_known_change-PullStep h e ch p) s)

  known-KeepsColumns :
      (e : SyncEntity) (ch : SyncChangeItem) (p : Pulled) (g : SyncEntity) (j : String)
      (row : Row g)
      → read_entity_row p.db g j ≡ some row
      → row.version ≢ row.server_version
      → KeepsColumns (apply_known_change h e ch p).db g j row
  known-KeepsColumns e ch p g j row found dirty =
      let step = apply_known_change-PullStep h e ch p in
      elim (which_record e ch.id g j) [
        | inl o ↦ (row, (PullStep-Touches h e ch step).rows g j o ∙ found, refl)
        | inr (k, i) ↦
            subst
              (λ g.
                (row : Row g)
                → read_entity_row p.db g j ≡ some row
                → row.version ≢ row.server_version
                → KeepsColumns (apply_known_change h e ch p).db g j row)
              k
              (subst
                (λ j.
                  (row : Row e)
                  → read_entity_row p.db e j ≡ some row
                  → row.version ≢ row.server_version
                  → KeepsColumns (apply_known_change h e ch p).db e j row)
                i (λ row found dirty. PullStep-KeepsWork h e ch row step found dirty))
              row found dirty
      ]

  -- A pulled change, of whatever kind and record, leaves the columns of every DIRTY row as they
  -- are: unconfirmed local data is not overwritten, also where a deletion wins.
  pub apply_pull_change-KeepsColumns :
      (ch : SyncChangeItem) (p : Pulled) (g : SyncEntity) (j : String) (row : Row g)
      → read_entity_row p.db g j ≡ some row
      → row.version ≢ row.server_version
      → KeepsColumns (apply_pull_change h knows ch p).db g j row
  apply_pull_change-KeepsColumns ch p g j row found dirty =
      change_cases (λ db. KeepsColumns db g j row) ch p (row, found, refl)
        (λ e q. known-KeepsColumns e ch p g j row found dirty)

  changes-IsSettled :
      (chs : List SyncChangeItem) (p : Pulled)
      → IsSettled p.db
      → IsSettled (apply_pull_changes h knows chs p).db
  unfolding apply_pull_changes
  changes-IsSettled [] p s = s
  changes-IsSettled (ch ∷ chs) p s =
      changes-IsSettled chs (apply_pull_change h knows ch p) (change-IsSettled ch p s)

  cursor-SameRecords : (n : ℕ) (db : Db) → SameRecords db (set_pull_cursor n db)
  unfolding set_pull_cursor set_meta_value
  cursor-SameRecords n db = record { tables = refl; outbox = refl }

  -- A pulled page keeps the sync invariant: a record without queued operations is CLEAN after the
  -- page's transaction if every such record was CLEAN before it.
  pub apply_page-IsSettled :
      (cursor : ℕ) (page : SyncPullPage) (c : Cycle)
      → IsSettled c.db
      → IsSettled (apply_page h knows cursor page c).db
  unfolding apply_page
  apply_page-IsSettled cursor page c s =
      same-IsSettled
        (cursor-SameRecords (or_else page.next_cursor (last_seq cursor page.changes)) _)
        (changes-IsSettled page.changes
          (record { db = c.db; wrote = c.wrote; conflicts = c.outcome.conflicts }) s)
