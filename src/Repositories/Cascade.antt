-- ===== src/Repositories/Cascade.antt =====
-- packages/local-data/src/repositories: removing every row that a reading found leaves none that
-- passes its test.
use trata.Prelude.{
  ℕ, ◌≡◌, refl, sym, inl, inr, Bool, true, false, List, [], ◌∷◌, arith, All, any, select, delete,
  update, Bool-cases, str_eq, eq_iff,
}
use mathlib.Core.Path.{subst}
use trata.Json.{Json}
use trata.Schema.{SyncEntity, Row}
use trata.Db.{Db, Host, get_table, has_id, is_deleted, delete_entity_row, update_entity_row}
use trata.Db.Laws.{get-set_self}
use trata.Outbox.{remove_operations_for, enqueue_operation}
use trata.Repositories.Values.{set_row}
use trata.Repositories.Actions.{is_unborn, buried, wipe_row, tombstone_row, delete_with_tombstone}

module _ {e : SyncEntity} (p : Row e → Bool) where
  -- Every row that passes has its id among the rows still to be removed.
  abbrev pub IsCovered : List (Row e) → List (Row e) → Type 0
  IsCovered os = All (λ x. p x ≡ true → any (λ o. str_eq o.id x.id) os ≡ true)

  IsCovered-cons :
      (o : Row e) (os rows : List (Row e)) → IsCovered os rows → IsCovered (o ∷ os) rows
  IsCovered-cons o os [] h = tt
  IsCovered-cons o os (x ∷ rows) (h, hs) =
      (λ pass. ground (arith, h pass), IsCovered-cons o os rows hs)

  -- The reading itself covers the table.
  pub select-IsCovered : (rows : List (Row e)) → IsCovered (select p rows) rows
  unfolding select
  select-IsCovered [] = tt
  select-IsCovered (x ∷ rows) = elim (Bool-cases (p x)) [
    | inl pass ↦
        let e : select p (x ∷ rows) ≡ x ∷ select p rows = rw (pass, select) in
        subst (λ os. IsCovered os (x ∷ rows)) (sym e)
          (λ q. ground (arith, eq_iff x.id x.id), IsCovered-cons x _ rows (select-IsCovered rows))
    | inr skip ↦
        let e : select p (x ∷ rows) ≡ select p rows = rw (skip, select) in
        subst (λ os. IsCovered os (x ∷ rows)) (sym e) (λ q. cc (q, skip), select-IsCovered rows)
  ]

  delete-IsCovered :
      (o : Row e) (os rows : List (Row e))
      → IsCovered (o ∷ os) rows
      → IsCovered os (delete (has_id o.id) rows)
  unfolding delete
  delete-IsCovered o os [] h = tt
  delete-IsCovered o os (x ∷ rows) (h, hs) = elim (Bool-cases (str_eq x.id o.id)) [
    | inl same ↦ rw (same, delete) (delete-IsCovered o os rows hs)
    | inr ne ↦
        rw (ne, delete)
          (
            λ pass. ground (arith, h pass, eq_iff o.id x.id, eq_iff x.id o.id),
            delete-IsCovered o os rows hs,
          )
  ]

  module _ (f : Row e → Row e) (dead : (x : Row e) → p (f x) ≡ false) where
    update-IsCovered :
        (o : Row e) (os rows : List (Row e))
        → IsCovered (o ∷ os) rows
        → IsCovered os (update (has_id o.id) f rows)
    unfolding update
    update-IsCovered o os [] h = tt
    update-IsCovered o os (x ∷ rows) (h, hs) = elim (Bool-cases (str_eq x.id o.id)) [
      | inl same ↦ rw (same, update) (λ pass. cc (pass, dead x), update-IsCovered o os rows hs)
      | inr ne ↦
          rw (ne, update)
            (
              λ pass. ground (arith, h pass, eq_iff o.id x.id, eq_iff x.id o.id),
              update-IsCovered o os rows hs,
            )
    ]

  -- Nothing left to remove: no row passes.
  pub covered_none : (rows : List (Row e)) → IsCovered [] rows → select p rows ≡ []
  unfolding select
  covered_none [] h = refl
  covered_none (x ∷ rows) (h, hs) = elim (Bool-cases (p x)) [
    | inl pass ↦ cc (h pass)
    | inr skip ↦ rw skip (covered_none rows hs)
  ]

  module _ (dead : (x : Row e) → is_deleted x ≡ true → p x ≡ false) (db : Db) where
    pub wipe-IsCovered :
        (o : Row e) (os : List (Row e))
        → IsCovered (o ∷ os) (get_table e db.tables)
        → IsCovered os (get_table e (wipe_row e o.id db).tables)
    unfolding wipe_row delete_entity_row remove_operations_for
    wipe-IsCovered o os c =
        rw (get-set_self e (delete (has_id o.id) (get_table e db.tables)) db.tables)
          (delete-IsCovered o os _ c)

    pub stamp-IsCovered :
        (stamp : ℕ) (o : Row e) (os : List (Row e))
        → IsCovered (o ∷ os) (get_table e db.tables)
        → IsCovered os (get_table e (update_entity_row e o.id (set_row (buried stamp o)) db).tables)
    unfolding update_entity_row
    stamp-IsCovered stamp o os c =
        let f = set_row (buried stamp o) in
        rw (get-set_self e (update (has_id o.id) f (get_table e db.tables)) db.tables)
          (update-IsCovered f (λ x. dead (f x) refl) o os _ c)

    pub tombstone-IsCovered :
        (h : Host) (o : Row e) (os : List (Row e)) (payload : Json)
        → IsCovered (o ∷ os) (get_table e db.tables)
        → IsCovered os (get_table e (delete_with_tombstone h e o.id o payload db).tables)
    unfolding delete_with_tombstone enqueue_operation tombstone_row update_entity_row
    tombstone-IsCovered h o os payload c =
        elim (Bool-cases (is_unborn e o.id o.server_version db)) [
          | inl unborn ↦ rw (unborn, delete_with_tombstone) (wipe-IsCovered o os c)
          | inr born ↦ rw (born, delete_with_tombstone) (stamp-IsCovered (h.clock db.calls) o os c)
        ]
