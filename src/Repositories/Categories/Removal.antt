-- ===== src/Repositories/Categories/Removal.antt =====
-- packages/local-data/src/repositories/category.ts: what `remove` leaves.
use trata.Prelude.{
  ap, ℕ, ◌≡◌, ◌≢◌, refl, ◌∙◌, inl, inr, String, Bool, true, false, not, ◌||◌, List, [], ◌∷◌, arith,
  any, select, Bool-cases,
}
use trata.Schema.{SyncEntity, category, transaction, Row}
use trata.Db.{Db, Host, read_entity_row, is_deleted, update_entity_row, delete_entity_row}
use trata.Outbox.{enqueue_operation, remove_operations_for}
use trata.Frame.{has_operations, Touches, Touches-trans, Touches-update, Touches-remove}
use trata.Repositories.Values.{set_row}
use trata.Repositories.Actions.{
  counted, is_unborn, buried, wipe_row, tombstone_row, delete_with_tombstone,
}
use trata.Repositories.Queued.{wipe-Touches}
use trata.Repositories.Cascade.{
  IsCovered, select-IsCovered, covered_none, wipe-IsCovered, stamp-IsCovered,
}
use trata.Repositories.Categories.Removing.{
  references, is_referenced, referencing, wipe_all, absorb_one, absorb_all, cascade_payload,
  remove_category_row,
}

-- Two databases agree on a record: its row and whether operations wait for it.
pub record Agrees (a b : Db) (g : SyncEntity) (j : String) : Type 0 where
  pub reads : read_entity_row b g j ≡ read_entity_row a g j
  pub operations : has_operations b g j ≡ has_operations a g j

step :
    {a b c : Db} {t : String} (g : SyncEntity) (j : String)
    → transaction ≢ g
    → Touches transaction t a b
    → Agrees b c g j
    → Agrees a c g j
step g j ne t k = record {
  reads = k.reads ∙ t.rows g j (inl ne);
  operations = k.operations ∙ t.operations g j (inl ne);
}

absorb_one-Touches :
    (stamp : ℕ) (t : Row transaction) (db : Db)
    → Touches transaction t.id db (absorb_one stamp t db)
unfolding absorb_one
absorb_one-Touches stamp t db = elim (Bool-cases (is_unborn transaction t.id t.server_version db)) [
  | inl unborn ↦ rw (unborn, absorb_one) (wipe-Touches transaction t.id db)
  | inr born ↦
      rw (born, absorb_one)
        (Touches-trans (Touches-update transaction t.id db (set_row (buried stamp t)) (λ r. refl))
          (Touches-remove transaction t.id _))
]

module _ (g : SyncEntity) (j : String) (ne : transaction ≢ g) where
  pub wipe_all-Agrees : (ts : List (Row transaction)) (db : Db) → Agrees db (wipe_all ts db) g j
  unfolding wipe_all
  wipe_all-Agrees [] db = record { reads = refl; operations = refl }
  wipe_all-Agrees (t ∷ ts) db =
      step g j ne (wipe-Touches transaction t.id db)
        (wipe_all-Agrees ts (wipe_row transaction t.id db))

  pub absorb_all-Agrees :
      (stamp : ℕ) (ts : List (Row transaction)) (db : Db) → Agrees db (absorb_all stamp ts db) g j
  unfolding absorb_all
  absorb_all-Agrees stamp [] db = record { reads = refl; operations = refl }
  absorb_all-Agrees stamp (t ∷ ts) db =
      step g j ne (absorb_one-Touches stamp t db)
        (absorb_all-Agrees stamp ts (absorb_one stamp t db))

module _ (i : String) where
  dead : (t : Row transaction) → is_deleted t ≡ true → references i t ≡ false
  dead t gone = ground arith

  wipe_all-IsCovered :
      (ts : List (Row transaction)) (db : Db)
      → IsCovered (references i) ts db.tables.transactions
      → IsCovered (references i) [] (wipe_all ts db).tables.transactions
  unfolding wipe_all
  wipe_all-IsCovered [] db c = c
  wipe_all-IsCovered (t ∷ ts) db c =
      wipe_all-IsCovered ts _ (wipe-IsCovered (references i) dead db t ts c)

  absorb_one-IsCovered :
      (stamp : ℕ) (t : Row transaction) (ts : List (Row transaction)) (db : Db)
      → IsCovered (references i) (t ∷ ts) db.tables.transactions
      → IsCovered (references i) ts (absorb_one stamp t db).tables.transactions
  unfolding absorb_one remove_operations_for
  absorb_one-IsCovered stamp t ts db c =
      elim (Bool-cases (is_unborn transaction t.id t.server_version db)) [
        | inl unborn ↦ rw (unborn, absorb_one) (wipe-IsCovered (references i) dead db t ts c)
        | inr born ↦ rw (born, absorb_one) (stamp-IsCovered (references i) dead db stamp t ts c)
      ]

  absorb_all-IsCovered :
      (stamp : ℕ) (ts : List (Row transaction)) (db : Db)
      → IsCovered (references i) ts db.tables.transactions
      → IsCovered (references i) [] (absorb_all stamp ts db).tables.transactions
  unfolding absorb_all
  absorb_all-IsCovered stamp [] db c = c
  absorb_all-IsCovered stamp (t ∷ ts) db c =
      absorb_all-IsCovered stamp ts _ (absorb_one-IsCovered stamp t ts db c)

  -- The category's own deletion writes another table.
  same_transactions :
      (h : Host) (cascade : Bool) (r : Row category) (db : Db)
      → (delete_with_tombstone h category i r (cascade_payload cascade) db).tables.transactions
        ≡ db.tables.transactions
  unfolding delete_with_tombstone wipe_row tombstone_row enqueue_operation remove_operations_for
      update_entity_row delete_entity_row
  same_transactions h cascade r db = elim (Bool-cases (is_unborn category i r.server_version db)) [
    | inl unborn ↦ rw (unborn, delete_with_tombstone)
    | inr born ↦ rw (born, delete_with_tombstone)
  ]

  pub unreferenced :
      (ts : List (Row transaction)) → any (references i) ts ≡ false → select (references i) ts ≡ []
  unfolding select
  unreferenced [] h = refl
  unreferenced (t ∷ ts) h = ground (arith, unreferenced ts)

  pub none_referencing :
      (h : Host) (cascade : Bool) (r : Row category) (db : Db)
      → (cascade || not (is_referenced db i)) ≡ true
      → referencing (remove_category_row h cascade i r db) i ≡ []
  unfolding remove_category_row referencing is_referenced
  none_referencing h cascade r db guard =
      let ts = referencing db i in
      let after = delete_with_tombstone h category i r (cascade_payload cascade) db in
      let same = same_transactions h cascade r db in
      let covered : IsCovered (references i) ts after.tables.transactions =
        rw same (select-IsCovered (references i) db.tables.transactions) in
      elim (Bool-cases (is_unborn category i r.server_version db)) [
        | inl unborn ↦
            rw (unborn, remove_category_row)
              (covered_none (references i) _ (wipe_all-IsCovered ts after covered))
        | inr born ↦ elim (Bool-cases cascade) [
          | inl all ↦
              rw (born, remove_category_row)
                (rw all (
                  rw all at (
                    covered_none (references i) _
                      (absorb_all-IsCovered (h.clock after.calls) ts (counted after) covered))))
          | inr single ↦
              let free : any (references i) db.tables.transactions ≡ false =
                ground (arith, guard, single) in
              rw (born, remove_category_row)
                (rw single (
                  rw single at
                    (ap (select (references i)) same ∙ unreferenced db.tables.transactions free)))
        ]
      ]
