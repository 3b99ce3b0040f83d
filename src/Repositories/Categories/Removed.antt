-- ===== src/Repositories/Categories/Removed.antt =====
-- packages/local-data/src/repositories/category.ts: what `remove` answers.
use trata.Prelude.{
  ◌≡◌, refl, ◌∙◌, inl, inr, String, Bool, true, false, not, ◌&&◌, ◌||◌, none, some, [], arith,
  Bool-cases, Option-cases,
}
use trata.Schema.{category, Row}
use trata.Db.{Db, Host, read_entity_row}
use trata.Frame.Settled.{IsSettled}
use trata.Repositories.Values.{
  not_found_error, referential_integrity_error, Outcome, rejected, done, if_live,
}
use trata.Repositories.Actions.{counted, is_unborn, delete_with_tombstone}
use trata.Repositories.Queued.{IsRemoved, delete-IsRemoved, delete-IsSettled, live_found}
use trata.Repositories.Categories.{has_live_plans}
use trata.Repositories.Categories.Removing.{
  is_referenced, referencing, wipe_all, absorb_all, cascade_payload, remove_category_row,
  remove_category,
}
use trata.Repositories.Categories.Removal.{
  Agrees, wipe_all-Agrees, absorb_all-Agrees, unreferenced, none_referencing,
}

-- A deletion without the cascade keeps the records without queued operations CLEAN.
abbrev pub KeepsSettled : Bool → Db → Type 0
KeepsSettled true after = Unit {0}
KeepsSettled false after = IsSettled after

-- What `remove` answers.
abbrev pub RemoveCategoryAnswer : Bool → String → Db → Outcome Unit → Type 0
RemoveCategoryAnswer cascade i db (rejected not_found_error) =
    if_live (read_entity_row db category i) ≡ none
RemoveCategoryAnswer cascade i db (rejected referential_integrity_error) =
    ((not cascade && is_referenced db i) || has_live_plans db i) ≡ true
RemoveCategoryAnswer cascade i db (rejected _) = ⊥
RemoveCategoryAnswer cascade i db (done _ after) =
    (r : Row category) × (if_live (read_entity_row db category i) ≡ some r)
    × (((not cascade && is_referenced db i) || has_live_plans db i) ≡ false)
    × IsRemoved category after i r (is_unborn category i r.server_version db)
    × (referencing after i ≡ [])
    × KeepsSettled cascade after

IsRemoved-trans :
    (b a : Db) (i : String) (r : Row category) (unborn : Bool)
    → Agrees b a category i
    → IsRemoved category b i r unborn
    → IsRemoved category a i r unborn
IsRemoved-trans b a i r true k (gone, idle) = (k.reads ∙ gone, k.operations ∙ idle)
IsRemoved-trans b a i r false k (t, stored, queued) = (t, k.reads ∙ stored, k.operations ∙ queued)

module _ (h : Host) (cascade : Bool) (i : String) (r : Row category) (db : Db)
    (found : read_entity_row db category i ≡ some r) where
  row-IsRemoved :
      IsRemoved category
        (remove_category_row h cascade i r db)
        i
        r
        (is_unborn category i r.server_version db)
  unfolding remove_category_row
  row-IsRemoved =
      let ts = referencing db i in
      let after = delete_with_tombstone h category i r (cascade_payload cascade) db in
      let gone = delete-IsRemoved category h i r (cascade_payload cascade) db found in
      let still : Agrees after (counted after) category i = record {
        reads = unfold read_entity_row in refl;
        operations = refl;
      } in
      let stamp = h.clock after.calls in
      elim (Bool-cases (is_unborn category i r.server_version db)) [
        | inl unborn ↦
            rw (unborn, remove_category_row)
              (IsRemoved-trans after (wipe_all ts after) i r true
                (wipe_all-Agrees category i (λ same. cc same) ts after) (rw unborn at gone))
        | inr born ↦ elim (Bool-cases cascade) [
          | inl all ↦
              rw (born, remove_category_row)
                (rw all (
                  rw all at (
                    IsRemoved-trans (counted after) (absorb_all stamp ts (counted after)) i r false
                      (absorb_all-Agrees category i (λ same. cc same) stamp ts (counted after))
                      (IsRemoved-trans after (counted after) i r false still (rw born at gone)))))
          | inr single ↦ rw (born, remove_category_row) (rw single (rw single at (rw born at gone)))
        ]
      ]

single-IsSettled :
    (h : Host) (i : String) (r : Row category) (db : Db)
    → is_referenced db i ≡ false
    → IsSettled db
    → IsSettled (remove_category_row h false i r db)
unfolding remove_category_row referencing is_referenced wipe_all
single-IsSettled h i r db free s =
    let after = delete_with_tombstone h category i r (cascade_payload false) db in
    let settled = delete-IsSettled category h i r (cascade_payload false) db s in
    elim (Bool-cases (is_unborn category i r.server_version db)) [
      | inl unborn ↦
          rw (unborn, remove_category_row) (rw (unreferenced i db.tables.transactions free) settled)
      | inr born ↦ rw (born, remove_category_row) settled
    ]

keeps :
    (h : Host) (cascade : Bool) (i : String) (r : Row category) (db : Db)
    → (not cascade && is_referenced db i) ≡ false
    → IsSettled db
    → KeepsSettled cascade (remove_category_row h cascade i r db)
keeps h true i r db guard s = tt
keeps h false i r db guard s = single-IsSettled h i r db (ground (arith, guard)) s

pub remove_category_lem :
    (h : Host) (cascade : Bool) (i : String) (db : Db)
    → IsSettled db
    → RemoveCategoryAnswer cascade i db (remove_category h cascade i db)
unfolding remove_category
remove_category_lem h cascade i db s =
    elim (Option-cases (if_live (read_entity_row db category i))) [
      | inl absent ↦ rw (absent, remove_category) absent
      | inr (r, live) ↦ elim (Bool-cases (not cascade && is_referenced db i)) [
        | inl used ↦ rw (live, remove_category) (rw used (ground (arith, used)))
        | inr free ↦ elim (Bool-cases (has_live_plans db i)) [
          | inl planned ↦
              rw (live, remove_category) (rw (free, planned) (ground (arith, free, planned)))
          | inr unplanned ↦
              rw (live, remove_category)
                (rw (free, unplanned)
                  (
                    r,
                    live,
                    ground (arith, free, unplanned),
                    row-IsRemoved h cascade i r db (live_found category db i r live),
                    none_referencing i h cascade r db (ground (arith, free)),
                    keeps h cascade i r db free s,
                  ))
        ]
      ]
    ]
