-- ===== src/Repositories/Categories/Answers.antt =====
-- packages/local-data/src/repositories/category.ts: what the repository of categories answers.
use trata.Prelude.{
  ◌+◌, ◌≡◌, refl, sym, ◌∙◌, inl, inr, String, Bool, true, false, not, ◌&&◌, ◌||◌, Option, none,
  some, arith, Bool-cases, Option-cases, or_else, is_some, str_eq,
}
use trata.Json.{has}
use trata.Schema.{category, Row}
use trata.Db.{Db, Host, read_entity_row}
use trata.Catalog.{category_type_values}
use trata.Frame.{Touches}
use trata.Frame.Settled.{IsSettled}
use trata.Repositories.Values.{
  invalid_payload_error, already_exists_error, not_found_error, version_conflict_error,
  referential_integrity_error, Outcome, rejected, done, trim, if_live, is_empty,
}
use trata.Repositories.Actions.{after_id, is_version}
use trata.Repositories.Queued.{
  IsQueued, queued-IsSettled, read-after_id, insert-IsQueued, change_later-IsQueued, live_found,
  counted-Touches,
}
use trata.Repositories.Categories.{
  to_category, has_duplicate_name, has_live_plans, CreateCategoryPayload, new_category,
  create_category_row, create_category, UpdateCategoryPayload, next_name, after_archived,
  changed_category, is_set, is_bad_update, update_category_row, update_category,
}
use trata.Repositories.Categories.Removing.{remove_category}
use trata.Repositories.Categories.Removed.{RemoveCategoryAnswer, remove_category_lem}

abbrev pub category_id : Host → CreateCategoryPayload → Db → String
category_id h p db = or_else p.id (h.generate_id db.calls)

abbrev pub category_name : CreateCategoryPayload → String
category_name p = trim (or_else p.name "")

-- Which payloads `create` refuses.
abbrev pub is_bad_category : CreateCategoryPayload → Bool
is_bad_category p =
    is_empty (category_name p)
    || (not (has category_type_values p.type) || (is_empty p.icon || is_empty p.color))

-- What `create` answers.
abbrev pub CreateCategoryAnswer :
    Host → CreateCategoryPayload → Db → Outcome (Row category) → Type 0
CreateCategoryAnswer h p db (rejected invalid_payload_error) = is_bad_category p ≡ true
CreateCategoryAnswer h p db (rejected already_exists_error) =
    (has_duplicate_name db (category_name p) none
      || is_some (read_entity_row db category (category_id h p db)))
    ≡ true
CreateCategoryAnswer h p db (rejected _) = ⊥
CreateCategoryAnswer h p db (done row after) =
    (is_bad_category p ≡ false)
    × (has_duplicate_name db (category_name p) none ≡ false)
    × (read_entity_row db category row.id ≡ none)
    × (row ≡ new_category h (category_id h p db) (category_name p) p (after_id p.id db))
    × IsQueued category db row.id row after
    × IsSettled after

same_names :
    (o : Option String) (db : Db) (name : String) (except : Option String)
    → has_duplicate_name (after_id o db) name except ≡ has_duplicate_name db name except
unfolding has_duplicate_name
same_names none db name except = refl
same_names (some _) db name except = refl

create_category_row-CreateCategoryAnswer :
    (h : Host) (p : CreateCategoryPayload) (db : Db)
    → IsSettled db
    → is_bad_category p ≡ false
    → CreateCategoryAnswer h p db
        (create_category_row h (category_id h p db) (category_name p) p (after_id p.id db))
unfolding create_category_row
create_category_row-CreateCategoryAnswer h p db s good =
    let i = category_id h p db in
    let begun = after_id p.id db in
    let names = same_names p.id db (category_name p) none in
    elim (Bool-cases (has_duplicate_name begun (category_name p) none)) [
      | inl used ↦ rw (used, create_category_row) (ground (arith, names, used))
      | inr unused ↦ elim (Option-cases (read_entity_row begun category i)) [
        | inr (r, taken) ↦
            let there = sym (read-after_id category p.id db i) ∙ taken in
            rw (unused, taken, create_category_row) (ground (arith, there))
        | inl free ↦
            let row = new_category h i (category_name p) p begun in
            let fresh = sym (read-after_id category p.id db i) ∙ free in
            let queued = insert-IsQueued category h p.id row (to_category row) db fresh in
            rw (unused, free, create_category_row)
              (
                good,
                sym names ∙ unused,
                fresh,
                refl,
                queued,
                queued-IsSettled category i row queued s,
              )
      ]
    ]

create_category_lem :
    (h : Host) (p : CreateCategoryPayload) (db : Db)
    → IsSettled db
    → CreateCategoryAnswer h p db (create_category h p db)
unfolding create_category
create_category_lem h p db s = elim (Bool-cases (is_empty (category_name p))) [
  | inl empty ↦ rw (empty, create_category) (ground arith)
  | inr named ↦ elim (Bool-cases (has category_type_values p.type)) [
    | inr untyped ↦ rw (named, untyped, create_category) (ground arith)
    | inl typed ↦ elim (Bool-cases (is_empty p.icon)) [
      | inl plain ↦ rw (named, typed, plain, create_category) (ground arith)
      | inr icon ↦ elim (Bool-cases (is_empty p.color)) [
        | inl bare ↦ rw (named, typed, icon, bare, create_category) (ground arith)
        | inr color ↦
            rw (named, typed, icon, color, create_category)
              (create_category_row-CreateCategoryAnswer h p db s (ground arith))
      ]
    ]
  ]
]

-- Another live category has the new name.
abbrev pub is_name_taken : String → UpdateCategoryPayload → Row category → Db → Bool
is_name_taken i p r db =
    not (str_eq (next_name p.name r.columns.name) r.columns.name)
    && has_duplicate_name db (next_name p.name r.columns.name) (some i)

-- What `update` answers.
abbrev pub UpdateCategoryAnswer :
    Host → String → UpdateCategoryPayload → Db → Outcome (Row category) → Type 0
UpdateCategoryAnswer h i p db (rejected invalid_payload_error) = is_bad_update p ≡ true
UpdateCategoryAnswer h i p db (rejected not_found_error) =
    if_live (read_entity_row db category i) ≡ none
UpdateCategoryAnswer h i p db (rejected version_conflict_error) =
    (r : Row category) × (if_live (read_entity_row db category i) ≡ some r)
    × (is_version r.version p.version ≡ false)
UpdateCategoryAnswer h i p db (rejected already_exists_error) =
    (r : Row category) × (if_live (read_entity_row db category i) ≡ some r)
    × (is_name_taken i p r db ≡ true)
UpdateCategoryAnswer h i p db (rejected referential_integrity_error) =
    (is_set p.archived && has_live_plans db i) ≡ true
UpdateCategoryAnswer h i p db (rejected _) = ⊥
UpdateCategoryAnswer h i p db (done row after) =
    (r : Row category) × (if_live (read_entity_row db category i) ≡ some r)
    × (is_bad_update p ≡ false)
    × (is_version r.version p.version ≡ true)
    × (is_name_taken i p r db ≡ false)
    × ((is_set p.archived && has_live_plans db i) ≡ false)
    × (row ≡ changed_category h p r db)
    × IsQueued category db i row after
    × IsSettled after

Touches-after_archived :
    (o : Option Bool) (db : Db) (i : String) → Touches category i db (after_archived o db)
Touches-after_archived none db i = counted-Touches category i db db.calls
Touches-after_archived (some true) db i = counted-Touches category i db (db.calls + 1)
Touches-after_archived (some false) db i = counted-Touches category i db db.calls

read-after_archived :
    (o : Option Bool) (db : Db) (i : String)
    → read_entity_row (after_archived o db) category i ≡ read_entity_row db category i
unfolding read_entity_row
read-after_archived none db i = refl
read-after_archived (some true) db i = refl
read-after_archived (some false) db i = refl

update_category_row-UpdateCategoryAnswer :
    (h : Host) (i : String) (p : UpdateCategoryPayload) (db : Db)
    → IsSettled db
    → is_bad_update p ≡ false
    → UpdateCategoryAnswer h i p db (update_category_row h i p db)
unfolding update_category_row
update_category_row-UpdateCategoryAnswer h i p db s good =
    elim (Option-cases (if_live (read_entity_row db category i))) [
      | inl absent ↦ rw (absent, update_category_row) absent
      | inr (r, live) ↦ elim (Bool-cases (is_version r.version p.version)) [
        | inr stale ↦ rw (live, update_category_row) (rw stale (r, live, stale))
        | inl current ↦ elim (Bool-cases (is_name_taken i p r db)) [
          | inl used ↦ rw (live, update_category_row) (rw (current, used) (r, live, used))
          | inr unused ↦ elim (Bool-cases (is_set p.archived && has_live_plans db i)) [
            | inl planned ↦ rw (live, update_category_row) (rw (current, unused, planned) planned)
            | inr free ↦
                let next = changed_category h p r db in
                let q =
                  change_later-IsQueued category h i r next (to_category next) db
                    (after_archived p.archived db) (Touches-after_archived p.archived db i)
                    (read-after_archived p.archived db i ∙ live_found category db i r live) refl in
                rw (live, update_category_row)
                  (rw (current, unused, free)
                    (
                      r,
                      live,
                      good,
                      current,
                      unused,
                      free,
                      refl,
                      q,
                      queued-IsSettled category i next q s,
                    ))
          ]
        ]
      ]
    ]

update_category_lem :
    (h : Host) (i : String) (p : UpdateCategoryPayload) (db : Db)
    → IsSettled db
    → UpdateCategoryAnswer h i p db (update_category h i p db)
unfolding update_category
update_category_lem h i p db s = elim (Bool-cases (is_bad_update p)) [
  | inl bad ↦ rw (bad, update_category) bad
  | inr good ↦ rw (good, update_category) (update_category_row-UpdateCategoryAnswer h i p db s good)
]

pub category_repository_lem :
    (h : Host) (db : Db)
    → IsSettled db
    → ((p : CreateCategoryPayload) → CreateCategoryAnswer h p db (create_category h p db))
      × ((i : String) (p : UpdateCategoryPayload)
          → UpdateCategoryAnswer h i p db (update_category h i p db))
      × ((cascade : Bool) (i : String)
          → RemoveCategoryAnswer cascade i db (remove_category h cascade i db))
category_repository_lem h db s = (
  λ p. create_category_lem h p db s,
  λ i p. update_category_lem h i p db s,
  λ cascade i. remove_category_lem h cascade i db s,
)
