-- ===== src/Repositories/Debtors/Answers.antt =====
-- packages/local-data/src/repositories/debt.ts: what the repository of debtors answers.
use trata.Prelude.{
  ℕ, ◌≡◌, refl, sym, ◌∙◌, inl, inr, String, Bool, true, false, not, ◌||◌, Option, none, some, ◌⊎◌,
  arith, Bool-cases, Option-cases, or_else, is_some, str_eq,
}
use trata.Json.{has}
use trata.Schema.{debtor, Row}
use trata.Db.{Db, Host, read_entity_row}
use trata.Catalog.{currency_values}
use trata.Frame.Settled.{IsSettled}
use trata.Repositories.Values.{
  invalid_payload_error, already_exists_error, not_found_error, version_conflict_error, Outcome,
  rejected, done, trim, if_live, is_empty,
}
use trata.Repositories.Actions.{after_id, is_version}
use trata.Repositories.Queued.{
  IsQueued, queued-IsSettled, read-after_id, insert-IsQueued, change-IsQueued, live_found,
}
use trata.Repositories.Debtors.{
  to_debtor, has_duplicate_debtor_name, CreateDebtorPayload, default_currency, new_debtor,
  create_debtor_row, create_debtor, UpdateDebtorPayload, renamed_debtor, update_debtor_row,
  update_debtor,
}

abbrev pub debtor_id : Host → CreateDebtorPayload → Db → String
debtor_id h p db = or_else p.id (h.generate_id db.calls)

abbrev pub debtor_name : CreateDebtorPayload → String
debtor_name p = trim (or_else p.name "")

abbrev pub debtor_currency : CreateDebtorPayload → String
debtor_currency p = or_else p.currency default_currency

-- Which payloads `create` refuses.
abbrev pub is_bad_debtor : CreateDebtorPayload → Bool
is_bad_debtor p = is_empty (debtor_name p) || not (has currency_values (debtor_currency p))

-- What `create` answers.
abbrev pub CreateDebtorAnswer : Host → CreateDebtorPayload → Db → Outcome (Row debtor) → Type 0
CreateDebtorAnswer h p db (rejected invalid_payload_error) = is_bad_debtor p ≡ true
CreateDebtorAnswer h p db (rejected already_exists_error) =
    (has_duplicate_debtor_name db (debtor_name p) none
      || is_some (read_entity_row db debtor (debtor_id h p db)))
    ≡ true
CreateDebtorAnswer h p db (rejected _) = ⊥
CreateDebtorAnswer h p db (done row after) =
    (is_bad_debtor p ≡ false)
    × (has_duplicate_debtor_name db (debtor_name p) none ≡ false)
    × (read_entity_row db debtor row.id ≡ none)
    × (row ≡ new_debtor h (debtor_id h p db) (debtor_name p) (debtor_currency p) (after_id p.id db))
    × IsQueued debtor db row.id row after
    × IsSettled after

same_names :
    (o : Option String) (db : Db) (name : String) (except : Option String)
    → has_duplicate_debtor_name (after_id o db) name except
      ≡ has_duplicate_debtor_name db name except
unfolding has_duplicate_debtor_name
same_names none db name except = refl
same_names (some _) db name except = refl

create_debtor_row-CreateDebtorAnswer :
    (h : Host) (p : CreateDebtorPayload) (db : Db)
    → IsSettled db
    → is_bad_debtor p ≡ false
    → CreateDebtorAnswer h p db (
        create_debtor_row h
          (debtor_id h p db)
          (debtor_name p)
          (debtor_currency p)
          (after_id p.id db))
unfolding create_debtor_row
create_debtor_row-CreateDebtorAnswer h p db s good =
    let i = debtor_id h p db in
    let begun = after_id p.id db in
    let names = same_names p.id db (debtor_name p) none in
    elim (Bool-cases (has_duplicate_debtor_name begun (debtor_name p) none)) [
      | inl used ↦ rw (used, create_debtor_row) (ground (arith, names, used))
      | inr unused ↦ elim (Option-cases (read_entity_row begun debtor i)) [
        | inr (r, taken) ↦
            let there = sym (read-after_id debtor p.id db i) ∙ taken in
            rw (unused, taken, create_debtor_row) (ground (arith, there))
        | inl free ↦
            let row = new_debtor h i (debtor_name p) (debtor_currency p) begun in
            let fresh = sym (read-after_id debtor p.id db i) ∙ free in
            let queued = insert-IsQueued debtor h p.id row (to_debtor row) db fresh in
            rw (unused, free, create_debtor_row)
              (
                good,
                sym names ∙ unused,
                fresh,
                refl,
                queued,
                queued-IsSettled debtor i row queued s,
              )
      ]
    ]

pub create_debtor_lem :
    (h : Host) (p : CreateDebtorPayload) (db : Db)
    → IsSettled db
    → CreateDebtorAnswer h p db (create_debtor h p db)
unfolding create_debtor
create_debtor_lem h p db s = elim (Bool-cases (is_empty (debtor_name p))) [
  | inl empty ↦ rw (empty, create_debtor) (ground arith)
  | inr named ↦ elim (Bool-cases (has currency_values (debtor_currency p))) [
    | inr unknown_code ↦ rw (named, unknown_code, create_debtor) (ground arith)
    | inl code ↦
        rw (named, code, create_debtor)
          (create_debtor_row-CreateDebtorAnswer h p db s (ground arith))
  ]
]

abbrev pub is_bad_name : Option String → Bool
is_bad_name none = true
is_bad_name (some name) = is_empty (trim name)

-- What `update` answers.
abbrev pub UpdateDebtorAnswer : String → UpdateDebtorPayload → Db → Outcome (Row debtor) → Type 0
UpdateDebtorAnswer i p db (rejected invalid_payload_error) =
    (is_bad_name p.name ≡ true)
    ⊎ ((r : Row debtor) × (if_live (read_entity_row db debtor i) ≡ some r)
        × (str_eq (trim (or_else p.name "")) r.columns.name ≡ true))
UpdateDebtorAnswer i p db (rejected not_found_error) = if_live (read_entity_row db debtor i) ≡ none
UpdateDebtorAnswer i p db (rejected version_conflict_error) =
    (r : Row debtor) × (if_live (read_entity_row db debtor i) ≡ some r)
    × (is_version r.version p.version ≡ false)
UpdateDebtorAnswer i p db (rejected already_exists_error) =
    has_duplicate_debtor_name db (trim (or_else p.name "")) (some i) ≡ true
UpdateDebtorAnswer i p db (rejected _) = ⊥
UpdateDebtorAnswer i p db (done row after) =
    (r : Row debtor) × (if_live (read_entity_row db debtor i) ≡ some r)
    × (is_version r.version p.version ≡ true)
    × (has_duplicate_debtor_name db (trim (or_else p.name "")) (some i) ≡ false)
    × (row ≡ renamed_debtor (trim (or_else p.name "")) r)
    × IsQueued debtor db i row after
    × IsSettled after

update_debtor_row-UpdateDebtorAnswer :
    (h : Host) (i name : String) (version : Option ℕ) (db : Db)
    → IsSettled db
    → UpdateDebtorAnswer i
        (record { name = some name; version = version })
        db
        (update_debtor_row h i (trim name) version db)
unfolding update_debtor_row
update_debtor_row-UpdateDebtorAnswer h i name version db s =
    elim (Option-cases (if_live (read_entity_row db debtor i))) [
      | inl absent ↦ rw (absent, update_debtor_row) absent
      | inr (r, live) ↦ elim (Bool-cases (is_version r.version version)) [
        | inr stale ↦ rw (live, update_debtor_row) (rw stale (r, live, stale))
        | inl current ↦ elim (Bool-cases (str_eq (trim name) r.columns.name)) [
          | inl same ↦ rw (live, update_debtor_row) (rw (current, same) (inr (r, live, same)))
          | inr differs ↦ elim (Bool-cases (has_duplicate_debtor_name db (trim name) (some i))) [
            | inl used ↦ rw (live, update_debtor_row) (rw (current, differs, used) used)
            | inr unused ↦
                let next = renamed_debtor (trim name) r in
                let q =
                  change-IsQueued debtor h i r next (to_debtor next) db
                    (live_found debtor db i r live) refl in
                rw (live, update_debtor_row)
                  (rw (current, differs, unused)
                    (r, live, current, unused, refl, q, queued-IsSettled debtor i next q s))
          ]
        ]
      ]
    ]

pub update_debtor_lem :
    (h : Host) (i : String) (p : UpdateDebtorPayload) (db : Db)
    → IsSettled db
    → UpdateDebtorAnswer i p db (update_debtor h i p db)
unfolding update_debtor
update_debtor_lem h i p db s = by_name p.name refl
  where
    by_name : (o : Option String) → p.name ≡ o → UpdateDebtorAnswer i p db (update_debtor h i p db)
    by_name none q = rw (q, update_debtor) (inl refl)
    by_name (some name) q = elim (Bool-cases (is_empty (trim name))) [
      | inl blank ↦ rw (q, blank, update_debtor) (inl blank)
      | inr named ↦
          rw (q, named, update_debtor)
            (update_debtor_row-UpdateDebtorAnswer h i name p.version db s)
    ]
