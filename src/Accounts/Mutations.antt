-- ===== src/Accounts/Mutations.antt =====
-- packages/local-data/src/repositories/account.ts: what `create`, `update` and `remove` leave.
use trata.Prelude.{
  ℕ, ◌+◌, ◌≡◌, refl, sym, ◌∙◌, inl, inr, String, Bool, true, false, not, ◌||◌, Option, none, some,
  arith, Bool-cases, Option-cases, or_else, str_eq,
}
use trata.Prelude.Int.{ℤ}
use trata.Json.{as_int, has}
use trata.Schema.{account, Row}
use trata.Db.{Db, Host, read_entity_row}
use trata.Catalog.{currency_values}
use trata.Frame.Settled.{IsSettled}
use trata.Repositories.Values.{
  invalid_payload_error, already_exists_error, not_found_error, version_conflict_error, Outcome,
  rejected, done, if_live, trim,
}
use trata.Repositories.Actions.{is_version, after_id}
use trata.Repositories.Queued.{
  IsQueued, queued-IsSettled, read-after_id, insert-IsQueued, change-IsQueued, live_found,
}
use trata.Accounts.Balance.{AccountWithBalance}
use trata.Accounts.Creation.{CreateAccountPayload, new_account, to_account, create_with, create}
use trata.Accounts.Updating.{UpdateAccountPayload, renamed, update_row, update_account}

-- The id of a new account: the payload's, or a generated one.
abbrev pub chosen_id : Host → CreateAccountPayload → Db → String
chosen_id h p db = or_else p.id (h.generate_id db.calls)

-- The name that is stored.
abbrev pub chosen_name : CreateAccountPayload → String
chosen_name p = trim (or_else p.name "")

-- Which payloads `create` refuses.
abbrev pub is_bad_payload : CreateAccountPayload → Bool
is_bad_payload p =
    str_eq (chosen_name p) ""
    || (not (has currency_values p.currency)
        || (elim (as_int (some p.opening_balance)) [ none ↦ true | some _ ↦ false ]))

-- What a mutation answers: its rejection with the reason, or a queued change that settles.
abbrev pub CreateAnswer : Host → CreateAccountPayload → Db → Outcome AccountWithBalance → Type 0
CreateAnswer h p db (rejected invalid_payload_error) = is_bad_payload p ≡ true
CreateAnswer h p db (rejected already_exists_error) =
    (r : Row account) × (read_entity_row db account (chosen_id h p db) ≡ some r)
CreateAnswer h p db (rejected _) = ⊥
CreateAnswer h p db (done a after) =
    (is_bad_payload p ≡ false)
    × (a.row.id ≡ chosen_id h p db)
    × (a.row.columns.name ≡ chosen_name p)
    × (a.row.columns.currency ≡ p.currency)
    × (as_int (some p.opening_balance) ≡ some a.row.columns.opening_balance)
    × (a.row.deleted_at ≡ none)
    × (a.row.version ≡ 1)
    × (a.row.server_version ≡ 0)
    × (read_entity_row db account a.row.id ≡ none)
    × IsQueued account db (chosen_id h p db) a.row after
    × IsSettled after

create_with-CreateAnswer :
    (h : Host) (p : CreateAccountPayload) (n : ℤ) (db : Db)
    → IsSettled db
    → is_bad_payload p ≡ false
    → as_int (some p.opening_balance) ≡ some n
    → CreateAnswer h p db
        (create_with h (chosen_id h p db) (chosen_name p) p.currency n (after_id p.id db))
unfolding create_with
create_with-CreateAnswer h p n db s good reads =
    let i = chosen_id h p db in
    let begun = after_id p.id db in
    elim (Option-cases (read_entity_row begun account i)) [
      | inr (r, taken) ↦ rw (taken, create_with) (r, sym (read-after_id account p.id db i) ∙ taken)
      | inl free ↦
          let fresh = sym (read-after_id account p.id db i) ∙ free in
          let row = new_account h i (chosen_name p) p.currency n begun in
          let queued = insert-IsQueued account h p.id row (to_account row) db fresh in
          rw (free, create_with)
            (
              good,
              refl,
              refl,
              refl,
              reads,
              refl,
              refl,
              refl,
              fresh,
              queued,
              queued-IsSettled account i row queued s,
            )
    ]

-- `create` on a database whose records without queued operations are CLEAN: a bad payload and a taken
-- id are refused for that reason; else the account is stored under the chosen id and the trimmed name,
-- at version 1 and unconfirmed, with an operation queued, no other record is touched, and the records without queued
-- operations are CLEAN again.
pub create_lem :
    (h : Host) (p : CreateAccountPayload) (db : Db)
    → IsSettled db
    → CreateAnswer h p db (create h p db)
unfolding create
create_lem h p db s = elim (Bool-cases (str_eq (chosen_name p) "")) [
  | inl empty ↦ rw (empty, create) (ground arith)
  | inr named ↦ elim (Bool-cases (has currency_values p.currency)) [
    | inr unknown_code ↦ rw (named, unknown_code, create) (ground arith)
    | inl code ↦ elim (Option-cases (as_int (some p.opening_balance))) [
      | inl unsafe ↦ rw (named, code, unsafe, create) (ground arith)
      | inr (n, safe) ↦
          rw (named, code, safe, create) (create_with-CreateAnswer h p n db s (ground arith) safe)
    ]
  ]
]

abbrev pub is_bad_name : Option String → Bool
is_bad_name none = true
is_bad_name (some name) = str_eq (trim name) ""

-- What `update` answers.
abbrev pub UpdateAnswer : String → UpdateAccountPayload → Db → Outcome AccountWithBalance → Type 0
UpdateAnswer i p db (rejected invalid_payload_error) = is_bad_name p.name ≡ true
UpdateAnswer i p db (rejected not_found_error) = if_live (read_entity_row db account i) ≡ none
UpdateAnswer i p db (rejected version_conflict_error) =
    (r : Row account) × (if_live (read_entity_row db account i) ≡ some r)
    × (is_version r.version p.version ≡ false)
UpdateAnswer i p db (rejected _) = ⊥
UpdateAnswer i p db (done a after) =
    (r : Row account) × (if_live (read_entity_row db account i) ≡ some r)
    × (is_version r.version p.version ≡ true)
    × (a.row ≡ record r {
      columns = record r.columns { name = trim (or_else p.name "") };
      version = r.version + 1;
    })
    × IsQueued account db i a.row after
    × IsSettled after

update_row-UpdateAnswer :
    (h : Host) (i name : String) (version : Option ℕ) (db : Db)
    → IsSettled db
    → UpdateAnswer i
        (record { name = some name; version = version })
        db
        (update_row h i (trim name) version db)
unfolding update_row
update_row-UpdateAnswer h i name version db s =
    elim (Option-cases (if_live (read_entity_row db account i))) [
      | inl absent ↦ rw (absent, update_row) absent
      | inr (r, live) ↦ elim (Bool-cases (is_version r.version version)) [
        | inr stale ↦ rw (live, update_row) (rw stale (r, live, stale))
        | inl current ↦
            let q =
              change-IsQueued account h i r (renamed (trim name) r)
                (to_account (renamed (trim name) r)) db (live_found account db i r live) refl in
            rw (live, update_row)
              (rw current
                (r, live, current, refl, q, queued-IsSettled account i (renamed (trim name) r) q s))
      ]
    ]

-- `update` on a database whose records without queued operations are CLEAN: a missing or blank name, a
-- record that is not live and a version other than the row's are refused, each for its reason; else
-- the row has the trimmed name and the next version, an operation is queued, no other record is
-- touched, and the records without queued operations are CLEAN again.
pub update_account_lem :
    (h : Host) (i : String) (p : UpdateAccountPayload) (db : Db)
    → IsSettled db
    → UpdateAnswer i p db (update_account h i p db)
unfolding update_account
update_account_lem h i p db s = by_name p.name refl
  where
    by_name : (o : Option String) → p.name ≡ o → UpdateAnswer i p db (update_account h i p db)
    by_name none q = rw (q, update_account) refl
    by_name (some name) q = elim (Bool-cases (str_eq (trim name) "")) [
      | inl blank ↦ rw (q, blank, update_account) blank
      | inr named ↦ rw (q, named, update_account) (update_row-UpdateAnswer h i name p.version db s)
    ]
