-- ===== src/Repositories/DebtOperations/Answers.antt =====
-- packages/local-data/src/repositories/debt.ts: what the repository of debt operations answers.
use trata.Prelude.{
  ◌+◌, ◌≡◌, refl, sym, ◌∙◌, ap, inl, inr, String, Bool, true, false, not, ◌&&◌, ◌||◌, Option, none,
  some, [], ◌∷◌, arith, Bool-cases, Option-cases, or_else, is_some, any, str_eq,
}
use trata.Prelude.Int.{ℤ}
use trata.Json.{null, has, as_int}
use trata.Repositories.Amounts.{
  is_bad_amount, is_bad_change, given_amount, positive_amount-bad, positive_amount-good,
  optional_amount-bad, optional_amount-good,
}
use trata.Repositories.References.{is_some-find_live}
use trata.Schema.{debt_operation, Row}
use trata.Db.{Db, Host, read_entity_row}
use trata.Frame.{Touches}
use trata.Frame.Settled.{IsSettled}
use trata.Repositories.Values.{
  invalid_payload_error, already_exists_error, not_found_error, version_conflict_error,
  unknown_references_error, Outcome, rejected, done, if_live, optional_amount, positive_amount,
}
use trata.Repositories.Actions.{after_id, is_version, is_unborn}
use trata.Repositories.Queued.{
  IsQueued, IsRemoved, queued-IsSettled, read-after_id, insert_now-IsQueued, change-IsQueued,
  delete-Touches, delete-IsRemoved, delete-IsSettled, live_found,
}
use trata.Repositories.DebtOperations.{
  to_debt_operation, CreateDebtOperationPayload, validate_operation_shape, live_debtor_exists,
  new_debt_operation, create_operation_row, create_debt_operation, UpdateDebtOperationPayload,
  changed_operation, update_operation_row, update_debt_operation, remove_debt_operation,
}

abbrev pub operation_id : Host → CreateDebtOperationPayload → Db → String
operation_id h p db = or_else p.id (h.generate_id db.calls)

-- Which payloads `create` refuses.
abbrev pub is_bad_operation : CreateDebtOperationPayload → Bool
is_bad_operation p =
    str_eq p.debtor_id ""
    || (not (has ("receivable" ∷ "payable" ∷ []) p.direction)
        || (not (has ("debt" ∷ "repayment" ∷ []) p.kind)
            || (is_bad_amount p.amount || str_eq p.occurred_at "")))

validate_operation_shape-bad :
    (p : CreateDebtOperationPayload) → validate_operation_shape p ≡ none → is_bad_operation p ≡ true
unfolding validate_operation_shape
validate_operation_shape-bad p h = elim (Option-cases (positive_amount p.amount)) [
  | inl bad ↦ ground (arith, positive_amount-bad p.amount bad)
  | inr (n, good) ↦ ground (arith, good)
]

validate_operation_shape-good :
    (p : CreateDebtOperationPayload) (n : ℤ)
    → validate_operation_shape p ≡ some n
    → (is_bad_operation p ≡ false) × (as_int (some p.amount) ≡ some n)
unfolding validate_operation_shape
validate_operation_shape-good p n h = elim (Option-cases (positive_amount p.amount)) [
  | inl bad ↦ ground (arith, bad)
  | inr (m, good) ↦
      let (fine, reads) = positive_amount-good p.amount m good in
      (ground (arith, good, fine), ground (arith, good, reads))
]

-- A live debtor has the id.
abbrev pub has_debtor : Db → String → Bool
has_debtor db i = any (λ d. str_eq d.id i && not (is_some d.deleted_at)) db.tables.debtors

live_debtor_exists_lem : (db : Db) (i : String) → live_debtor_exists db i ≡ has_debtor db i
unfolding live_debtor_exists
live_debtor_exists_lem db i = is_some-find_live i db.tables.debtors

-- What `create` answers.
abbrev pub CreateOperationAnswer :
    Host → CreateDebtOperationPayload → Db → Outcome (Row debt_operation) → Type 0
CreateOperationAnswer h p db (rejected invalid_payload_error) = is_bad_operation p ≡ true
CreateOperationAnswer h p db (rejected unknown_references_error) = has_debtor db p.debtor_id ≡ false
CreateOperationAnswer h p db (rejected already_exists_error) =
    is_some (read_entity_row db debt_operation (operation_id h p db)) ≡ true
CreateOperationAnswer h p db (rejected _) = ⊥
CreateOperationAnswer h p db (done row after) =
    (n : ℤ) × (is_bad_operation p ≡ false)
    × (as_int (some p.amount) ≡ some n)
    × (has_debtor db p.debtor_id ≡ true)
    × (read_entity_row db debt_operation row.id ≡ none)
    × (row.id ≡ operation_id h p db)
    × (row.columns ≡ record {
      debtor_id = p.debtor_id;
      direction = p.direction;
      kind = p.kind;
      amount = n;
      occurred_at = p.occurred_at;
    })
    × (row.version ≡ 1)
    × (row.server_version ≡ 0)
    × (row.deleted_at ≡ none)
    × IsQueued debt_operation db row.id row after
    × IsSettled after

same_debtors :
    (o : Option String) (db : Db) (i : String)
    → live_debtor_exists (after_id o db) i ≡ live_debtor_exists db i
unfolding live_debtor_exists
same_debtors none db i = refl
same_debtors (some _) db i = refl

create_operation_row-CreateOperationAnswer :
    (h : Host) (p : CreateDebtOperationPayload) (n : ℤ) (db : Db)
    → IsSettled db
    → validate_operation_shape p ≡ some n
    → CreateOperationAnswer h p db
        (create_operation_row h (operation_id h p db) p n (after_id p.id db))
unfolding create_operation_row
create_operation_row-CreateOperationAnswer h p n db s good =
    let i = operation_id h p db in
    let begun = after_id p.id db in
    let debtors = same_debtors p.id db p.debtor_id in
    elim (Bool-cases (live_debtor_exists begun p.debtor_id)) [
      | inr unknown ↦
          rw (unknown, create_operation_row)
            (sym (live_debtor_exists_lem db p.debtor_id) ∙ (sym debtors ∙ unknown))
      | inl live ↦ elim (Option-cases (read_entity_row begun debt_operation i)) [
        | inr (r, taken) ↦
            rw (live, taken, create_operation_row)
              (ap is_some (sym (read-after_id debt_operation p.id db i) ∙ taken))
        | inl free ↦
            let row = new_debt_operation i p n begun in
            let fresh = sym (read-after_id debt_operation p.id db i) ∙ free in
            let queued =
              insert_now-IsQueued debt_operation h p.id row (to_debt_operation row) db fresh in
            rw (live, free, create_operation_row)
              (
                n,
                (validate_operation_shape-good p n good).0,
                (validate_operation_shape-good p n good).1,
                sym (live_debtor_exists_lem db p.debtor_id) ∙ (sym debtors ∙ live),
                fresh,
                refl,
                refl,
                refl,
                refl,
                refl,
                queued,
                queued-IsSettled debt_operation i row queued s,
              )
      ]
    ]

create_debt_operation_lem :
    (h : Host) (p : CreateDebtOperationPayload) (db : Db)
    → IsSettled db
    → CreateOperationAnswer h p db (create_debt_operation h p db)
unfolding create_debt_operation
create_debt_operation_lem h p db s = elim (Option-cases (validate_operation_shape p)) [
  | inl bad ↦ rw (bad, create_debt_operation) (validate_operation_shape-bad p bad)
  | inr (n, good) ↦
      rw (good, create_debt_operation) (create_operation_row-CreateOperationAnswer h p n db s good)
]

-- What `update` answers.
abbrev pub UpdateOperationAnswer :
    String → UpdateDebtOperationPayload → Db → Outcome (Row debt_operation) → Type 0
UpdateOperationAnswer i p db (rejected invalid_payload_error) =
    (not (is_some p.amount || is_some p.occurred_at) || is_bad_change p.amount) ≡ true
UpdateOperationAnswer i p db (rejected not_found_error) =
    if_live (read_entity_row db debt_operation i) ≡ none
UpdateOperationAnswer i p db (rejected version_conflict_error) =
    (r : Row debt_operation) × (if_live (read_entity_row db debt_operation i) ≡ some r)
    × (is_version r.version p.version ≡ false)
UpdateOperationAnswer i p db (rejected _) = ⊥
UpdateOperationAnswer i p db (done row after) =
    (r : Row debt_operation) × (if_live (read_entity_row db debt_operation i) ≡ some r)
    × (is_bad_change p.amount ≡ false)
    × (is_version r.version p.version ≡ true)
    × (row ≡ record r {
      columns = record r.columns {
        amount = or_else (given_amount p.amount) r.columns.amount;
        occurred_at = or_else p.occurred_at r.columns.occurred_at;
      };
      version = r.version + 1;
    })
    × IsQueued debt_operation db i row after
    × IsSettled after

update_operation_row-UpdateOperationAnswer :
    (h : Host) (i : String) (n : Option ℤ) (p : UpdateDebtOperationPayload) (db : Db)
    → IsSettled db
    → optional_amount p.amount ≡ some n
    → UpdateOperationAnswer i p db (update_operation_row h i n p db)
unfolding update_operation_row
update_operation_row-UpdateOperationAnswer h i n p db s good =
    elim (Option-cases (if_live (read_entity_row db debt_operation i))) [
      | inl absent ↦ rw (absent, update_operation_row) absent
      | inr (r, live) ↦ elim (Bool-cases (is_version r.version p.version)) [
        | inr stale ↦ rw (live, update_operation_row) (rw stale (r, live, stale))
        | inl current ↦
            let next = changed_operation n p.occurred_at r in
            let q =
              change-IsQueued debt_operation h i r next (to_debt_operation next) db
                (live_found debt_operation db i r live) refl in
            rw (live, update_operation_row)
              (rw current (
                r,
                live,
                (optional_amount-good p.amount n good).0,
                current,
                rw ((optional_amount-good p.amount n good).1) refl,
                q,
                queued-IsSettled debt_operation i next q s,
              ))
      ]
    ]

update_debt_operation_lem :
    (h : Host) (i : String) (p : UpdateDebtOperationPayload) (db : Db)
    → IsSettled db
    → UpdateOperationAnswer i p db (update_debt_operation h i p db)
unfolding update_debt_operation
update_debt_operation_lem h i p db s =
    elim (Bool-cases (is_some p.amount || is_some p.occurred_at)) [
      | inr empty ↦ rw (empty, update_debt_operation) (ground (arith, empty))
      | inl given ↦ elim (Option-cases (optional_amount p.amount)) [
        | inl bad ↦
            rw (given, bad, update_debt_operation)
              (ground (arith, optional_amount-bad p.amount bad))
        | inr (n, good) ↦
            rw (given, good, update_debt_operation)
              (update_operation_row-UpdateOperationAnswer h i n p db s good)
      ]
    ]

-- What `remove` answers.
abbrev pub RemoveOperationAnswer : String → Db → Outcome Unit → Type 0
RemoveOperationAnswer i db (rejected not_found_error) =
    if_live (read_entity_row db debt_operation i) ≡ none
RemoveOperationAnswer i db (rejected _) = ⊥
RemoveOperationAnswer i db (done _ after) =
    (r : Row debt_operation) × (if_live (read_entity_row db debt_operation i) ≡ some r)
    × IsRemoved debt_operation after i r (is_unborn debt_operation i r.server_version db)
    × Touches debt_operation i db after
    × IsSettled after

remove_debt_operation_lem :
    (h : Host) (i : String) (db : Db)
    → IsSettled db
    → RemoveOperationAnswer i db (remove_debt_operation h i db)
unfolding remove_debt_operation
remove_debt_operation_lem h i db s =
    elim (Option-cases (if_live (read_entity_row db debt_operation i))) [
      | inl absent ↦ rw (absent, remove_debt_operation) absent
      | inr (r, live) ↦
          rw (live, remove_debt_operation)
            (
              r,
              live,
              delete-IsRemoved debt_operation h i r null db (live_found debt_operation db i r live),
              delete-Touches debt_operation h i r null db,
              delete-IsSettled debt_operation h i r null db s,
            )
    ]

pub debt_operation_repository_lem :
    (h : Host) (db : Db)
    → IsSettled db
    → ((p : CreateDebtOperationPayload)
        → CreateOperationAnswer h p db (create_debt_operation h p db))
      × ((i : String) (p : UpdateDebtOperationPayload)
          → UpdateOperationAnswer i p db (update_debt_operation h i p db))
      × ((i : String) → RemoveOperationAnswer i db (remove_debt_operation h i db))
debt_operation_repository_lem h db s = (
  λ p. create_debt_operation_lem h p db s,
  λ i p. update_debt_operation_lem h i p db s,
  λ i. remove_debt_operation_lem h i db s,
)
