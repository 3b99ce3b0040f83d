-- ===== src/Repositories/PlannedPayments/Answers.antt =====
-- packages/local-data/src/repositories/planned-payment.ts: what the repository of planned payments
-- answers.
use trata.Prelude.{
  ◌+◌, ◌≡◌, refl, sym, ◌∙◌, ap, inl, inr, String, Bool, true, false, not, ◌&&◌, ◌||◌, Option, none,
  some, [], ◌∷◌, arith, Bool-cases, Option-cases, or_else, is_some, any, first, str_eq,
}
use trata.Prelude.Int.{ℤ}
use trata.Json.{null, has, as_int, is_calendar_day}
use trata.Repositories.Amounts.{
  is_bad_amount, is_bad_change, given_amount, positive_amount-bad, positive_amount-good,
  optional_amount-bad, optional_amount-good,
}
use trata.Repositories.References.{is_some-find_live}
use trata.Schema.{planned_payment, Row}
use trata.Db.{Db, Host, read_entity_row}
use trata.Frame.{Touches}
use trata.Frame.Settled.{IsSettled}
use trata.Repositories.Values.{
  invalid_payload_error, already_exists_error, not_found_error, version_conflict_error,
  unknown_references_error, Outcome, rejected, done, if_live, positive_amount, optional_amount,
  find_live,
}
use trata.Repositories.Actions.{after_id, is_version, is_unborn}
use trata.Repositories.Queued.{
  IsQueued, IsRemoved, queued-IsSettled, read-after_id, insert-IsQueued, change-IsQueued,
  delete-Touches, delete-IsRemoved, delete-IsSettled, live_found,
}
use trata.Repositories.PlannedPayments.{
  to_planned_payment, has_references, CreatePlannedPaymentPayload, new_plan, validate_plan,
  create_plan_row, create_plan, is_calendar_day_text, UpdatePlannedPaymentPayload,
  validate_plan_update, changed_plan, keeps_references, update_plan_row, update_plan, remove_plan,
}

abbrev pub plan_id : Host → CreatePlannedPaymentPayload → Db → String
plan_id h p db = or_else p.id (h.generate_id db.calls)

-- A live account has the id, and a live category of the type has the other one.
abbrev pub is_referable : Db → String → String → String → Bool
is_referable db type account_id category_id =
    any (λ a. str_eq a.id account_id && not (is_some a.deleted_at)) db.tables.accounts
    && (elim (first (λ c. str_eq c.id category_id && not (is_some c.deleted_at))
        db.tables.categories) [ none ↦ false | some c ↦ str_eq c.columns.type type ])

pub has_references_lem :
    (db : Db) (type account_id category_id : String)
    → has_references db type account_id category_id ≡ is_referable db type account_id category_id
unfolding has_references
has_references_lem db type account_id category_id =
    rw (is_some-find_live account_id db.tables.accounts) (unfold find_live in refl)

-- A text that is a calendar day and is read as a date.
abbrev pub is_day : Host → String → Bool
is_day h s = is_calendar_day s && is_some (h.canonical s)

-- Which payloads `create` refuses.
abbrev pub is_bad_plan : Host → CreatePlannedPaymentPayload → Bool
is_bad_plan h p =
    not (has ("expense" ∷ "income" ∷ []) p.type)
    || (not (has ("daily" ∷ "weekly" ∷ "monthly" ∷ "yearly" ∷ []) p.regularity)
        || (not (has ("manual" ∷ "auto" ∷ []) p.confirm_mode)
            || (not (has ("off" ∷ "day_before" ∷ "on_day" ∷ []) p.reminder)
                || (is_bad_amount p.amount
                    || (str_eq p.next_due "" || not (is_day h p.next_due))))))

validate_plan-bad :
    (h : Host) (p : CreatePlannedPaymentPayload) → validate_plan h p ≡ none → is_bad_plan h p ≡ true
unfolding validate_plan is_calendar_day_text
validate_plan-bad h p e = elim (Option-cases (positive_amount p.amount)) [
  | inl bad ↦ ground (arith, positive_amount-bad p.amount bad)
  | inr (n, good) ↦ ground (arith, good)
]

validate_plan-good :
    (h : Host) (p : CreatePlannedPaymentPayload) (n : ℤ)
    → validate_plan h p ≡ some n
    → (is_bad_plan h p ≡ false) × (as_int (some p.amount) ≡ some n)
unfolding validate_plan is_calendar_day_text
validate_plan-good h p n e = elim (Option-cases (positive_amount p.amount)) [
  | inl bad ↦ ground (arith, bad)
  | inr (m, good) ↦
      let (fine, reads) = positive_amount-good p.amount m good in
      (ground (arith, good, fine), ground (arith, good, reads))
]

-- A field that is given fails its test.
abbrev pub fails : (String → Bool) → Option String → Bool
fails test none = false
fails test (some s) = not (test s)

-- Which payloads `update` refuses: those without a field, and those with a bad one.
abbrev pub is_bad_plan_change : Host → UpdatePlannedPaymentPayload → Bool
is_bad_plan_change h p =
    not (
      is_some p.amount
      || (is_some p.name
          || (is_some p.note
              || (is_some p.account_id
                  || (is_some p.category_id
                      || (is_some p.next_due
                          || (is_some p.regularity
                              || (is_some p.confirm_mode || is_some p.reminder))))))))
    || (is_bad_change p.amount
        || (fails (has ("daily" ∷ "weekly" ∷ "monthly" ∷ "yearly" ∷ [])) p.regularity
            || (fails (has ("manual" ∷ "auto" ∷ [])) p.confirm_mode
                || (fails (has ("off" ∷ "day_before" ∷ "on_day" ∷ [])) p.reminder
                    || fails (is_day h) p.next_due))))

validate_plan_update-bad :
    (h : Host) (p : UpdatePlannedPaymentPayload)
    → validate_plan_update h p ≡ none
    → is_bad_plan_change h p ≡ true
unfolding validate_plan_update is_calendar_day_text
validate_plan_update-bad h p e = elim (Option-cases (optional_amount p.amount)) [
  | inl bad ↦ ground (arith, optional_amount-bad p.amount bad)
  | inr (n, good) ↦ ground (arith, good)
]

validate_plan_update-good :
    (h : Host) (p : UpdatePlannedPaymentPayload) (n : Option ℤ)
    → validate_plan_update h p ≡ some n
    → (is_bad_plan_change h p ≡ false) × (given_amount p.amount ≡ n)
unfolding validate_plan_update is_calendar_day_text
validate_plan_update-good h p n e = elim (Option-cases (optional_amount p.amount)) [
  | inl bad ↦ ground (arith, bad)
  | inr (m, good) ↦
      let (fine, reads) = optional_amount-good p.amount m good in
      (ground (arith, good, fine), ground (arith, good, reads))
]

-- The references that an update leaves the plan with do hold, if it gives one.
abbrev pub keeps_referable : UpdatePlannedPaymentPayload → Row planned_payment → Db → Bool
keeps_referable p r db =
    not (is_some p.account_id || is_some p.category_id)
    || is_referable db r.columns.type (or_else p.account_id r.columns.account_id)
        (or_else p.category_id r.columns.category_id)

keeps_references_lem :
    (p : UpdatePlannedPaymentPayload) (r : Row planned_payment) (db : Db)
    → keeps_references p r db ≡ keeps_referable p r db
keeps_references_lem p r db =
    ap (λ b. not (is_some p.account_id || is_some p.category_id) || b)
      (has_references_lem db r.columns.type (or_else p.account_id r.columns.account_id)
        (or_else p.category_id r.columns.category_id))

-- What `create` answers.
abbrev pub CreatePlanAnswer :
    Host → CreatePlannedPaymentPayload → Db → Outcome (Row planned_payment) → Type 0
CreatePlanAnswer h p db (rejected invalid_payload_error) = is_bad_plan h p ≡ true
CreatePlanAnswer h p db (rejected unknown_references_error) =
    is_referable db p.type p.account_id p.category_id ≡ false
CreatePlanAnswer h p db (rejected already_exists_error) =
    is_some (read_entity_row db planned_payment (plan_id h p db)) ≡ true
CreatePlanAnswer h p db (rejected _) = ⊥
CreatePlanAnswer h p db (done row after) =
    (n : ℤ) × (is_bad_plan h p ≡ false)
    × (as_int (some p.amount) ≡ some n)
    × (is_referable db p.type p.account_id p.category_id ≡ true)
    × (read_entity_row db planned_payment row.id ≡ none)
    × (row.id ≡ plan_id h p db)
    × (row.columns ≡ record {
      type = p.type;
      amount = n;
      name = or_else p.name "";
      account_id = p.account_id;
      category_id = p.category_id;
      next_due = p.next_due;
      anchor_date = p.next_due;
      regularity = p.regularity;
      confirm_mode = p.confirm_mode;
      reminder = p.reminder;
      note = or_else p.note "";
    })
    × (row.version ≡ 1)
    × (row.server_version ≡ 0)
    × (row.deleted_at ≡ none)
    × IsQueued planned_payment db row.id row after
    × IsSettled after

same_references :
    (o : Option String) (db : Db) (type account category : String)
    → has_references (after_id o db) type account category ≡ has_references db type account category
unfolding has_references
same_references none db type account category = refl
same_references (some _) db type account category = refl

create_plan_row-CreatePlanAnswer :
    (h : Host) (p : CreatePlannedPaymentPayload) (n : ℤ) (db : Db)
    → IsSettled db
    → validate_plan h p ≡ some n
    → CreatePlanAnswer h p db (create_plan_row h (plan_id h p db) p n (after_id p.id db))
unfolding create_plan_row
create_plan_row-CreatePlanAnswer h p n db s good =
    let i = plan_id h p db in
    let begun = after_id p.id db in
    let same = sym (same_references p.id db p.type p.account_id p.category_id) in
    let spelled = sym (has_references_lem db p.type p.account_id p.category_id) in
    elim (Bool-cases (has_references begun p.type p.account_id p.category_id)) [
      | inr unknown ↦ rw (unknown, create_plan_row) (spelled ∙ (same ∙ unknown))
      | inl known ↦ elim (Option-cases (read_entity_row begun planned_payment i)) [
        | inr (r, taken) ↦
            rw (known, taken, create_plan_row)
              (ap is_some (sym (read-after_id planned_payment p.id db i) ∙ taken))
        | inl free ↦
            let row = new_plan h i p n begun in
            let fresh = sym (read-after_id planned_payment p.id db i) ∙ free in
            let queued =
              insert-IsQueued planned_payment h p.id row (to_planned_payment row) db fresh in
            rw (known, free, create_plan_row)
              (
                n,
                (validate_plan-good h p n good).0,
                (validate_plan-good h p n good).1,
                spelled ∙ (same ∙ known),
                fresh,
                refl,
                refl,
                refl,
                refl,
                refl,
                queued,
                queued-IsSettled planned_payment i row queued s,
              )
      ]
    ]

create_plan_lem :
    (h : Host) (p : CreatePlannedPaymentPayload) (db : Db)
    → IsSettled db
    → CreatePlanAnswer h p db (create_plan h p db)
unfolding create_plan
create_plan_lem h p db s = elim (Option-cases (validate_plan h p)) [
  | inl bad ↦ rw (bad, create_plan) (validate_plan-bad h p bad)
  | inr (n, good) ↦ rw (good, create_plan) (create_plan_row-CreatePlanAnswer h p n db s good)
]

-- What `update` answers.
abbrev pub UpdatePlanAnswer :
    Host → String → UpdatePlannedPaymentPayload → Db → Outcome (Row planned_payment) → Type 0
UpdatePlanAnswer h i p db (rejected invalid_payload_error) = is_bad_plan_change h p ≡ true
UpdatePlanAnswer h i p db (rejected not_found_error) =
    if_live (read_entity_row db planned_payment i) ≡ none
UpdatePlanAnswer h i p db (rejected version_conflict_error) =
    (r : Row planned_payment) × (if_live (read_entity_row db planned_payment i) ≡ some r)
    × (is_version r.version p.version ≡ false)
UpdatePlanAnswer h i p db (rejected unknown_references_error) =
    (r : Row planned_payment) × (if_live (read_entity_row db planned_payment i) ≡ some r)
    × (keeps_referable p r db ≡ false)
UpdatePlanAnswer h i p db (rejected _) = ⊥
UpdatePlanAnswer h i p db (done row after) =
    (r : Row planned_payment) × (if_live (read_entity_row db planned_payment i) ≡ some r)
    × (is_bad_plan_change h p ≡ false)
    × (is_version r.version p.version ≡ true)
    × (keeps_referable p r db ≡ true)
    × (row ≡ record r {
      columns = record r.columns {
        amount = or_else (given_amount p.amount) r.columns.amount;
        name = or_else p.name r.columns.name;
        note = or_else p.note r.columns.note;
        account_id = or_else p.account_id r.columns.account_id;
        category_id = or_else p.category_id r.columns.category_id;
        next_due = or_else p.next_due r.columns.next_due;
        anchor_date = or_else p.next_due r.columns.anchor_date;
        regularity = or_else p.regularity r.columns.regularity;
        confirm_mode = or_else p.confirm_mode r.columns.confirm_mode;
        reminder = or_else p.reminder r.columns.reminder;
      };
      version = r.version + 1;
    })
    × IsQueued planned_payment db i row after
    × IsSettled after

update_plan_row-UpdatePlanAnswer :
    (h : Host) (i : String) (n : Option ℤ) (p : UpdatePlannedPaymentPayload) (db : Db)
    → IsSettled db
    → validate_plan_update h p ≡ some n
    → UpdatePlanAnswer h i p db (update_plan_row h i n p db)
unfolding update_plan_row
update_plan_row-UpdatePlanAnswer h i n p db s good =
    elim (Option-cases (if_live (read_entity_row db planned_payment i))) [
      | inl absent ↦ rw (absent, update_plan_row) absent
      | inr (r, live) ↦ elim (Bool-cases (is_version r.version p.version)) [
        | inr stale ↦ rw (live, update_plan_row) (rw stale (r, live, stale))
        | inl current ↦ elim (Bool-cases (keeps_references p r db)) [
          | inr unknown ↦
              rw (live, update_plan_row)
                (rw (current, unknown) (r, live, sym (keeps_references_lem p r db) ∙ unknown))
          | inl known ↦
              let next = changed_plan n p r in
              let q =
                change-IsQueued planned_payment h i r next (to_planned_payment next) db
                  (live_found planned_payment db i r live) refl in
              rw (live, update_plan_row)
                (rw (current, known)
                  (
                    r,
                    live,
                    (validate_plan_update-good h p n good).0,
                    current,
                    sym (keeps_references_lem p r db) ∙ known,
                    rw ((validate_plan_update-good h p n good).1) refl,
                    q,
                    queued-IsSettled planned_payment i next q s,
                  ))
        ]
      ]
    ]

update_plan_lem :
    (h : Host) (i : String) (p : UpdatePlannedPaymentPayload) (db : Db)
    → IsSettled db
    → UpdatePlanAnswer h i p db (update_plan h i p db)
unfolding update_plan
update_plan_lem h i p db s = elim (Option-cases (validate_plan_update h p)) [
  | inl bad ↦ rw (bad, update_plan) (validate_plan_update-bad h p bad)
  | inr (n, good) ↦ rw (good, update_plan) (update_plan_row-UpdatePlanAnswer h i n p db s good)
]

-- What `remove` answers.
abbrev pub RemovePlanAnswer : String → Db → Outcome Unit → Type 0
RemovePlanAnswer i db (rejected not_found_error) =
    if_live (read_entity_row db planned_payment i) ≡ none
RemovePlanAnswer i db (rejected _) = ⊥
RemovePlanAnswer i db (done _ after) =
    (r : Row planned_payment) × (if_live (read_entity_row db planned_payment i) ≡ some r)
    × IsRemoved planned_payment after i r (is_unborn planned_payment i r.server_version db)
    × Touches planned_payment i db after
    × IsSettled after

remove_plan_lem :
    (h : Host) (i : String) (db : Db) → IsSettled db → RemovePlanAnswer i db (remove_plan h i db)
unfolding remove_plan
remove_plan_lem h i db s = elim (Option-cases (if_live (read_entity_row db planned_payment i))) [
  | inl absent ↦ rw (absent, remove_plan) absent
  | inr (r, live) ↦
      rw (live, remove_plan)
        (
          r,
          live,
          delete-IsRemoved planned_payment h i r null db (live_found planned_payment db i r live),
          delete-Touches planned_payment h i r null db,
          delete-IsSettled planned_payment h i r null db s,
        )
]

pub planned_payment_repository_lem :
    (h : Host) (db : Db)
    → IsSettled db
    → ((p : CreatePlannedPaymentPayload) → CreatePlanAnswer h p db (create_plan h p db))
      × ((i : String) (p : UpdatePlannedPaymentPayload)
          → UpdatePlanAnswer h i p db (update_plan h i p db))
      × ((i : String) → RemovePlanAnswer i db (remove_plan h i db))
planned_payment_repository_lem h db s = (
  λ p. create_plan_lem h p db s,
  λ i p. update_plan_lem h i p db s,
  λ i. remove_plan_lem h i db s,
)
