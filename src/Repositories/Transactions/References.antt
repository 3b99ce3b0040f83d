-- ===== src/Repositories/Transactions/References.antt =====
-- packages/local-data/src/repositories/transaction.ts: the references of a transaction that is
-- stored.
use trata.Prelude.{
  ◌≡◌, refl, inl, inr, ◌⊎◌, String, Bool, true, false, not, ◌&&◌, ◌||◌, Option, none, some, arith,
  Bool-cases, Option-cases, is_some, str_eq, if◌then◌else◌,
}
use trata.Prelude.Int.{ℤ, pos, ltb_ℤ}
use mathlib.Core.Path.{subst}
use trata.Json.{Json, num}
use trata.Schema.{transaction, Row}
use trata.Db.{Db}
use trata.Repositories.Values.{positive_amount}
use trata.Repositories.Transactions.{settle_references}
use trata.Repositories.Transactions.Rules.{
  is_falsy, same_id, find_live_account, find_live_category, currency_of, validate_references,
  resolve_destination_amount,
}

-- A destination amount stands on a transfer exactly when the currencies differ, and is positive.
abbrev pub IsDestination : Db → Option String → Option String → Option ℤ → Type 0
IsDestination db from to none = same_id (currency_of db from) (currency_of db to) ≡ true
IsDestination db from to (some n) =
    (same_id (currency_of db from) (currency_of db to) ≡ false) × (ltb_ℤ n (pos 1) ≡ false)

-- What the references of a stored transaction are, by its type.
abbrev pub is_referred : Db → Option String → Row transaction → Bool
is_referred db previous r =
    if str_eq r.columns.type "transfer"
    then is_some (find_live_account db r.columns.from_account_id)
      && (is_some (find_live_account db r.columns.to_account_id)
          && not (same_id r.columns.from_account_id r.columns.to_account_id))
    else if str_eq r.columns.type "adjustment"
    then is_some (find_live_account db r.columns.account_id)
      && (is_falsy r.columns.category_id
          && (is_falsy r.columns.from_account_id && is_falsy r.columns.to_account_id))
    else (not (is_some r.columns.account_id) || is_some (find_live_account db r.columns.account_id))
      && (elim (find_live_category db r.columns.category_id) [
        | none ↦ false
        | some c ↦
            str_eq c.columns.type r.columns.type
            && (not (is_some c.columns.archived_at) || same_id previous r.columns.category_id)
      ])

positive_amount-not_small :
    (v : Json) (n : ℤ) → positive_amount v ≡ some n → ltb_ℤ n (pos 1) ≡ false
unfolding positive_amount
positive_amount-not_small v n h = ground arith

-- An amount that is checked, as the column's value.
abbrev checked : Json → Option (Option ℤ)
checked v = elim (positive_amount v) [ none ↦ none | some m ↦ some (some m) ]

checked-positive :
    (v : Json) (n : Option ℤ)
    → checked v ≡ some n
    → (m : ℤ) × (n ≡ some m) × (ltb_ℤ m (pos 1) ≡ false)
checked-positive v n h = elim (Option-cases (positive_amount v)) [
  | inl bad ↦ cc ((rw (bad, checked) at h))
  | inr (m, good) ↦
      let e : some (some m) ≡ some n = rw (good, checked) at h in
      (m, cc e, positive_amount-not_small v m good)
]

cross_amount :
    (provided : Option Json) (previous n : Option ℤ)
    → (elim provided [
      | some v ↦ checked v
      | none ↦ elim previous [ none ↦ none | some k ↦ checked (num k) ]
    ])
      ≡ some n
    → (m : ℤ) × (n ≡ some m) × (ltb_ℤ m (pos 1) ≡ false)
cross_amount (some v) previous n h = checked-positive v n h
cross_amount none (some k) n h = checked-positive (num k) n h
cross_amount none none n h = cc h

same_amount :
    (provided : Option Json) (n : Option ℤ)
    → (if is_some provided then none else some none) ≡ some n
    → n ≡ none
same_amount (some v) n h = cc h
same_amount none n h = cc h

resolve-IsDestination :
    (db : Db) (from to : Option String) (provided : Option Json) (previous n : Option ℤ)
    → resolve_destination_amount db from to provided previous ≡ some n
    → IsDestination db from to n
unfolding resolve_destination_amount
resolve-IsDestination db from to provided previous n h =
    elim (Bool-cases (same_id (currency_of db from) (currency_of db to))) [
      | inl same ↦
          let e = same_amount provided n (rw (same, resolve_destination_amount) at h) in rw e same
      | inr other ↦
          let (m, e, positive) =
            cross_amount provided previous n (rw (other, resolve_destination_amount) at h) in
          rw e (other, positive)
    ]

validated :
    (db : Db) (previous : Option String) (r : Row transaction)
    → validate_references db r.columns.type r.columns.account_id r.columns.category_id
        r.columns.from_account_id r.columns.to_account_id previous
      ≡ none
    → is_referred db previous r ≡ true
unfolding validate_references
validated db previous r h = elim (Bool-cases (str_eq r.columns.type "transfer")) [
  | inl moves ↦ rw moves (ground arith)
  | inr stays ↦ elim (Bool-cases (str_eq r.columns.type "adjustment")) [
    | inl adjusts ↦ rw (stays, adjusts) (ground arith)
    | inr flows ↦ rw (stays, flows) (ground arith)
  ]
]

abbrev pub with_destination : Option ℤ → Row transaction → Row transaction
with_destination n r = record r { columns = record r.columns { destination_amount = n } }

-- A row whose references are settled: it differs from the given one in the destination amount at
-- most, its references are live and fit its type, and the amount fits the currencies.
pub record IsReferred (db : Db) (previous : Option String) (before after : Row transaction)
    : Type 0 where
  pub same : after ≡ with_destination after.columns.destination_amount before
  pub referred : is_referred db previous after ≡ true
  pub destination :
      (str_eq before.columns.type "transfer" ≡ false)
      ⊎ IsDestination db after.columns.from_account_id after.columns.to_account_id
          after.columns.destination_amount

pub settle_references-IsReferred :
    (db : Db) (previous_category : Option String) (provided : Option Json) (previous : Option ℤ)
    (before after : Row transaction)
    → settle_references db previous_category provided previous before ≡ inr after
    → IsReferred db previous_category before after
unfolding settle_references
settle_references-IsReferred db pc provided previous before after h =
    let c = before.columns in
    elim (Option-cases (
      validate_references db c.type c.account_id c.category_id c.from_account_id c.to_account_id
        pc)) [
          | inr (why, bad) ↦ cc ((rw (bad, settle_references) at h))
          | inl good ↦
              let referred = validated db pc before good in
              elim (Bool-cases (str_eq c.type "transfer")) [
                | inr stays ↦
                    let e : before ≡ after = cc ((rw (good, stays, settle_references) at h)) in
                    subst (λ a. IsReferred db pc before a) e
                      (record { same = refl; referred = referred; destination = inl stays })
                | inl moves ↦
                    elim (Option-cases (
                      resolve_destination_amount db c.from_account_id c.to_account_id provided
                        previous)) [
                          | inl bad ↦ cc ((rw (good, moves, bad, settle_references) at h))
                          | inr (n, fits) ↦
                              let e : with_destination n before ≡ after =
                                cc ((rw (good, moves, fits, settle_references) at h)) in
                              subst (λ a. IsReferred db pc before a) e
                                (record {
                                  same = refl;
                                  referred = referred;
                                  destination = inr (
                                      resolve-IsDestination db c.from_account_id c.to_account_id
                                        provided previous n fits);
                                })
                        ]
              ]
        ]
