-- ===== src/Repositories/Transactions/Rules.antt =====
-- packages/local-data/src/repositories/transaction.ts: the rules on amounts and references.
use trata.Prelude.{
  zero, String, Bool, true, false, not, ◌&&◌, ◌||◌, Option, none, some, is_some, str_eq,
  if◌then◌else◌,
}
use trata.Prelude.Int.{ℤ, pos, ltb_ℤ}
use trata.Json.{Json, num, as_int}
use trata.Schema.{account, category, Row}
use trata.Db.{Db}
use trata.Repositories.Values.{
  Rejection, invalid_payload_error, unknown_references_error, is_empty, positive_amount, find_live,
}

-- `!id`: null or the empty text.
abbrev pub is_falsy : Option String → Bool
is_falsy none = true
is_falsy (some s) = is_empty s

-- `===` on ids that may be null.
abbrev pub same_id : Option String → Option String → Bool
same_id none none = true
same_id none (some _) = false
same_id (some _) none = false
same_id (some i) (some j) = str_eq i j

abbrev pub is_zero_amount : ℤ → Bool
is_zero_amount (pos zero) = true
is_zero_amount _ = false

-- `assertAmount`; the amount if it passes.
unfoldable pub assert_amount : String → Json → Option ℤ
assert_amount type v = elim (as_int (some v)) [
  | none ↦ none
  | some n ↦
      if str_eq type "adjustment"
      then (if is_zero_amount n then none else some n)
      else if ltb_ℤ n (pos 1)
      then none
      else some n
]

-- `findLiveAccount`.
unfoldable pub find_live_account : Db → Option String → Option (Row account)
find_live_account db none = none
find_live_account db (some i) = if is_empty i then none else find_live i db.tables.accounts

-- The category that a falsy id does not find.
unfoldable pub find_live_category : Db → Option String → Option (Row category)
find_live_category db none = none
find_live_category db (some i) = if is_empty i then none else find_live i db.tables.categories

-- `currencyOf`.
abbrev pub currency_of : Db → Option String → Option String
currency_of db none = none
currency_of db (some i) = elim (find_live i db.tables.accounts) [
  | none ↦ none
  | some a ↦ some a.columns.currency
]

-- `resolveDestinationAmount`: the column's value, or `none` where it throws.
unfoldable pub resolve_destination_amount :
    Db → Option String → Option String → Option Json → Option ℤ → Option (Option ℤ)
resolve_destination_amount db from to provided previous =
    if same_id (currency_of db from) (currency_of db to)
    then (if is_some provided then none else some none)
    else elim provided [
      | some v ↦ elim (positive_amount v) [ none ↦ none | some n ↦ some (some n) ]
      | none ↦ elim previous [
        | none ↦ none
        | some n ↦ elim (positive_amount (num n)) [ none ↦ none | some m ↦ some (some m) ]
      ]
    ]

abbrev check_category : Row category → String → Option String → Option String → Option Rejection
check_category c type category_id previous =
    if not (str_eq c.columns.type type)
    then some invalid_payload_error
    else if is_some c.columns.archived_at && not (same_id previous category_id)
    then some invalid_payload_error
    else none

-- `validateReferences`: the error that it throws, if it does.
unfoldable pub validate_references :
    Db
    → String
    → Option String
    → Option String
    → Option String
    → Option String
    → Option String
    → Option Rejection
unfolding find_live_account find_live_category
validate_references db type account_id category_id from to previous =
    if str_eq type "transfer"
    then (if not (is_some (find_live_account db from))
        then some unknown_references_error
        else if not (is_some (find_live_account db to))
        then some unknown_references_error
        else if same_id from to
        then some invalid_payload_error
        else none)
    else if str_eq type "adjustment"
    then (if not (is_falsy category_id) || (not (is_falsy from) || not (is_falsy to))
        then some invalid_payload_error
        else if not (is_some (find_live_account db account_id))
        then some unknown_references_error
        else none)
    else if is_some account_id && not (is_some (find_live_account db account_id))
    then some unknown_references_error
    else elim (find_live_category db category_id) [
      | none ↦ some unknown_references_error
      | some c ↦ check_category c type category_id previous
    ]
