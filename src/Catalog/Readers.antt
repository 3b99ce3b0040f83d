-- ===== src/Catalog/Readers.antt =====
-- sync-entity-catalog.generated.ts: the value sets, and the readers of one field.
use trata.Prelude.{
  String, Bool, false, not, ◌&&◌, Option, none, some, List, [], ◌∷◌, str_eq, or_else, ◌==◌,
  if◌then◌else◌,
}
use trata.Prelude.Int.{ℤ, pos, ltb_ℤ, pos_part, neg_part}
use trata.Json.{num, text, Fields, none_left, field, property, as_string, as_int}

abbrev pub currency_values : List String
currency_values =
    "USD" ∷ "EUR" ∷ "RUB" ∷ "GBP" ∷ "CNY" ∷ "TRY" ∷ "PLN" ∷ "GEL" ∷ "KZT" ∷ "UAH" ∷ "AMD" ∷ "AZN"
    ∷ "BYN" ∷ "UZS" ∷ "KGS" ∷ "RSD" ∷ "ILS" ∷ "AED" ∷ "THB" ∷ []

abbrev pub category_type_values : List String
category_type_values = "income" ∷ "expense" ∷ []

abbrev pub direction_values : List String
direction_values = "receivable" ∷ "payable" ∷ []

abbrev pub debt_kind_values : List String
debt_kind_values = "debt" ∷ "repayment" ∷ []

abbrev pub planned_type_values : List String
planned_type_values = "expense" ∷ "income" ∷ []

abbrev pub regularity_values : List String
regularity_values = "daily" ∷ "weekly" ∷ "monthly" ∷ "yearly" ∷ []

abbrev pub confirm_mode_values : List String
confirm_mode_values = "manual" ∷ "auto" ∷ []

abbrev pub reminder_values : List String
reminder_values = "off" ∷ "day_before" ∷ "on_day" ∷ []

abbrev pub transaction_type_values : List String
transaction_type_values = "income" ∷ "expense" ∷ "transfer" ∷ "adjustment" ∷ []

-- `asString(payload.k)`, `asInt(payload.k)`, and `asString(payload.k) ?? ""`.
abbrev pub string_at : String → Fields → Option String
string_at k p = as_string (property k p)

abbrev pub int_at : String → Fields → Option ℤ
int_at k p = as_int (property k p)

abbrev pub string_or_empty : String → Fields → String
string_or_empty k p = or_else (string_at k p) ""

-- `amount === null || amount < 1`.
abbrev pub at_least_one : Option ℤ → Option ℤ
at_least_one none = none
at_least_one (some z) = if ltb_ℤ z (pos 1) then none else some z

abbrev pub is_zero : ℤ → Bool
is_zero z = pos_part z == 0 && neg_part z == 0

-- `amount === null || amount === 0`.
abbrev pub nonzero : Option ℤ → Option ℤ
nonzero none = none
nonzero (some z) = if is_zero z then none else some z

-- `destinationAmount !== null && destinationAmount <= 0` refuses; null is let through.
abbrev pub refused_destination : Option ℤ → Bool
refused_destination none = false
refused_destination (some z) = ltb_ℤ z (pos 1)

-- `...(x !== null ? { k: x } : {})`.
abbrev pub optional_int : String → Option ℤ → Fields
optional_int k none = none_left
optional_int k (some z) = field k (num z) none_left

-- `...(x ? { k: x } : {})`.
abbrev pub optional_text : String → Option String → Fields
optional_text k none = none_left
optional_text k (some s) = field k (text s) none_left

abbrev pub nonempty : String → Bool
nonempty s = not (str_eq s "")
