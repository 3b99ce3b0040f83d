-- ===== src/Json.antt =====
-- JSON values as the local database stores them, and the readers of
-- packages/local-data/src/sync/sync-entity-catalog.generated.ts.
use Prim.Native.Char.{Char, code}
use trata.Prelude.{
  ℕ, ◌^◌, ◌-◌, String, Bool, true, false, ◌&&◌, Option, none, some, List, [], ◌∷◌, leb, str_eq, any,
  if◌then◌else◌,
}
use trata.Prelude.Int.{ℤ, pos_part, neg_part}

-- A number that is no integer keeps its text: no reader accepts it.
mutual
  pub data Json : Type 0 where
    null : Json
    bool : Bool → Json
    num : ℤ → Json
    real : String → Json
    text : String → Json
    array : Items → Json
    object : Fields → Json

  pub data Items : Type 0 where
    empty : Items
    item : Json → Items → Items

  pub data Fields : Type 0 where
    none_left : Fields
    field : String → Json → Fields → Fields

-- A column that holds JSON text: what `JSON.stringify` wrote, or a text that `JSON.parse` refuses.
pub data JsonText {ℓ} (A : Type ℓ) : Type ℓ where
  encoded : A → JsonText A
  malformed : JsonText A

abbrev pub parse {ℓ} : {A : Type ℓ} → JsonText A → Option A
parse (encoded a) = some a
parse malformed = none

-- `payload.name`; a missing field is undefined.
unfoldable pub property : String → Fields → Option Json
property k none_left = none
property k (field j v r) = if str_eq j k then some v else property k r

-- `asString`.
unfoldable pub as_string : Option Json → Option String
as_string (some (text s)) = some s
as_string _ = none

-- `asNonEmpty`.
unfoldable pub as_non_empty : Option Json → Option String
unfolding as_string
as_non_empty v = elim (as_string v) [ none ↦ none | some s ↦ if str_eq s "" then none else some s ]

abbrev pub max_safe : ℕ
max_safe = 2 ^ 53 - 1

-- `Number.isSafeInteger`.
abbrev pub is_safe : ℤ → Bool
is_safe z = leb (pos_part z) max_safe && leb (neg_part z) max_safe

-- `asInt`.
unfoldable pub as_int : Option Json → Option ℤ
as_int (some (num z)) = if is_safe z then some z else none
as_int _ = none

unfoldable pub is_digit : Char → Bool
is_digit c = leb b'0' (code c) && leb (code c) b'9'

-- A template of digits (`true`) and dashes (`false`) that the whole text has to fit.
unfoldable pub fits : List Bool → String → Bool
unfolding is_digit
fits [] String.[] = true
fits [] (String.◌∷◌ _ _) = false
fits (_ ∷ _) String.[] = false
fits (true ∷ t) (String.◌∷◌ c s) = is_digit c && fits t s
fits (false ∷ t) (String.◌∷◌ c s) = (leb (code c) b'-' && leb b'-' (code c)) && fits t s

-- `CALENDAR_DAY_PATTERN`: four digits, a dash, two digits, a dash, two digits.
unfoldable pub is_calendar_day : String → Bool
unfolding fits
is_calendar_day = fits (true ∷ true ∷ true ∷ true ∷ false ∷ true ∷ true ∷ false ∷ true ∷ true ∷ [])

-- `asCalendarDay`.
unfoldable pub as_calendar_day : Option Json → Option String
as_calendar_day (some (text s)) = if is_calendar_day s then some s else none
as_calendar_day _ = none

-- `VALUES.has(x)`.
unfoldable pub has : List String → String → Bool
has vs s = any (λ v. str_eq v s) vs

-- `if (!x || !VALUES.has(x)) return null`; the empty text is falsy.
unfoldable pub one_of : List String → Option String → Option String
one_of vs none = none
one_of vs (some s) = if str_eq s "" then none else if has vs s then some s else none

-- `if (!x) return null`.
unfoldable pub required : Option String → Option String
required none = none
required (some s) = if str_eq s "" then none else some s
