-- ===== src/Recurrence/Texts.antt =====
-- packages/local-data/src/recurrence.ts, `toUtcMidnight` and `toCalendarDay`: calendar days as texts.
use Prim.Native.Char.{Char, code}
use Prim.Native.Nat.{◌/◌, ◌%◌}
use trata.Prelude.{
  ℕ, zero, suc, ◌+◌, ◌-◌, ◌*◌, String, Bool, ◌&&◌, Option, none, some, List, [], ◌∷◌, ltb, leb,
  if◌then◌else◌, ◌>>=◌,
}
use trata.Json.{is_calendar_day}
use trata.Recurrence.{Date, utc_date, month_length, regularity_of, advance}

-- The values of the characters of a text, as digits.
unfoldable pub values : String → List ℕ
values String.[] = []
values (String.◌∷◌ c s) = (code c - b'0') ∷ values s

-- A day that exists.
abbrev pub is_date : Date → Bool
is_date t = ltb t.month 12 && (leb 1 t.day && leb t.day (month_length t.year t.month))

-- The day of a year, a month from 1 and a day of the month.
unfoldable pub from_fields : ℕ → ℕ → ℕ → Option Date
from_fields y m d =
    if leb 1 m && is_date (utc_date y (m - 1) d) then some (utc_date y (m - 1) d) else none

unfoldable pub from_values : List ℕ → Option Date
unfolding from_fields
from_values (a ∷ b ∷ c ∷ d ∷ dash ∷ e ∷ f ∷ hyphen ∷ g ∷ k ∷ []) =
    from_fields (a * 1000 + b * 100 + c * 10 + d) (e * 10 + f) (g * 10 + k)
from_values _ = none

-- `toUtcMidnight`: `none` is an invalid date.
unfoldable pub read_day : String → Option Date
unfolding values from_values is_calendar_day
read_day s = if is_calendar_day s then from_values (values s) else none

unfoldable pub digit : ℕ → Char
digit zero = "0"
digit (suc zero) = "1"
digit (suc (suc zero)) = "2"
digit (suc (suc (suc zero))) = "3"
digit (suc (suc (suc (suc zero)))) = "4"
digit (suc (suc (suc (suc (suc zero))))) = "5"
digit (suc (suc (suc (suc (suc (suc zero)))))) = "6"
digit (suc (suc (suc (suc (suc (suc (suc zero))))))) = "7"
digit (suc (suc (suc (suc (suc (suc (suc (suc zero)))))))) = "8"
digit _ = "9"

-- The last two digits of a number, before a text.
unfoldable pub two_digits : ℕ → String → String
unfolding digit
two_digits n s = String.◌∷◌ (digit (n / 10 % 10)) (String.◌∷◌ (digit (n % 10)) s)

abbrev pub dash_then : String → String
dash_then s = String.◌∷◌ "-" s

-- `toCalendarDay`: the first ten characters of the ISO text, whose year has a sign and six digits
-- from 10,000 on.
unfoldable pub write_day : Date → String
unfolding two_digits
write_day t =
    if ltb t.year 10000
    then two_digits (t.year / 100)
        (two_digits t.year (dash_then (two_digits (t.month + 1) (dash_then (two_digits t.day "")))))
    else String.◌∷◌ "+" (
        two_digits (t.year / 10000)
          (two_digits (t.year / 100) (two_digits t.year (dash_then (two_digits (t.month + 1) "")))))

-- `advanceNextDue`: an invalid date has no ISO text.
unfoldable pub advance_next_due : String → String → String → Option String
unfolding read_day write_day regularity_of advance
advance_next_due next anchor regularity = do
  d ← read_day next
  a ← read_day anchor
  some (write_day (advance (regularity_of regularity) a d))
