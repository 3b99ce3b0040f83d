-- ===== src/Recurrence/RoundTrip.antt =====
-- packages/local-data/src/recurrence.ts, `toUtcMidnight` and `toCalendarDay`: a day that is written is
-- read back.
use Prim.Native.Nat.{◌/◌, ◌%◌}
use Prim.Native.Char.{code}
use trata.Prelude.{
  ℕ, zero, suc, ◌+◌, ◌-◌, ◌*◌, ◌≤◌, ◌<◌, ◌≡◌, refl, ◌∙◌, ap, Bool, true, false, String, some, List,
  [], ◌∷◌, arith,
}
use trata.Json.{fits, is_digit, is_calendar_day}
use trata.Recurrence.{regularity_of, advance, Date}
use trata.Recurrence.Series.{advance-IsDate, advance_year, IsDate, month_length_range}
use trata.Recurrence.Texts.{
  values, from_fields, from_values, read_day, advance_next_due, digit, two_digits, dash_then,
  write_day,
}

-- A digit is read as its value, and fits a digit's place.
IsDigit : ℕ → Type 0
IsDigit k = (code (digit k) - b'0' ≡ k) × (is_digit (digit k) ≡ true)

is_digit_lem : (k : ℕ) → k < 10 → IsDigit k
unfolding IsDigit digit is_digit
is_digit_lem zero h = (refl, refl)
is_digit_lem (suc zero) h = (refl, refl)
is_digit_lem (suc (suc zero)) h = (refl, refl)
is_digit_lem (suc (suc (suc zero))) h = (refl, refl)
is_digit_lem (suc (suc (suc (suc zero)))) h = (refl, refl)
is_digit_lem (suc (suc (suc (suc (suc zero))))) h = (refl, refl)
is_digit_lem (suc (suc (suc (suc (suc (suc zero)))))) h = (refl, refl)
is_digit_lem (suc (suc (suc (suc (suc (suc (suc zero))))))) h = (refl, refl)
is_digit_lem (suc (suc (suc (suc (suc (suc (suc (suc zero)))))))) h = (refl, refl)
is_digit_lem (suc (suc (suc (suc (suc (suc (suc (suc (suc zero))))))))) h = (refl, refl)
is_digit_lem (suc (suc (suc (suc (suc (suc (suc (suc (suc (suc k)))))))))) h = absurd (omega arith)

values-two_digits :
    (n : ℕ) (s : String) → values (two_digits n s) ≡ (n / 10 % 10) ∷ (n % 10) ∷ values s
unfolding values two_digits IsDigit
values-two_digits n s =
    let tens = is_digit_lem (n / 10 % 10) (omega arith) in
    let ones = is_digit_lem (n % 10) (omega arith) in rw (tens.0, ones.0)

fits-two_digits :
    (n : ℕ) (s : String) (t : List Bool) → fits (true ∷ true ∷ t) (two_digits n s) ≡ fits t s
unfolding fits two_digits IsDigit
fits-two_digits n s t =
    let tens = is_digit_lem (n / 10 % 10) (omega arith) in
    let ones = is_digit_lem (n % 10) (omega arith) in rw (tens.1, ones.1)

fits_empty : fits [] "" ≡ true
unfolding fits
fits_empty = refl

values-dash_then : (s : String) → values (dash_then s) ≡ (code "-" - b'0') ∷ values s
unfolding values
values-dash_then s = refl

values_empty : values "" ≡ []
unfolding values
values_empty = refl

-- The text of a day before the year 10,000.
plain_day : Date → String
plain_day t =
    two_digits (t.year / 100)
      (two_digits t.year (dash_then (two_digits (t.month + 1) (dash_then (two_digits t.day "")))))

abbrev day_part : List Bool
day_part = false ∷ true ∷ true ∷ []

abbrev month_part : List Bool
month_part = false ∷ true ∷ true ∷ day_part

fits-dash_then : (s : String) (t : List Bool) → fits (false ∷ t) (dash_then s) ≡ fits t s
unfolding fits
fits-dash_then s t = refl

is_calendar_day-plain_day : (t : Date) → is_calendar_day (plain_day t) ≡ true
unfolding is_calendar_day plain_day
is_calendar_day-plain_day t =
    let days = two_digits t.day "" in
    let months = two_digits (t.month + 1) (dash_then days) in
    fits-two_digits (t.year / 100) (two_digits t.year (dash_then months)) (true ∷ true ∷ month_part)
    ∙ (fits-two_digits t.year (dash_then months) month_part
        ∙ (fits-dash_then months (true ∷ true ∷ day_part)
            ∙ (fits-two_digits (t.month + 1) (dash_then days) day_part
                ∙ (fits-dash_then days (true ∷ true ∷ [])
                    ∙ (fits-two_digits t.day "" [] ∙ fits_empty)))))

values-plain_day :
    (t : Date)
    → values (plain_day t)
      ≡ (t.year / 100 / 10 % 10)
        ∷ (t.year / 100 % 10)
        ∷ (t.year / 10 % 10)
        ∷ (t.year % 10)
        ∷ (code "-" - b'0')
        ∷ ((t.month + 1) / 10 % 10)
        ∷ ((t.month + 1) % 10)
        ∷ (code "-" - b'0')
        ∷ (t.day / 10 % 10)
        ∷ (t.day % 10)
        ∷ []
unfolding plain_day
values-plain_day t = simp (values-two_digits, values-dash_then, values_empty)

from_fields-IsDate : (t : Date) → IsDate t → from_fields t.year (t.month + 1) t.day ≡ some t
unfolding from_fields
from_fields-IsDate t v = ground (arith, v.month_in, v.day_in)

-- A day that exists, in a year from 100 to 9,999, is read back from its text.
pub read_day-write_day : (t : Date) → IsDate t → t.year < 10000 → read_day (write_day t) ≡ some t
unfolding read_day write_day from_values
read_day-write_day t v h =
    let plain : write_day t ≡ plain_day t = unfold plain_day in (ground arith) in
    let year : t.year / 100 / 10 % 10 * 1000
          + t.year / 100 % 10 * 100
          + t.year / 10 % 10 * 10
          + t.year % 10
        ≡ t.year =
      omega arith in
    let month : (t.month + 1) / 10 % 10 * 10 + (t.month + 1) % 10 ≡ t.month + 1 =
      omega (arith, v.month_in) in
    let short : t.day ≤ 31 = omega (arith, month_length_range t.year t.month, v.day_in) in
    let day : t.day / 10 % 10 * 10 + t.day % 10 ≡ t.day = omega (arith, short) in
    rw (plain, is_calendar_day-plain_day t, values-plain_day t)
      (ap
          (λ y.
            from_fields y ((t.month + 1) / 10 % 10 * 10 + (t.month + 1) % 10)
              (t.day / 10 % 10 * 10 + t.day % 10))
          year
        ∙ (ap (λ m. from_fields t.year m (t.day / 10 % 10 * 10 + t.day % 10)) month
            ∙ (ap (from_fields t.year (t.month + 1)) day ∙ from_fields-IsDate t v)))

-- The next occurrence, on the texts that a plan stores: for existing days in years from 100, to
-- 9,992 and of the anchor to 9,999, it is the text of the next occurrence of the dates, and the
-- text is read back as that date.
pub advance_next_due-write_day :
    (next anchor : Date) (regularity : String)
    → IsDate next
    → IsDate anchor
    → next.year < 9993
    → anchor.year < 10000
    → (s : String) × (advance_next_due (write_day next) (write_day anchor) regularity ≡ some s)
      × (read_day s ≡ some (advance (regularity_of regularity) anchor next))
unfolding advance_next_due
advance_next_due-write_day next anchor regularity v w h k =
    let after = advance (regularity_of regularity) anchor next in
    let exists = (advance-IsDate (regularity_of regularity) anchor next w v).0 in
    (
      write_day after,
      rw (read_day-write_day next v (omega arith), read_day-write_day anchor w k),
      read_day-write_day after exists
          (omega (arith, advance_year (regularity_of regularity) anchor next v.year_in)),
    )
