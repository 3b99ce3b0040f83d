-- ===== src/Recurrence.antt =====
-- packages/local-data/src/recurrence.ts: the next occurrence of a planned payment, and its monthly
-- figure. A UTC `Date` at midnight is its year, its month from 0 and its day; `Date.UTC` reads a
-- year below 100 as one of the twentieth century.
pub mod Texts
pub mod Series
pub mod Days
pub mod Figures
pub mod RoundTrip
use trata.Prelude.{
  ℕ, zero, suc, ◌+◌, ◌*◌, min, String, Bool, true, false, not, ◌&&◌, ◌||◌, List, [], ◌∷◌, ltb, ◌==◌,
  str_eq, if◌then◌else◌,
}
use Prim.Native.Nat.{◌/◌, ◌%◌}

pub record Date : Type 0 where
  pub year : ℕ
  pub month : ℕ
  pub day : ℕ

unfoldable pub is_leap : ℕ → Bool
is_leap y = (y % 4 == 0) && (not (y % 100 == 0) || (y % 400 == 0))

unfoldable pub month_length : ℕ → ℕ → ℕ
unfolding is_leap
month_length y m =
    if m == 1
    then (if is_leap y then 29 else 28)
    else if (m == 3) || ((m == 5) || ((m == 8) || (m == 10)))
    then 30
    else 31

-- The year that `Date.UTC` takes.
abbrev pub utc_year : ℕ → ℕ
utc_year y = if ltb y 100 then 1900 + y else y

-- `daysInMonth`.
unfoldable pub days_in_month : ℕ → ℕ → ℕ
unfolding month_length
days_in_month y m = month_length (utc_year y) m

-- `clampDay`.
unfoldable pub clamp_day : ℕ → ℕ → ℕ → ℕ
unfolding days_in_month
clamp_day d y m = min d (days_in_month y m)

-- The day with these fields.
abbrev pub utc_date : ℕ → ℕ → ℕ → Date
utc_date y m d = record { day = d; month = m; year = y }

-- The day after: an instant 86,400,000 ms later.
unfoldable pub next_day : Date → Date
unfolding month_length
next_day t =
    if ltb t.day (month_length t.year t.month)
    then record t { day = t.day + 1 }
    else if ltb t.month 11
    then utc_date t.year (t.month + 1) 1
    else utc_date (t.year + 1) 0 1

unfoldable pub add_days : ℕ → Date → Date
unfolding next_day
add_days zero t = t
add_days (suc n) t = add_days n (next_day t)

pub data Regularity : Type 0 where
  daily weekly monthly yearly : Regularity

-- The `switch`, whose default is the monthly case.
unfoldable pub regularity_of : String → Regularity
regularity_of s =
    if str_eq s "daily"
    then daily
    else if str_eq s "weekly"
    then weekly
    else if str_eq s "yearly"
    then yearly
    else monthly

-- `new Date(Date.UTC(year, month, clampDay(day, year, month)))`.
unfoldable pub clamped : ℕ → ℕ → ℕ → Date
unfolding clamp_day
clamped y m d = utc_date (utc_year y) m (clamp_day d y m)

-- `advanceNextDue`, on dates.
unfoldable pub advance : Regularity → Date → Date → Date
unfolding clamped add_days
advance daily anchor next = add_days 1 next
advance weekly anchor next = add_days 7 next
advance yearly anchor next = clamped (next.year + 1) anchor.month anchor.day
advance monthly anchor next =
    if ltb 11 (next.month + 1)
    then clamped (next.year + 1) 0 anchor.day
    else clamped next.year (next.month + 1) anchor.day

-- `Math.round(n / 12)`.
abbrev round_twelfth : ℕ → ℕ
round_twelfth n = (n + 6) / 12

-- `monthlyAmount`.
unfoldable pub monthly_amount : ℕ → Regularity → ℕ
monthly_amount n monthly = n
monthly_amount n yearly = round_twelfth n
monthly_amount n weekly = round_twelfth (n * 52)
monthly_amount n daily = round_twelfth (n * 365)

-- `monthlyTotal`, from a total so far.
unfoldable pub monthly_total : ℕ → List (ℕ × Regularity) → ℕ
unfolding monthly_amount
monthly_total total [] = total
monthly_total total ((n, r) ∷ plans) = monthly_total (total + monthly_amount n r) plans
