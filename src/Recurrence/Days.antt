-- ===== src/Recurrence/Days.antt =====
-- packages/local-data/src/recurrence.ts: days counted, and the texts of days read back.
use native.Mathlib.Numerals.{add-one}
use trata.Prelude.{
  Bool-cases, ltb, inl, inr, ℕ, zero, suc, ◌+◌, ◌-◌, ◌*◌, ◌≤◌, ◌≡◌, refl, ap, arith,
}
use Prim.Native.Nat.{◌/◌, ◌%◌}
use trata.Recurrence.{
  Date, is_leap, month_length, next_day, add_days, Regularity, daily, weekly, advance,
}
use trata.Recurrence.Series.{IsDate, IsBefore, next_day-IsDate, advance-IsDate}

abbrev leap_days : ℕ → ℕ
leap_days y = y / 4 - y / 100 + y / 400

-- Days before January 1st of a year.
abbrev days_before_year : ℕ → ℕ
days_before_year zero = 0
days_before_year (suc y) = suc y * 365 + leap_days y + 1

-- Days of a year before its month, from 0.
unfoldable days_before_month : ℕ → ℕ → ℕ
days_before_month y zero = 0
days_before_month y (suc m) = days_before_month y m + month_length y m

unfoldable pub day_number : Date → ℕ
unfolding days_before_month
day_number t = days_before_year t.year + days_before_month t.year t.month + t.day

twelve_months : (y : ℕ) → days_before_month (suc y) 11 + 31 + leap_days y ≡ 365 + leap_days (suc y)
unfolding days_before_month month_length is_leap
twelve_months y = ground arith

days_before_month-suc :
    (y m : ℕ) → days_before_month y (m + 1) ≡ days_before_month y m + month_length y m
unfolding days_before_month
days_before_month-suc y m = rw add-one

-- January 1st comes after the 31 days of December.
new_year :
    (y : ℕ) → 100 ≤ y → days_before_year (y + 1) ≡ days_before_year y + days_before_month y 11 + 31
new_year zero h = elim h [ ]
new_year (suc y) h = rw add-one (omega (arith, twelve_months y))

-- The day after an existing date has the next number.
day_number-next_day : (t : Date) → IsDate t → day_number (next_day t) ≡ day_number t + 1
unfolding next_day day_number
day_number-next_day t v = elim (Bool-cases (ltb t.day (month_length t.year t.month))) [
  | inl inside ↦ rw (inside, next_day) (omega arith)
  | inr last ↦
      let full : t.day ≡ month_length t.year t.month = ground (arith, v.day_in) in
      elim (Bool-cases (ltb t.month 11)) [
        | inl early ↦
            rw (last, early, next_day) (omega (arith, days_before_month-suc t.year t.month, full))
        | inr late ↦
            let december : t.month ≡ 11 = ground (arith, v.month_in) in
            let days : month_length t.year t.month ≡ 31 =
              unfold month_length in (ground (arith, december)) in
            let before : days_before_month t.year t.month ≡ days_before_month t.year 11 =
              ap (days_before_month t.year) december in
            let first : days_before_month (t.year + 1) 0 ≡ 0 = unfold days_before_month in refl in
            rw (last, late, next_day)
              (omega (arith, new_year t.year v.year_in, first, before, days, full))
      ]
]

day_number-add_days :
    (n : ℕ) (t : Date)
    → IsDate t
    → IsDate (add_days n t) × (day_number (add_days n t) ≡ day_number t + n)
unfolding add_days
day_number-add_days zero t v = (v, omega arith)
day_number-add_days (suc n) t v =
    let (exists, number) = day_number-add_days n (next_day t) (next_day-IsDate t v) in
    (exists, omega (arith, number, day_number-next_day t v))

day_number-advance :
    (anchor t : Date)
    → IsDate t
    → (day_number (advance daily anchor t) ≡ day_number t + 1)
      × (day_number (advance weekly anchor t) ≡ day_number t + 7)
      × (day_number (advance weekly anchor t) % 7 ≡ day_number t % 7)
unfolding advance
day_number-advance anchor t v =
    let one = (day_number-add_days 1 t v).1 in
    let week = (day_number-add_days 7 t v).1 in (one, week, omega (arith, week))

-- For an anchor and a date that exist, in years from 100 on, the next occurrence exists and is
-- later, for every regularity. By the count of days a daily plan is due one day later, and a weekly
-- plan seven days later, on the same weekday.
pub advance_lem :
    (r : Regularity) (anchor t : Date)
    → IsDate anchor
    → IsDate t
    → IsDate (advance r anchor t)
      × IsBefore t (advance r anchor t)
      × (day_number (advance daily anchor t) ≡ day_number t + 1)
      × (day_number (advance weekly anchor t) ≡ day_number t + 7)
      × (day_number (advance weekly anchor t) % 7 ≡ day_number t % 7)
advance_lem r anchor t v w =
    let (exists, later) = advance-IsDate r anchor t v w in
    let (one, week, weekday) = day_number-advance anchor t w in (exists, later, one, week, weekday)
