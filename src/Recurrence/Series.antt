-- ===== src/Recurrence/Series.antt =====
-- packages/local-data/src/recurrence.ts: the series of occurrences that `advanceNextDue` gives.
use trata.Prelude.{
  Bool-cases, ltb, ℕ, zero, suc, ◌+◌, ◌*◌, ◌≤◌, ◌<◌, min, ◌≡◌, refl, sym, ap, ◌⊎◌, inl, inr, arith,
}
use trata.Recurrence.{
  utc_year, Date, month_length, days_in_month, clamp_day, next_day, add_days, Regularity, daily,
  weekly, monthly, yearly, clamped, advance,
}

-- A date that exists, in a year that `Date.UTC` takes as it is.
pub record IsDate (t : Date) : Type 0 where
  pub year_in : 100 ≤ t.year
  pub month_in : t.month ≤ 11
  pub day_in : (1 ≤ t.day) × (t.day ≤ month_length t.year t.month)

abbrev pub month_index : Date → ℕ
month_index t = t.year * 12 + t.month

-- The order of dates.
abbrev pub IsBefore : Date → Date → Type 0
IsBefore t u = (month_index t < month_index u) ⊎ ((month_index t ≡ month_index u) × (t.day < u.day))

pub month_length_range : (y m : ℕ) → (28 ≤ month_length y m) × (month_length y m ≤ 31)
unfolding month_length
month_length_range y m = ground arith

pub next_day-IsDate : (t : Date) → IsDate t → IsDate (next_day t)
unfolding next_day
next_day-IsDate t v =
    ground (arith, month_length_range t.year (t.month + 1), month_length_range (t.year + 1) 0)

next_day-IsBefore : (t : Date) → IsDate t → IsBefore t (next_day t)
unfolding next_day
next_day-IsBefore t v = ground arith

IsBefore-trans : (t u v : Date) → IsBefore t u → IsBefore u v → IsBefore t v
IsBefore-trans t u v (inl p) (inl q) = inl (omega arith)
IsBefore-trans t u v (inl p) (inr q) = inl (omega arith)
IsBefore-trans t u v (inr p) (inl q) = inl (omega arith)
IsBefore-trans t u v (inr p) (inr q) = inr (omega arith)

add_days-IsDate : (n : ℕ) (t : Date) → IsDate t → IsDate (add_days n t)
unfolding add_days
add_days-IsDate zero t v = v
add_days-IsDate (suc n) t v = add_days-IsDate n (next_day t) (next_day-IsDate t v)

add_days-IsBefore : (n : ℕ) (t : Date) → IsDate t → IsBefore t (add_days (suc n) t)
unfolding add_days
add_days-IsBefore zero t v = next_day-IsBefore t v
add_days-IsBefore (suc n) t v =
    IsBefore-trans t (next_day t) _ (next_day-IsBefore t v)
      (add_days-IsBefore n (next_day t) (next_day-IsDate t v))

clamped_lem :
    (y m d : ℕ)
    → 100 ≤ y
    → m ≤ 11
    → 1 ≤ d
    → IsDate (clamped y m d)
      × (month_index (clamped y m d) ≡ y * 12 + m)
      × ((clamped y m d).day ≡ min d (days_in_month y m))
unfolding clamped clamp_day days_in_month
clamped_lem y m d h k l = ground (arith, month_length_range y m)

-- The occurrence after an existing date, for an existing anchor, both in a year from 100 on: it
-- exists, and it is later, for every regularity.
pub advance-IsDate :
    (r : Regularity) (a t : Date)
    → IsDate a
    → IsDate t
    → IsDate (advance r a t) × IsBefore t (advance r a t)
unfolding advance
advance-IsDate daily a t v w = (add_days-IsDate 1 t w, add_days-IsBefore 0 t w)
advance-IsDate weekly a t v w = (add_days-IsDate 7 t w, add_days-IsBefore 6 t w)
advance-IsDate yearly a t v w = ground (arith, clamped_lem (t.year + 1) a.month a.day)
advance-IsDate monthly a t v w =
    ground (arith, clamped_lem (t.year + 1) 0 a.day, clamped_lem t.year (t.month + 1) a.day)

next_day_year : (t : Date) → (next_day t).year ≤ t.year + 1
unfolding next_day
next_day_year t = ground arith

add_days_year : (n : ℕ) (t : Date) → (add_days n t).year ≤ t.year + n
unfolding add_days
add_days_year zero t = omega arith
add_days_year (suc n) t = omega (arith, next_day_year t, add_days_year n (next_day t))

pub advance_year : (r : Regularity) (a t : Date) → 100 ≤ t.year → (advance r a t).year ≤ t.year + 7
unfolding advance clamped
advance_year daily a t h = omega (arith, add_days_year 1 t)
advance_year weekly a t h = add_days_year 7 t
advance_year yearly a t h = ground arith
advance_year monthly a t h = ground arith

-- The occurrence `n` confirmations later; the anchor never moves.
unfoldable pub series : Regularity → Date → ℕ → Date → Date
series r anchor zero t = t
series r anchor (suc n) t = series r anchor n (advance r anchor t)

-- Where the occurrence stands, and its day: the anchor's, or the last one of a shorter month.
abbrev pub IsOccurrence : Date → ℕ → Date → Type 0
IsOccurrence anchor index t =
    (month_index t ≡ index) × (t.day ≡ min anchor.day (days_in_month t.year t.month))

module _ (a : Date) (v : IsDate a) where
  clamped-IsOccurrence :
      (y m : ℕ)
      → 100 ≤ y
      → m ≤ 11
      → IsDate (clamped y m a.day) × IsOccurrence a (y * 12 + m) (clamped y m a.day)
  unfolding clamped clamp_day
  clamped-IsOccurrence y m h k =
      let (exists, index, _) = clamped_lem y m a.day h k v.day_in.0 in
      let same : utc_year y ≡ y = ground arith in
      (exists, (index, ap (λ z. min a.day (days_in_month z m)) (sym same)))

  monthly_step :
      (t : Date)
      → IsDate t
      → IsDate (advance monthly a t) × IsOccurrence a (month_index t + 1) (advance monthly a t)
  unfolding advance
  monthly_step t w = elim (Bool-cases (ltb 11 (t.month + 1))) [
    | inl over ↦
        let december : (t.year + 1) * 12 + 0 ≡ month_index t + 1 = ground (arith, w.month_in) in
        rw (over, advance)
          (rw december at
            (clamped-IsOccurrence (t.year + 1) 0 (omega (arith, w.year_in)) (omega arith)))
    | inr inside ↦
        let within : t.month + 1 ≤ 11 = ground arith in
        let index : t.year * 12 + (t.month + 1) ≡ month_index t + 1 = omega arith in
        rw (inside, advance)
          (rw index at (clamped-IsOccurrence t.year (t.month + 1) w.year_in within))
  ]

  monthly_series :
      (n : ℕ) (t : Date)
      → IsDate t
      → IsOccurrence a (month_index t) t
      → IsOccurrence a (month_index t + n) (series monthly a n t)
  unfolding series
  monthly_series zero t w here = (omega (arith, here.0), here.1)
  monthly_series (suc n) t w here =
      let (exists, here') = monthly_step t w in
      let (later, same) = monthly_series n (advance monthly a t) exists (refl, here'.1) in
      (omega (arith, later, here'.0), same)

  -- A monthly plan whose anchor exists, on a date that exists, both in a year from 100 on: after n
  -- + 1 confirmations the occurrence is n + 1 months on, on the anchor's day or the last day of a
  -- shorter month, however short the months between were.
  pub series-monthly :
      (n : ℕ) (t : Date)
      → IsDate t
      → IsOccurrence a (month_index t + suc n) (series monthly a (suc n) t)
  unfolding series
  series-monthly n t w =
      let (exists, here') = monthly_step t w in
      let (later, same) = monthly_series n (advance monthly a t) exists (refl, here'.1) in
      (omega (arith, later, here'.0), same)
