-- ===== src/Tests/Planning.antt =====
-- Recurrence: the vectors that packages/local-data/src/recurrence.test.ts and the backend share, and
-- the theorems at a plan that is due on the 31st.
use trata.Prelude.{ℕ, ◌+◌, ◌≡◌, refl, String, some, List, [], ◌∷◌, arith, suc, drop}
use Prim.Native.Nat.{◌%◌}
use trata.Recurrence.{
  Date, utc_date, Regularity, monthly, weekly, daily, yearly, advance, monthly_total, month_length,
  is_leap, regularity_of,
}
use trata.Recurrence.Texts.{read_day, write_day, advance_next_due}
use trata.Recurrence.Series.{IsDate, IsBefore, IsOccurrence, month_index, series, series-monthly}
use trata.Recurrence.Days.{day_number, advance_lem}
use trata.Recurrence.RoundTrip.{advance_next_due-write_day}
use trata.Repositories.Transactions.Pages.{read_pages, read_pages-returns}
use trata.Tests.Shop.{lunch}

vectors :
    (advance_next_due "2026-08-31" "2026-08-31" "daily" ≡ some "2026-09-01")
    × (advance_next_due "2026-08-25" "2026-08-25" "weekly" ≡ some "2026-09-01")
    × (advance_next_due "2026-08-05" "2026-08-05" "monthly" ≡ some "2026-09-05")
    × (advance_next_due "2026-01-31" "2026-01-31" "monthly" ≡ some "2026-02-28")
    × (advance_next_due "2026-02-28" "2026-01-31" "monthly" ≡ some "2026-03-31")
    × (advance_next_due "2026-03-31" "2026-01-31" "monthly" ≡ some "2026-04-30")
    × (advance_next_due "2024-01-30" "2024-01-30" "monthly" ≡ some "2024-02-29")
    × (advance_next_due "2026-12-15" "2026-12-15" "monthly" ≡ some "2027-01-15")
    × (advance_next_due "2026-09-01" "2026-09-01" "yearly" ≡ some "2027-09-01")
    × (advance_next_due "2024-02-29" "2024-02-29" "yearly" ≡ some "2025-02-28")
    × (advance_next_due "2025-02-28" "2024-02-29" "yearly" ≡ some "2026-02-28")
unfolding advance_next_due
vectors = (refl, refl, refl, refl, refl, refl, refl, refl, refl, refl, refl)

abbrev january : Date
january = utc_date 2026 0 31

abbrev february : Date
february = utc_date 2026 1 28

january-IsDate : IsDate january
unfolding month_length
january-IsDate = record {
  year_in = omega arith;
  month_in = omega arith;
  day_in = (omega arith, omega arith);
}

february-IsDate : IsDate february
unfolding month_length is_leap
february-IsDate = record {
  year_in = omega arith;
  month_in = omega arith;
  day_in = (omega arith, omega arith);
}

series-monthly_example :
    IsOccurrence january (month_index february + suc 4) (series monthly january (suc 4) february)
series-monthly_example = series-monthly january january-IsDate 4 february february-IsDate

advance_lem_example :
    IsDate (advance monthly january february)
    × IsBefore february (advance monthly january february)
    × (day_number (advance daily january february) ≡ day_number february + 1)
    × (day_number (advance weekly january february) ≡ day_number february + 7)
    × (day_number (advance weekly january february) % 7 ≡ day_number february % 7)
advance_lem_example = advance_lem monthly january february january-IsDate february-IsDate

abbrev plans : List (ℕ × Regularity)
plans = (59900, monthly) ∷ (600000, yearly) ∷ []

card_figure : monthly_total 0 plans ≡ 109900
unfolding monthly_total
card_figure = refl

advance_next_due-write_day_example :
    (s : String) × (advance_next_due (write_day february) (write_day january) "monthly" ≡ some s)
    × (read_day s ≡ some (advance (regularity_of "monthly") january february))
advance_next_due-write_day_example =
    advance_next_due-write_day february january "monthly" february-IsDate january-IsDate
      (omega arith) (omega arith)

read_pages-returns_example :
    read_pages (suc 3) (some 2) (some 1) (lunch ∷ lunch ∷ lunch ∷ [])
    ≡ some (drop 1 (lunch ∷ lunch ∷ lunch ∷ []))
read_pages-returns_example =
    read_pages-returns (some 2) (lunch ∷ lunch ∷ lunch ∷ []) (omega arith) 3 (some 1) (omega arith)
