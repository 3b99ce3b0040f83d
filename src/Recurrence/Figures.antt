-- ===== src/Recurrence/Figures.antt =====
-- packages/local-data/src/recurrence.ts: the monthly figures.
use trata.Prelude.{ℕ, ◌+◌, ◌*◌, ◌≤◌, ◌<◌, List, [], ◌∷◌, arith}
use trata.Recurrence.{Regularity, daily, weekly, monthly, yearly, monthly_amount, monthly_total}

-- How often a year a plan pays.
abbrev pub times_a_year : Regularity → ℕ
times_a_year daily = 365
times_a_year weekly = 52
times_a_year monthly = 12
times_a_year yearly = 1

-- The figure is within half a unit of a twelfth of what the plan pays in a year, rounded half up.
pub monthly_amount_bounds :
    (n : ℕ) (r : Regularity)
    → (12 * monthly_amount n r ≤ n * times_a_year r + 6)
      × (n * times_a_year r < 12 * monthly_amount n r + 6)
unfolding monthly_amount
monthly_amount_bounds n daily = omega arith
monthly_amount_bounds n weekly = omega arith
monthly_amount_bounds n monthly = omega arith
monthly_amount_bounds n yearly = omega arith

-- What the plans of a list pay in a year.
unfoldable pub paid_a_year : List (ℕ × Regularity) → ℕ
paid_a_year [] = 0
paid_a_year ((n, r) ∷ plans) = n * times_a_year r + paid_a_year plans

abbrev pub count : List (ℕ × Regularity) → ℕ
count [] = 0
count (_ ∷ plans) = count plans + 1

-- The total is off by at most half a unit a plan from a twelfth of what they pay in a year.
pub monthly_total_bounds :
    (plans : List (ℕ × Regularity)) (total : ℕ)
    → (12 * monthly_total total plans ≤ 12 * total + paid_a_year plans + 6 * count plans)
      × (12 * total + paid_a_year plans ≤ 12 * monthly_total total plans + 6 * count plans)
unfolding monthly_total paid_a_year
monthly_total_bounds [] total = omega arith
monthly_total_bounds ((n, r) ∷ plans) total =
    omega
      (arith, monthly_amount_bounds n r, monthly_total_bounds plans (total + monthly_amount n r))
