-- ===== src/Balances/Debts.antt =====
-- packages/local-data/src/balances.ts: the map of debtors, the balance of one, and the totals.
use trata.Prelude.{
  ◌≡◌, refl, sym, ◌∙◌, ap, inl, inr, String, ◌&&◌, ◌||◌, some, List, [], ◌∷◌, arith, any, str_eq,
  eq_iff, or_else, is_some, Bool-cases, if◌then◌else◌,
}
use trata.Prelude.Int.{+ℤ-zero, +ℤ_comm, ℤ, pos, ◌+ℤ◌, ◌-ℤ◌, eq_of_parts, +ℤ_parts, -ℤ_parts}
use trata.Balances.{
  DebtDirection, receivable, payable, DebtKind, debt, repayment, DebtOperation, DirectionBalances,
  signed, same_direction, balance_from, balance_in_direction, side, add_side, no_balances,
  get_debtor, set_debtor, add_debts, balances_by_debtor, totals_from, totals_by_direction,
}

abbrev Debtors : Type 0
Debtors = List (String × DirectionBalances)

get-set_debtor :
    (i j : String) (b : DirectionBalances) (m : Debtors)
    → get_debtor j (set_debtor i b m) ≡ (if str_eq i j then some b else get_debtor j m)
unfolding get_debtor set_debtor
get-set_debtor i j b [] = refl
get-set_debtor i j b ((k, c) ∷ m) =
    ground (arith, eq_iff i j, eq_iff k i, eq_iff k j, get-set_debtor i j b m)

side-add_side :
    (o : DebtOperation) (b : DirectionBalances) (d : DebtDirection)
    → side d (add_side o b)
      ≡ (if same_direction o.direction d then signed o (side d b) else side d b)
side-add_side o b d = ground arith

signed-+ℤ : (o : DebtOperation) (a b : ℤ) → signed o (a +ℤ b) ≡ signed o a +ℤ b
signed-+ℤ o a b = by_kind o.kind
  where
    by_kind :
        (k : DebtKind)
        → (elim k as (λ _. ℤ) [ debt ↦ a +ℤ b +ℤ o.amount | repayment ↦ a +ℤ b -ℤ o.amount ])
          ≡ (elim k as (λ _. ℤ) [ debt ↦ a +ℤ o.amount | repayment ↦ a -ℤ o.amount ]) +ℤ b
    by_kind debt = eq_of_parts (a +ℤ b +ℤ o.amount) (a +ℤ o.amount +ℤ b) (
        omega (
          arith,
          +ℤ_parts (a +ℤ b) o.amount,
          +ℤ_parts a b,
          +ℤ_parts (a +ℤ o.amount) b,
          +ℤ_parts a o.amount,
        ))
    by_kind repayment = eq_of_parts (a +ℤ b -ℤ o.amount) (a -ℤ o.amount +ℤ b) (
        omega (
          arith,
          -ℤ_parts (a +ℤ b) o.amount,
          +ℤ_parts a b,
          +ℤ_parts (a -ℤ o.amount) b,
          -ℤ_parts a o.amount,
        ))

-- The balances of a debtor, zero for one without operations.
abbrev pub balances_of : String → Debtors → DirectionBalances
balances_of i m = or_else (get_debtor i m) no_balances

-- One operation in the map.
abbrev entered : DebtOperation → Debtors → Debtors
entered o m = set_debtor o.debtor_id (add_side o (balances_of o.debtor_id m)) m

entered-side :
    (o : DebtOperation) (m : Debtors) (i : String) (d : DebtDirection)
    → side d (balances_of i (entered o m)) ≡ (
        if str_eq o.debtor_id i && same_direction o.direction d
        then signed o (side d (balances_of i m))
        else side d (balances_of i m))
entered-side o m i d = elim (Bool-cases (str_eq o.debtor_id i)) [
  | inl own ↦
      let same = (eq_iff o.debtor_id i).0 own in
      rw (get-set_debtor o.debtor_id i (add_side o (balances_of o.debtor_id m)) m, own, same)
        (side-add_side o (balances_of i m) d)
  | inr other ↦
      rw (get-set_debtor o.debtor_id i (add_side o (balances_of o.debtor_id m)) m, other) refl
]

add_debts-side :
    (ops : List DebtOperation) (m : Debtors) (i : String) (d : DebtDirection)
    → side d (balances_of i (add_debts ops m)) ≡ balance_from (side d (balances_of i m)) ops i d
unfolding add_debts balance_from
add_debts-side [] m i d = refl
add_debts-side (o ∷ ops) m i d =
    add_debts-side ops (entered o m) i d ∙ ap (λ s. balance_from s ops i d) (entered-side o m i d)

add_debts-present :
    (ops : List DebtOperation) (m : Debtors) (i : String)
    → is_some (get_debtor i (add_debts ops m))
      ≡ is_some (get_debtor i m) || any (λ o. str_eq o.debtor_id i) ops
unfolding add_debts
add_debts-present [] m i = ground arith
add_debts-present (o ∷ ops) m i =
    add_debts-present ops (entered o m) i
    ∙ rw (get-set_debtor o.debtor_id i (add_side o (balances_of o.debtor_id m)) m) (ground arith)

-- The sum over all debtors in one direction.
abbrev pub sum_sides : DebtDirection → Debtors → ℤ
sum_sides d [] = pos 0
sum_sides d ((i, b) ∷ m) = side d b +ℤ sum_sides d m

signed-+ℤ_right : (o : DebtOperation) (a b : ℤ) → signed o (a +ℤ b) ≡ a +ℤ signed o b
signed-+ℤ_right o a b = ap (signed o) (+ℤ_comm a b) ∙ signed-+ℤ o b a ∙ +ℤ_comm (signed o b) a

side-no_balances : (d : DebtDirection) → side d no_balances ≡ pos 0
side-no_balances receivable = refl
side-no_balances payable = refl

set-sum :
    (o : DebtOperation) (c : DirectionBalances) (m : Debtors) (d : DebtDirection)
    → c ≡ balances_of o.debtor_id m
    → sum_sides d (set_debtor o.debtor_id (add_side o c) m)
      ≡ (if same_direction o.direction d then signed o (sum_sides d m) else sum_sides d m)
unfolding get_debtor set_debtor
set-sum o c [] d h =
    rw (h, side-add_side o no_balances d, side-no_balances d)
      (elim (Bool-cases (same_direction o.direction d)) [
        | inl same ↦ rw same (+ℤ-zero (signed o (pos 0)))
        | inr other ↦ rw other (+ℤ-zero (pos 0))
      ])
set-sum o c ((j, b) ∷ m) d h = elim (Bool-cases (str_eq j o.debtor_id)) [
  | inl own ↦
      let is : c ≡ b = rw own at h in
      rw (own, is, side-add_side o b d)
        (elim (Bool-cases (same_direction o.direction d)) [
          | inl same ↦ rw same (sym (signed-+ℤ o (side d b) (sum_sides d m)))
          | inr other ↦ rw other refl
        ])
  | inr foreign ↦
      rw (foreign, set-sum o c m d (rw foreign at h))
        (elim (Bool-cases (same_direction o.direction d)) [
          | inl same ↦ rw same (sym (signed-+ℤ_right o (side d b) (sum_sides d m)))
          | inr other ↦ rw other refl
        ])
]

entered-sum :
    (o : DebtOperation) (m : Debtors) (d : DebtDirection)
    → sum_sides d (entered o m)
      ≡ (if same_direction o.direction d then signed o (sum_sides d m) else sum_sides d m)
entered-sum o m d = set-sum o (balances_of o.debtor_id m) m d refl

totals-sum :
    (ops : List DebtOperation) (t : DirectionBalances) (m : Debtors) (d : DebtDirection)
    → side d t ≡ sum_sides d m
    → side d (totals_from t ops) ≡ sum_sides d (add_debts ops m)
unfolding totals_from add_debts
totals-sum [] t m d h = h
totals-sum (o ∷ ops) t m d h =
    totals-sum ops (add_side o t) (entered o m) d
      (side-add_side o t d ∙ rw h refl ∙ sym (entered-sum o m d))

-- For every debtor and direction, the entry of `balancesByDebtor` is the debtor's own balance, and
-- a debtor has an entry exactly if an operation names the debtor; the direction's total is the sum
-- of the entries.
pub balances_by_debtor_lem :
    (ops : List DebtOperation) (i : String) (d : DebtDirection)
    → (side d (balances_of i (balances_by_debtor ops)) ≡ balance_in_direction ops i d)
      × (is_some (get_debtor i (balances_by_debtor ops)) ≡ any (λ o. str_eq o.debtor_id i) ops)
      × (side d (totals_by_direction ops) ≡ sum_sides d (balances_by_debtor ops))
unfolding balances_by_debtor balance_in_direction totals_by_direction balance_from get_debtor
balances_by_debtor_lem ops i d = (
  add_debts-side ops [] i d ∙ rw (side-no_balances d) refl,
  add_debts-present ops [] i,
  totals-sum ops no_balances [] d (side-no_balances d),
)
