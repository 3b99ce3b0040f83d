-- ===== src/Balances.antt =====
-- packages/money/src/balance-calculator.ts: account balances from the transactions, by one pass over
-- all accounts and by a sum for one account; and packages/local-data/src/balances.ts: what debtors
-- owe and are owed. Amounts are minor units.
pub mod Accounts
pub mod Debts
use trata.Prelude.{
  String, Bool, true, false, ◌&&◌, Option, none, some, List, [], ◌∷◌, str_eq, or_else,
  if◌then◌else◌,
}
use trata.Prelude.Int.{ℤ, pos, ◌+ℤ◌, ◌-ℤ◌}

pub record BalanceAccount : Type 0 where
  pub id : String
  pub opening_balance : ℤ
  pub manual_adjustment : ℤ

-- A transfer debits `amount` and credits the destination amount, when there is one.
pub data TransactionImpact : Type 0 where
  income : String → ℤ → TransactionImpact
  expense : String → ℤ → TransactionImpact
  transfer : String → String → ℤ → Option ℤ → TransactionImpact

-- `getTransactionImpactForAccount`; `-amount` is `0 - amount`.
unfoldable pub get_transaction_impact_for_account : TransactionImpact → String → ℤ
get_transaction_impact_for_account (income a n) i = if str_eq a i then n else pos 0
get_transaction_impact_for_account (expense a n) i = if str_eq a i then pos 0 -ℤ n else pos 0
get_transaction_impact_for_account (transfer from to n d) i =
    if str_eq from i then pos 0 -ℤ n else if str_eq to i then or_else d n else pos 0

-- The `reduce` from a total on.
unfoldable pub sum_from : ℤ → List TransactionImpact → String → ℤ
sum_from total [] i = total
sum_from total (t ∷ ts) i = sum_from (total +ℤ get_transaction_impact_for_account t i) ts i

-- `sumTransactionsImpactForAccount`.
unfoldable pub sum_transactions_impact_for_account : List TransactionImpact → String → ℤ
sum_transactions_impact_for_account ts i = sum_from (pos 0) ts i

-- An object that is used as a map: a property is read, or set.
abbrev pub BalancesById : Type 0
BalancesById = List (String × ℤ)

unfoldable pub lookup : String → BalancesById → Option ℤ
lookup i [] = none
lookup i ((j, v) ∷ m) = if str_eq j i then some v else lookup i m

unfoldable pub put : String → ℤ → BalancesById → BalancesById
put i v [] = (i, v) ∷ []
put i v ((j, w) ∷ m) = if str_eq j i then (j, v) ∷ m else (j, w) ∷ put i v m

-- `if (current !== undefined) balances[id] = current + amount`.
unfoldable pub add_to : String → ℤ → BalancesById → BalancesById
add_to i n m = elim (lookup i m) [ none ↦ m | some v ↦ put i (v +ℤ n) m ]

unfoldable pub take_from : String → ℤ → BalancesById → BalancesById
take_from i n m = elim (lookup i m) [ none ↦ m | some v ↦ put i (v -ℤ n) m ]

-- The body of the loop.
unfoldable pub apply_impact : TransactionImpact → BalancesById → BalancesById
unfolding add_to take_from
apply_impact (income a n) m = add_to a n m
apply_impact (expense a n) m = add_to a (pos 0 -ℤ n) m
apply_impact (transfer from to n d) m = add_to to (or_else d n) (take_from from n m)

unfoldable pub apply_impacts : List TransactionImpact → BalancesById → BalancesById
apply_impacts [] m = m
apply_impacts (t ∷ ts) m = apply_impacts ts (apply_impact t m)

abbrev pub opening : BalanceAccount → ℤ
opening a = a.opening_balance +ℤ a.manual_adjustment

-- `Object.fromEntries`: of two accounts with one id the later one is kept.
unfoldable pub from_accounts : List BalanceAccount → BalancesById → BalancesById
from_accounts [] m = m
from_accounts (a ∷ accounts) m = from_accounts accounts (put a.id (opening a) m)

-- `getAccountsBalances`.
unfoldable pub get_accounts_balances : List BalanceAccount → List TransactionImpact → BalancesById
get_accounts_balances accounts ts = apply_impacts ts (from_accounts accounts [])

-- `getComputedAccountBalance`.
unfoldable pub get_computed_account_balance : BalanceAccount → List TransactionImpact → ℤ
get_computed_account_balance a ts = opening a +ℤ sum_transactions_impact_for_account ts a.id

pub data DebtDirection : Type 0 where
  receivable payable : DebtDirection

pub data DebtKind : Type 0 where
  debt repayment : DebtKind

pub record DebtOperation : Type 0 where
  pub debtor_id : String
  pub direction : DebtDirection
  pub kind : DebtKind
  pub amount : ℤ

pub record DirectionBalances : Type 0 where
  pub receivable_sum : ℤ
  pub payable_sum : ℤ

-- `op.kind === 'debt' ? sum + op.amount : sum - op.amount`.
abbrev pub signed : DebtOperation → ℤ → ℤ
signed o sum = elim o.kind [ debt ↦ sum +ℤ o.amount | repayment ↦ sum -ℤ o.amount ]

abbrev pub same_direction : DebtDirection → DebtDirection → Bool
same_direction receivable receivable = true
same_direction payable payable = true
same_direction _ _ = false

-- The `reduce` of `balanceInDirection`, from a sum on.
unfoldable pub balance_from : ℤ → List DebtOperation → String → DebtDirection → ℤ
balance_from sum [] i d = sum
balance_from sum (o ∷ ops) i d =
    balance_from
      (if str_eq o.debtor_id i && same_direction o.direction d then signed o sum else sum) ops i d

-- `balanceInDirection`.
unfoldable pub balance_in_direction : List DebtOperation → String → DebtDirection → ℤ
balance_in_direction ops i d = balance_from (pos 0) ops i d

abbrev pub side : DebtDirection → DirectionBalances → ℤ
side receivable b = b.receivable_sum
side payable b = b.payable_sum

-- `current[key] = ...`.
abbrev pub add_side : DebtOperation → DirectionBalances → DirectionBalances
add_side o b = elim o.direction [
  | receivable ↦ record b { receivable_sum = signed o b.receivable_sum }
  | payable ↦ record b { payable_sum = signed o b.payable_sum }
]

abbrev pub no_balances : DirectionBalances
no_balances = record { receivable_sum = pos 0; payable_sum = pos 0 }

unfoldable pub get_debtor : String → List (String × DirectionBalances) → Option DirectionBalances
get_debtor i [] = none
get_debtor i ((j, b) ∷ m) = if str_eq j i then some b else get_debtor i m

unfoldable pub set_debtor :
    String
    → DirectionBalances
    → List (String × DirectionBalances)
    → List (String × DirectionBalances)
set_debtor i b [] = (i, b) ∷ []
set_debtor i b ((j, c) ∷ m) = if str_eq j i then (j, b) ∷ m else (j, c) ∷ set_debtor i b m

-- The loop of `balancesByDebtor`.
unfoldable pub add_debts :
    List DebtOperation → List (String × DirectionBalances) → List (String × DirectionBalances)
unfolding get_debtor set_debtor
add_debts [] m = m
add_debts (o ∷ ops) m =
    add_debts ops
      (set_debtor o.debtor_id (add_side o (or_else (get_debtor o.debtor_id m) no_balances)) m)

-- `balancesByDebtor`.
unfoldable pub balances_by_debtor : List DebtOperation → List (String × DirectionBalances)
balances_by_debtor ops = add_debts ops []

-- The loop of `totalsByDirection`.
unfoldable pub totals_from : DirectionBalances → List DebtOperation → DirectionBalances
totals_from t [] = t
totals_from t (o ∷ ops) = totals_from (add_side o t) ops

unfoldable pub totals_by_direction : List DebtOperation → DirectionBalances
totals_by_direction ops = totals_from no_balances ops
