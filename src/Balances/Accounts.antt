-- ===== src/Balances/Accounts.antt =====
-- packages/money/src/balance-calculator.ts: the pass over all accounts beside the sum for one.
use mathlib.Core.Option
use trata.Prelude.{
  ◌≡◌, ◌≢◌, refl, sym, ◌∙◌, ap, inl, inr, String, false, Option, none, some, List, [], ◌∷◌, arith,
  All, str_eq, eq_iff, or_else, Bool-cases, Option-cases, if◌then◌else◌,
}
use trata.Prelude.Int.{+ℤ-zero, +ℤ-minus, +ℤ_assoc, ℤ, pos, ◌+ℤ◌, ◌-ℤ◌}
use trata.Balances.{
  BalanceAccount, TransactionImpact, income, expense, transfer, get_transaction_impact_for_account,
  sum_from, sum_transactions_impact_for_account, BalancesById, lookup, put, add_to, take_from,
  apply_impact, apply_impacts, opening, from_accounts, get_accounts_balances,
  get_computed_account_balance,
}

lookup-put :
    (i j : String) (v : ℤ) (m : BalancesById)
    → lookup j (put i v m) ≡ (if str_eq i j then some v else lookup j m)
unfolding lookup put
lookup-put i j v [] = refl
lookup-put i j v ((k, w) ∷ m) =
    ground (arith, eq_iff i j, eq_iff k i, eq_iff k j, lookup-put i j v m)

-- No account of a transfer is both its source and its destination.
abbrev pub IsProper : TransactionImpact → Type 0
IsProper (income a n) = Unit
IsProper (expense a n) = Unit
IsProper (transfer from to n d) = from ≢ to

lookup-add_to :
    (i j : String) (n : ℤ) (m : BalancesById)
    → lookup j (add_to i n m) ≡ Option.map (λ v. if str_eq i j then v +ℤ n else v) (lookup j m)
unfolding add_to
lookup-add_to i j n m = elim (Bool-cases (str_eq i j)) [
  | inl own ↦ elim (Option-cases (lookup i m)) [
    | inl absent ↦
        let same = (eq_iff i j).0 own in rw (absent, add_to) (rw (own, (rw same at absent)) refl)
    | inr (v, found) ↦
        let same = (eq_iff i j).0 own in
        rw (found, add_to) (rw (lookup-put i j (v +ℤ n) m, own, (rw same at found)) refl)
  ]
  | inr other ↦ elim (Option-cases (lookup i m)) [
    | inl absent ↦ rw (absent, add_to) (rw other (map-same (lookup j m)))
    | inr (v, found) ↦
        rw (found, add_to) (rw (lookup-put i j (v +ℤ n) m, other) (map-same (lookup j m)))
  ]
]
  where
    map-same : (o : Option ℤ) → o ≡ Option.map (λ v. v) o
    map-same none = refl
    map-same (some v) = refl

take_from-add_to :
    (i : String) (n : ℤ) (m : BalancesById) → take_from i n m ≡ add_to i (pos 0 -ℤ n) m
unfolding take_from add_to
take_from-add_to i n m = elim (Option-cases (lookup i m)) [
  | inl absent ↦ rw (absent, take_from, add_to) refl
  | inr (v, found) ↦ rw (found, take_from, add_to) (rw (+ℤ-minus v n) refl)
]

lookup-apply_impact :
    (t : TransactionImpact) (j : String) (m : BalancesById)
    → IsProper t
    → lookup j (apply_impact t m)
      ≡ Option.map (λ v. v +ℤ get_transaction_impact_for_account t j) (lookup j m)
unfolding apply_impact get_transaction_impact_for_account
lookup-apply_impact (income a n) j m p = rw (lookup-add_to a j n m) (one a j n (lookup j m))
  where
    one :
        (a j : String) (n : ℤ) (o : Option ℤ)
        → Option.map (λ v. if str_eq a j then v +ℤ n else v) o
          ≡ Option.map (λ v. v +ℤ (if str_eq a j then n else pos 0)) o
    one a j n none = refl
    one a j n (some v) = elim (Bool-cases (str_eq a j)) [
      | inl own ↦ rw own refl
      | inr other ↦ rw (other, +ℤ-zero v) refl
    ]
lookup-apply_impact (expense a n) j m p =
    rw (lookup-add_to a j (pos 0 -ℤ n) m) (one a j (pos 0 -ℤ n) (lookup j m))
  where
    one :
        (a j : String) (n : ℤ) (o : Option ℤ)
        → Option.map (λ v. if str_eq a j then v +ℤ n else v) o
          ≡ Option.map (λ v. v +ℤ (if str_eq a j then n else pos 0)) o
    one a j n none = refl
    one a j n (some v) = elim (Bool-cases (str_eq a j)) [
      | inl own ↦ rw own refl
      | inr other ↦ rw (other, +ℤ-zero v) refl
    ]
lookup-apply_impact (transfer from to n d) j m p =
    rw
      (
        take_from-add_to from n m,
        lookup-add_to to j (or_else d n) (add_to from (pos 0 -ℤ n) m),
        lookup-add_to from j (pos 0 -ℤ n) m,
      )
      (both (lookup j m))
  where
    both :
        (o : Option ℤ)
        → Option.map
            (λ v. if str_eq to j then v +ℤ or_else d n else v)
            (Option.map (λ v. if str_eq from j then v +ℤ (pos 0 -ℤ n) else v) o)
          ≡ Option.map
              (λ v.
                v
                +ℤ (if str_eq from j
                    then pos 0 -ℤ n
                    else if str_eq to j
                    then or_else d n
                    else pos 0))
              o
    both none = refl
    both (some v) = elim (Bool-cases (str_eq from j)) [
      | inl source ↦
          let other : str_eq to j ≡ false = ground (arith, eq_iff from j, eq_iff to j, p) in
          rw (source, other) refl
      | inr no_source ↦ elim (Bool-cases (str_eq to j)) [
        | inl target ↦ rw (no_source, target) refl
        | inr neither ↦ rw (no_source, neither, +ℤ-zero v) refl
      ]
    ]

lookup-apply_impacts :
    (ts : List TransactionImpact) (j : String) (m : BalancesById)
    → All IsProper ts
    → lookup j (apply_impacts ts m) ≡ Option.map (λ v. sum_from v ts j) (lookup j m)
unfolding apply_impacts sum_from
lookup-apply_impacts [] j m h = map-same (lookup j m)
  where
    map-same : (o : Option ℤ) → o ≡ Option.map (λ v. v) o
    map-same none = refl
    map-same (some v) = refl
lookup-apply_impacts (t ∷ ts) j m (p, ps) =
    lookup-apply_impacts ts j (apply_impact t m) ps
    ∙ rw (lookup-apply_impact t j m p) (twice (lookup j m))
  where
    twice :
        (o : Option ℤ)
        → Option.map
            (λ v. sum_from v ts j)
            (Option.map (λ v. v +ℤ get_transaction_impact_for_account t j) o)
          ≡ Option.map (λ v. sum_from (v +ℤ get_transaction_impact_for_account t j) ts j) o
    twice none = refl
    twice (some v) = refl

sum_from-shift :
    (a b : ℤ) (ts : List TransactionImpact) (j : String)
    → sum_from (a +ℤ b) ts j ≡ a +ℤ sum_from b ts j
unfolding sum_from
sum_from-shift a b [] j = refl
sum_from-shift a b (t ∷ ts) j =
    let x = get_transaction_impact_for_account t j in
    ap (λ s. sum_from s ts j) (+ℤ_assoc a b x) ∙ sum_from-shift a (b +ℤ x) ts j

sum_from-total :
    (a : ℤ) (ts : List TransactionImpact) (j : String)
    → sum_from a ts j ≡ a +ℤ sum_transactions_impact_for_account ts j
unfolding sum_transactions_impact_for_account
sum_from-total a ts j = ap (λ s. sum_from s ts j) (sym (+ℤ-zero a)) ∙ sum_from-shift a (pos 0) ts j

-- The account with an id: of several the last one.
abbrev pub last_account : String → List BalanceAccount → Option BalanceAccount
last_account i [] = none
last_account i (a ∷ accounts) = elim (last_account i accounts) [
  | some b ↦ some b
  | none ↦ if str_eq a.id i then some a else none
]

lookup-from_accounts :
    (accounts : List BalanceAccount) (j : String) (m : BalancesById)
    → lookup j (from_accounts accounts m) ≡ (elim (last_account j accounts) as (λ _. Option ℤ) [
      | none ↦ lookup j m
      | some a ↦ some (opening a)
    ])
unfolding from_accounts
lookup-from_accounts [] j m = refl
lookup-from_accounts (a ∷ accounts) j m =
    rw (lookup-from_accounts accounts j (put a.id (opening a) m))
      (elim (Option-cases (last_account j accounts)) [
        | inr (b, found) ↦ rw found refl
        | inl absent ↦
            rw (absent, lookup-put a.id j (opening a) m)
              (elim (Bool-cases (str_eq a.id j)) [
                | inl own ↦ rw own refl
                | inr other ↦ rw other refl
              ])
      ])

last_account-id :
    (j : String) (accounts : List BalanceAccount) (a : BalanceAccount)
    → last_account j accounts ≡ some a
    → a.id ≡ j
last_account-id j [] a h = cc h
last_account-id j (b ∷ accounts) a h = elim (Option-cases (last_account j accounts)) [
  | inr (c, found) ↦ last_account-id j accounts a (found ∙ (rw found at h))
  | inl absent ↦ ground (arith, eq_iff b.id j)
]

-- The balances that one pass over the transactions gives to all accounts are those that each
-- account's own sum gives, and an id without an account has none, provided that no transfer is from
-- an account to itself.
pub lookup-get_accounts_balances :
    (accounts : List BalanceAccount) (ts : List TransactionImpact) (j : String)
    → All IsProper ts
    → lookup j (get_accounts_balances accounts ts)
      ≡ Option.map (λ a. get_computed_account_balance a ts) (last_account j accounts)
unfolding get_accounts_balances get_computed_account_balance trata.Balances.lookup
lookup-get_accounts_balances accounts ts j h =
    lookup-apply_impacts ts j (from_accounts accounts []) h
    ∙ rw (lookup-from_accounts accounts j []) (each (last_account j accounts) refl)
  where
    each :
        (o : Option BalanceAccount)
        → last_account j accounts ≡ o
        → Option.map
            (λ v. sum_from v ts j)
            (elim o as (λ _. Option ℤ) [ none ↦ none | some a ↦ some (opening a) ])
          ≡ Option.map (λ a. opening a +ℤ sum_transactions_impact_for_account ts a.id) o
    each none q = refl
    each (some a) q =
        rw (last_account-id j accounts a q) (ap some (sum_from-total (opening a) ts j))
