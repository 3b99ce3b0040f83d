-- ===== src/Repositories/Amounts.antt =====
-- packages/local-data/src/repositories: the amounts that the repositories accept.
use trata.Prelude.{◌≡◌, inl, inr, Bool, true, false, Option, none, some, arith, Option-cases}
use trata.Prelude.Int.{ℤ, pos, ltb_ℤ}
use trata.Json.{Json, as_int}
use trata.Repositories.Values.{positive_amount, optional_amount}

-- No safe integer, or one below 1.
abbrev pub is_bad_amount : Json → Bool
is_bad_amount v = elim (as_int (some v)) [ none ↦ true | some n ↦ ltb_ℤ n (pos 1) ]

-- An amount that may be left out.
abbrev pub is_bad_change : Option Json → Bool
is_bad_change none = false
is_bad_change (some v) = is_bad_amount v

-- The integer that is given, if one is.
abbrev pub given_amount : Option Json → Option ℤ
given_amount none = none
given_amount (some v) = as_int (some v)

pub positive_amount-bad : (v : Json) → positive_amount v ≡ none → is_bad_amount v ≡ true
unfolding positive_amount
positive_amount-bad v h = ground arith

pub positive_amount-good :
    (v : Json) (n : ℤ)
    → positive_amount v ≡ some n
    → (is_bad_amount v ≡ false) × (as_int (some v) ≡ some n)
unfolding positive_amount
positive_amount-good v n h = (ground arith, ground arith)

pub optional_amount-bad : (o : Option Json) → optional_amount o ≡ none → is_bad_change o ≡ true
unfolding optional_amount
optional_amount-bad none h = cc h
optional_amount-bad (some v) h = elim (Option-cases (positive_amount v)) [
  | inl bad ↦ positive_amount-bad v bad
  | inr (n, good) ↦ cc ((rw (good, optional_amount) at h))
]

pub optional_amount-good :
    (o : Option Json) (n : Option ℤ)
    → optional_amount o ≡ some n
    → (is_bad_change o ≡ false) × (given_amount o ≡ n)
unfolding optional_amount
optional_amount-good none n h = (ground arith, cc h)
optional_amount-good (some v) n h = elim (Option-cases (positive_amount v)) [
  | inl bad ↦ cc ((rw (bad, optional_amount) at h))
  | inr (m, good) ↦
      let e : some (some m) ≡ some n = rw (good, optional_amount) at h in
      let (fine, reads) = positive_amount-good v m good in (fine, cc (reads, e))
]
