-- ===== src/Repositories/Transactions/Pages.antt =====
-- packages/local-data/src/repositories/transaction.ts: following the cursors of `listPage` reads
-- every row of the query once, in order.
use trata.Prelude.{
  true, false, ℕ, zero, suc, ◌+◌, ◌≤◌, ◌<◌, ◌≡◌, refl, sym, ◌∙◌, ap, inl, inr, Option, none, some,
  List, [], ◌∷◌, ◌++◌, arith, length, take, drop, Bool-cases, ltb, or_else,
}
use mathlib.Core.List.{append-nil}
use trata.Schema.{transaction, Row}
use trata.Repositories.Transactions.Reading.{page_size, page_of}

module _ {A : Type 0} where
  take-drop : (n : ℕ) (xs : List A) → take n xs ++ drop n xs ≡ xs
  take-drop zero xs = refl
  take-drop (suc n) [] = refl
  take-drop (suc n) (x ∷ xs) = ap (λ ys. x ∷ ys) (take-drop n xs)

  drop-length-take : (n : ℕ) (xs : List A) → drop (length (take n xs)) xs ≡ drop n xs
  drop-length-take zero xs = refl
  drop-length-take (suc n) [] = refl
  drop-length-take (suc n) (x ∷ xs) = drop-length-take n xs

  drop-nil : (n : ℕ) → drop {A = A} n [] ≡ []
  drop-nil zero = refl
  drop-nil (suc n) = refl

  drop-drop : (m n : ℕ) (xs : List A) → drop n (drop m xs) ≡ drop (m + n) xs
  drop-drop zero n xs = let e : n ≡ 0 + n = omega arith in ap (λ k. drop k xs) e
  drop-drop (suc m) n [] = drop-nil n ∙ sym (drop-nil (suc m + n))
  drop-drop (suc m) n (x ∷ xs) =
      let e : suc (m + n) ≡ suc m + n = omega arith in
      drop-drop m n xs ∙ ap (λ (k : ℕ). drop k (x ∷ xs)) e

  drop_all : (n : ℕ) (xs : List A) → length xs ≤ n → drop n xs ≡ []
  drop_all zero [] h = refl
  drop_all (suc n) [] h = refl
  drop_all zero (x ∷ xs) h = absurd (omega arith)
  drop_all (suc n) (x ∷ xs) h = drop_all n xs (omega arith)

  length-take_pos : (n : ℕ) (xs : List A) → 0 < n → 0 < length xs → 0 < length (take n xs)
  length-take_pos zero xs h k = absurd (omega arith)
  length-take_pos (suc n) [] h k = absurd (omega arith)
  length-take_pos (suc n) (x ∷ xs) h k = omega arith

  length-drop : (n : ℕ) (xs : List A) → n ≤ length xs → length (drop n xs) + n ≡ length xs
  length-drop zero xs h = omega arith
  length-drop (suc n) [] h = absurd (omega arith)
  length-drop (suc n) (x ∷ xs) h = omega (arith, length-drop n xs)

-- A client that reads pages until there is no cursor, on fuel.
unfoldable pub read_pages :
    ℕ → Option ℕ → Option ℕ → List (Row transaction) → Option (List (Row transaction))
read_pages zero limit cursor all = none
read_pages (suc fuel) limit cursor all =
    let page = page_of limit cursor all in
    elim page.next_cursor [
      | none ↦ some page.transactions
      | some n ↦ elim (read_pages fuel limit (some n) all) [
        | none ↦ none
        | some rest ↦ some (page.transactions ++ rest)
      ]
    ]

module _ (limit : Option ℕ) (all : List (Row transaction)) (pos : 0 < or_else limit page_size) where
  -- The rows from a start on: the page there, and the rows from its end on.
  next_rows :
      (start : ℕ)
      → let slice = take (or_else limit page_size) (drop start all) in
        slice ++ drop (start + length slice) all ≡ drop start all
  next_rows start =
      let k = or_else limit page_size in
      ap (λ ys. take k (drop start all) ++ ys)
        (sym (drop-drop start (length (take k (drop start all))) all)
          ∙ drop-length-take k (drop start all))
      ∙ take-drop k (drop start all)

  last_rows :
      (start : ℕ)
      → let slice = take (or_else limit page_size) (drop start all) in
        ltb (start + length slice) (length all) ≡ false → slice ≡ drop start all
  last_rows start last =
      let slice = take (or_else limit page_size) (drop start all) in
      let ended : drop (start + length slice) all ≡ [] = drop_all _ all (ground (arith, last)) in
      sym (append-nil slice) ∙ (ap (λ ys. slice ++ ys) (sym ended) ∙ next_rows start)

  -- A page that is not the last one is not empty.
  some_rows :
      (start : ℕ)
      → let slice = take (or_else limit page_size) (drop start all) in
        ltb (start + length slice) (length all) ≡ true
        → (0 < length slice) × (start + length slice < length all)
  some_rows start more =
      let slice = take (or_else limit page_size) (drop start all) in
      let inside : start + length slice < length all = ground (arith, more) in
      let left = length-drop start all (omega (arith, inside)) in
      (
        length-take_pos (or_else limit page_size) (drop start all) pos
            (omega (arith, left, inside)),
        inside,
      )

  -- Reading the pages of a positive size from any cursor, with more rounds than there are rows from
  -- there on, ends and gives all of those rows once, in their order.
  pub read_pages-returns :
      (fuel : ℕ) (cursor : Option ℕ)
      → length all ≤ fuel + or_else cursor 0
      → read_pages (suc fuel) limit cursor all ≡ some (drop (or_else cursor 0) all)
  unfolding read_pages page_of
  read_pages-returns zero cursor h =
      let start = or_else cursor 0 in
      let slice = take (or_else limit page_size) (drop start all) in
      elim (Bool-cases (ltb (start + length slice) (length all))) [
        | inr last ↦ rw (last, read_pages, page_of) (ap some (last_rows start last))
        | inl more ↦ absurd (omega (arith, some_rows start more))
      ]
  read_pages-returns (suc fuel) cursor h =
      let start = or_else cursor 0 in
      let slice = take (or_else limit page_size) (drop start all) in
      elim (Bool-cases (ltb (start + length slice) (length all))) [
        | inr last ↦ rw (last, read_pages, page_of) (ap some (last_rows start last))
        | inl more ↦
            let rest =
              read_pages-returns fuel (some (start + length slice))
                (omega (arith, h, some_rows start more)) in
            rw (more, read_pages, page_of) (rw rest (ap some (next_rows start)))
      ]
