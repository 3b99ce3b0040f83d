-- ===== src/Prelude/Rows.antt =====
-- Laws of the row operations of a table: what a statement leaves of a later reading.
use mathlib.Core.Option
use mathlib.Core.Path.{◌≡◌, refl}
use mathlib.Core.Bool.{Bool, true, false, ◌||◌}
use mathlib.Core.List.{List, [], ◌∷◌, ◌++◌}
use mathlib.Core.Option.{Option, none, some}
use native.Mathlib.Omega.{arith}
use Prim.Native.Nat.{◌+◌}
use trata.Prelude.Tests.{if◌then◌else◌}
use trata.Prelude.Lists.{length, any, All, select, delete, update, first}

module _ {ℓ} {A : Type ℓ} where
  -- A deletion that meets no row changes nothing.
  pub delete_absent : (p : A → Bool) (xs : List A) → first p xs ≡ none → delete p xs ≡ xs
  unfolding first delete
  delete_absent p [] h = refl
  delete_absent p (x ∷ xs) h = ground (arith, delete_absent p xs)

  pub delete-delete :
      (p q : A → Bool) (xs : List A) → delete p (delete q xs) ≡ delete (λ x. q x || p x) xs
  unfolding delete
  delete-delete p q [] = refl
  delete-delete p q (x ∷ xs) = ground (arith, delete-delete p q xs)

  pub any-append : (p : A → Bool) (xs ys : List A) → any p (xs ++ ys) ≡ any p xs || any p ys
  any-append p [] ys = refl
  any-append p (x ∷ xs) ys = ground (arith, any-append p xs ys)

  pub any-delete_self : (p : A → Bool) (xs : List A) → any p (delete p xs) ≡ false
  unfolding delete
  any-delete_self p [] = refl
  any-delete_self p (x ∷ xs) = ground (arith, any-delete_self p xs)

  -- A row queued after a deletion of its kind is the only one of that kind.
  pub select-requeue :
      (p : A → Bool) (x : A) (xs : List A) → p x ≡ true → select p (delete p xs ++ x ∷ []) ≡ x ∷ []
  unfolding select delete
  select-requeue p x [] h = ground arith
  select-requeue p x (y ∷ xs) h = ground (arith, select-requeue p x xs h)

  pub any-requeue : (p : A → Bool) (x : A) (xs : List A) → p x ≡ true → any p (xs ++ x ∷ []) ≡ true
  any-requeue p x [] h = ground arith
  any-requeue p x (y ∷ xs) h = ground (arith, any-requeue p x xs h)

  -- A deletion of rows that `p` does not hold of.
  pub any-delete_disjoint :
      (p q : A → Bool) (xs : List A)
      → All (λ x. q x ≡ true → p x ≡ false) xs
      → any p (delete q xs) ≡ any p xs
  unfolding delete
  any-delete_disjoint p q [] h = refl
  any-delete_disjoint p q (x ∷ xs) (h, hs) = ground (arith, any-delete_disjoint p q xs hs)

  -- An update that keeps what `p` says of each row.
  pub first-update_kept :
      (p q : A → Bool) (f : A → A) (xs : List A)
      → ((x : A) → p (f x) ≡ p x)
      → first p (update q f xs) ≡ Option.map (λ x. if q x then f x else x) (first p xs)
  unfolding first update
  first-update_kept p q f [] keeps = refl
  first-update_kept p q f (x ∷ xs) keeps = ground (arith, first-update_kept p q f xs keeps, keeps x)

  pub any-update_kept :
      (p q : A → Bool) (f : A → A) (xs : List A)
      → ((x : A) → p (f x) ≡ p x)
      → any p (update q f xs) ≡ any p xs
  unfolding update
  any-update_kept p q f [] keeps = refl
  any-update_kept p q f (x ∷ xs) keeps = ground (arith, any-update_kept p q f xs keeps, keeps x)

  pub length-select-update :
      (p q : A → Bool) (f : A → A) (xs : List A)
      → ((x : A) → p (f x) ≡ p x)
      → length (select p (update q f xs)) ≡ length (select p xs)
  unfolding select update
  length-select-update p q f [] keeps = refl
  length-select-update p q f (x ∷ xs) keeps =
      ground (arith, length-select-update p q f xs keeps, keeps x)

  pub first-append :
      (p : A → Bool) (x : A) (xs : List A)
      → first p xs ≡ none
      → p x ≡ true
      → first p (xs ++ x ∷ []) ≡ some x
  unfolding first
  first-append p x [] h t = ground arith
  first-append p x (y ∷ xs) h t = ground (arith, first-append p x xs)

  pub length-select_absent :
      (p : A → Bool) (xs : List A) → first p xs ≡ none → length (select p xs) ≡ 0
  unfolding select first
  length-select_absent p [] h = refl
  length-select_absent p (x ∷ xs) h = ground (arith, length-select_absent p xs)

  pub length-select-append :
      (p : A → Bool) (x : A) (xs : List A)
      → length (select p (xs ++ x ∷ [])) ≡ length (select p xs) + (if p x then 1 else 0)
  unfolding select
  length-select-append p x [] = ground arith
  length-select-append p x (y ∷ xs) = ground (arith, length-select-append p x xs)

  -- The row that a reading finds passes its test.
  pub first-passes : (p : A → Bool) (xs : List A) (x : A) → first p xs ≡ some x → p x ≡ true
  unfolding first
  first-passes p [] x h = cc
  first-passes p (y ∷ xs) x h = ground (arith, first-passes p xs x)

  pub All-every {κ} : {P : A → Type κ} → ((x : A) → P x) → (xs : List A) → All P xs
  All-every h [] = tt
  All-every h (x ∷ xs) = (h x, All-every h xs)

  pub first-append_skipped :
      (p : A → Bool) (x : A) (xs : List A) → p x ≡ false → first p (xs ++ x ∷ []) ≡ first p xs
  unfolding first
  first-append_skipped p x [] h = ground arith
  first-append_skipped p x (y ∷ xs) h = ground (arith, first-append_skipped p x xs)

  pub first-delete_disjoint :
      (p q : A → Bool) (xs : List A)
      → All (λ x. q x ≡ true → p x ≡ false) xs
      → first p (delete q xs) ≡ first p xs
  unfolding first delete
  first-delete_disjoint p q [] h = refl
  first-delete_disjoint p q (x ∷ xs) (h, hs) = ground (arith, first-delete_disjoint p q xs hs)
