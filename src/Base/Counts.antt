-- ===== src/Base/Counts.antt =====
-- How many rows are left by an order, a limit and a condition.
use Prim.Native.Nat.{ℕ, zero, suc, ◌+◌, ◌≤◌, ◌<◌}
use mathlib.Core.Path.{◌≡◌, refl}
use mathlib.Core.Bool.{Bool, true, false, not, ◌&&◌, ◌||◌}
use mathlib.Core.Option.{none, some}
use mathlib.Core.List.{List, [], ◌∷◌}
use native.Mathlib.Omega.{arith}
use dodo_payment_gateway.Base.Tests.{leb, if◌then◌else◌}
use dodo_payment_gateway.Base.Rows.{find, count, select, take, insert_by, order_by}

module _ {ℓ} {A : Type ℓ} where
  -- Ordering, LIMIT and WHERE add no rows.
  insert_by-count :
      (le : A → A → Bool) (p : A → Bool) (a : A) (xs : List A)
      → count p (insert_by le a xs) ≡ (if p a then 1 else 0) + count p xs
  unfolding insert_by count
  insert_by-count le p a [] = refl
  insert_by-count le p a (x ∷ xs) = ground (arith, insert_by-count le p a xs)

  pub count-order_by :
      (le : A → A → Bool) (p : A → Bool) (xs : List A) → count p (order_by le xs) ≡ count p xs
  unfolding order_by count
  count-order_by le p [] = refl
  count-order_by le p (x ∷ xs) =
      omega (arith, count-order_by le p xs, insert_by-count le p x (order_by le xs))

  pub count-take_le : (p : A → Bool) (n : ℕ) (xs : List A) → count p (take n xs) ≤ count p xs
  unfolding take count
  count-take_le p zero xs = omega arith
  count-take_le p (suc n) [] = omega arith
  count-take_le p (suc n) (x ∷ xs) = omega (arith, count-take_le p n xs)

  pub count-take_le_limit : (p : A → Bool) (n : ℕ) (xs : List A) → count p (take n xs) ≤ n
  unfolding take count
  count-take_le_limit p zero xs = omega arith
  count-take_le_limit p (suc n) [] = omega arith
  count-take_le_limit p (suc n) (x ∷ xs) = ground (arith, count-take_le_limit p n xs)

  pub count-select :
      (p q : A → Bool) (xs : List A) → count p (select q xs) ≡ count (λ x. q x && p x) xs
  unfolding select count
  count-select p q [] = refl
  count-select p q (x ∷ xs) = ground (arith, count-select p q xs)

  pub count-eq-zero : (p : A → Bool) (xs : List A) → ((x : A) → p x ≡ false) → count p xs ≡ 0
  unfolding count
  count-eq-zero p [] h = refl
  count-eq-zero p (x ∷ xs) h = ground (arith, h x, count-eq-zero p xs h)

  pub count-or_le :
      (p q : A → Bool) (xs : List A) → count (λ x. p x || q x) xs ≤ count p xs + count q xs
  unfolding count
  count-or_le p q [] = omega arith
  count-or_le p q (x ∷ xs) = ground (arith, count-or_le p q xs)

  pub find-none_mono :
      (q p : A → Bool) (xs : List A)
      → find p xs ≡ none
      → ((x : A) → q x ≡ true → p x ≡ true)
      → find q xs ≡ none
  unfolding find
  find-none_mono q p [] h k = refl
  find-none_mono q p (x ∷ xs) h k = ground (arith, k x, find-none_mono q p xs)

  -- The row that is found counts, with what else holds of it.
  pub count-pos_of_find_and :
      (p q : A → Bool) (a : A) (xs : List A)
      → find p xs ≡ some a
      → q a ≡ true
      → 0 < count (λ x. q x && p x) xs
  unfolding find count
  count-pos_of_find_and p q a [] h k = cc
  count-pos_of_find_and p q a (x ∷ xs) h k = ground (arith, count-pos_of_find_and p q a xs)

  pub count_split :
      (p q : A → Bool) (xs : List A)
      → count (λ x. q x && p x) xs + count (λ x. q x && not (p x)) xs ≡ count q xs
  unfolding count
  count_split p q [] = refl
  count_split p q (x ∷ xs) = ground (arith, count_split p q xs)

  pub find-eq-none_of_count : (p : A → Bool) (xs : List A) → count p xs ≡ 0 → find p xs ≡ none
  unfolding find count
  find-eq-none_of_count p [] h = refl
  find-eq-none_of_count p (x ∷ xs) h = ground (arith, find-eq-none_of_count p xs)

  -- LIMIT gives as many rows as there are, up to the limit.
  pub count-take :
      (n : ℕ) (xs : List A)
      → let total = count (λ _. true) xs in
        count (λ _. true) (take n xs) ≡ (if leb total n then total else n)
  unfolding take count
  count-take zero [] = refl
  count-take zero (x ∷ xs) = ground arith
  count-take (suc n) [] = ground arith
  count-take (suc n) (x ∷ xs) = ground (arith, count-take n xs)

  pub count_ext : (p q : A → Bool) (xs : List A) → ((x : A) → p x ≡ q x) → count p xs ≡ count q xs
  unfolding count
  count_ext p q [] h = refl
  count_ext p q (x ∷ xs) h = ground (arith, h x, count_ext p q xs h)
