-- ===== src/Base/Rows.antt =====
-- A table as a list of rows, oldest first: what a WHERE clause finds, counts and changes.
use Prim.Native.Nat.{ℕ, zero, suc, ◌+◌, ◌≤◌, ◌<◌}
use mathlib.Core.Path.{◌≡◌, refl, ap, ◌∙◌}
use mathlib.Core.Logic.{inl, inr}
use mathlib.Core.Bool.{Bool, true, false}
use mathlib.Core.Option.{Option, none, some}
use mathlib.Core.List.{List, [], ◌∷◌, ◌++◌}
use native.Mathlib.Omega.{arith}
use dodo_payment_gateway.Base.Tests.{if◌then◌else◌, Bool-cases}

module _ {ℓ} {A : Type ℓ} where
  -- The first row that satisfies the condition.
  unfoldable pub find : (A → Bool) → List A → Option A
  find p [] = none
  find p (x ∷ xs) = if p x then some x else find p xs

  -- The number of rows that satisfy the condition.
  unfoldable pub count : (A → Bool) → List A → ℕ
  count p [] = 0
  count p (x ∷ xs) = (if p x then 1 else 0) + count p xs

  -- UPDATE: `f` on each row that satisfies the condition.
  unfoldable pub update : (A → Bool) → (A → A) → List A → List A
  update p f [] = []
  update p f (x ∷ xs) = (if p x then f x else x) ∷ update p f xs

  unfoldable pub select : (A → Bool) → List A → List A
  select p [] = []
  select p (x ∷ xs) = let rest = select p xs in if p x then x ∷ rest else rest

  -- LIMIT
  unfoldable pub take : ℕ → List A → List A
  take zero xs = []
  take (suc n) [] = []
  take (suc n) (x ∷ xs) = x ∷ take n xs

  -- ORDER BY, for the test whether a row may come before another; a row comes before a later one that
  -- is its equal.
  unfoldable pub insert_by : (A → A → Bool) → A → List A → List A
  insert_by le a [] = a ∷ []
  insert_by le a (x ∷ xs) = let rest = insert_by le a xs in if le a x then a ∷ x ∷ xs else x ∷ rest

  unfoldable pub order_by : (A → A → Bool) → List A → List A
  unfolding insert_by
  order_by le [] = []
  order_by le (x ∷ xs) = insert_by le x (order_by le xs)

  -- INSERT: a new row goes to the end.
  abbrev pub insert : A → List A → List A
  insert a xs = xs ++ a ∷ []

  pub count-insert :
      (p : A → Bool) (a : A) (xs : List A)
      → count p (insert a xs) ≡ count p xs + (if p a then 1 else 0)
  unfolding count
  count-insert p a [] = omega arith
  count-insert p a (x ∷ xs) = omega (arith, count-insert p a xs)

  -- If each changed row keeps its value of `q`, so does the count.
  pub count-update_same :
      (q p : A → Bool) (f : A → A) (xs : List A)
      → ((x : A) → p x ≡ true → q (f x) ≡ q x)
      → count q (update p f xs) ≡ count q xs
  unfolding count update
  count-update_same q p f [] h = refl
  count-update_same q p f (x ∷ xs) h = ground (arith, h x, count-update_same q p f xs h)

  pub count-update_le :
      (q r p : A → Bool) (f : A → A) (xs : List A)
      → ((x : A) → p x ≡ true → q (f x) ≡ true → r x ≡ true)
      → ((x : A) → q x ≡ true → r x ≡ true)
      → count q (update p f xs) ≤ count r xs
  unfolding count update
  count-update_le q r p f [] h k = omega arith
  count-update_le q r p f (x ∷ xs) h k = ground (arith, h x, k x, count-update_le q r p f xs h k)

  pub count_mono :
      (q r : A → Bool) (xs : List A) → ((x : A) → q x ≡ true → r x ≡ true) → count q xs ≤ count r xs
  unfolding count
  count_mono q r [] k = omega arith
  count_mono q r (x ∷ xs) k = ground (arith, k x, count_mono q r xs k)

  pub find-insert-some :
      (p : A → Bool) (a b : A) (xs : List A) → find p xs ≡ some b → find p (insert a xs) ≡ some b
  unfolding find
  find-insert-some p a b [] h = cc
  find-insert-some p a b (x ∷ xs) h = ground (arith, find-insert-some p a b xs)

  pub find-insert-none :
      (p : A → Bool) (a : A) (xs : List A)
      → find p xs ≡ none
      → find p (insert a xs) ≡ (if p a then some a else none)
  unfolding find
  find-insert-none p a [] h = refl
  find-insert-none p a (x ∷ xs) h = ground (arith, find-insert-none p a xs)

  pub find_holds : (p : A → Bool) (a : A) (xs : List A) → find p xs ≡ some a → p a ≡ true
  unfolding find
  find_holds p a [] h = cc
  find_holds p a (x ∷ xs) h = ground (arith, find_holds p a xs)

  pub count-pos_of_find : (p : A → Bool) (a : A) (xs : List A) → find p xs ≡ some a → 0 < count p xs
  unfolding find count
  count-pos_of_find p a [] h = cc
  count-pos_of_find p a (x ∷ xs) h = ground (arith, count-pos_of_find p a xs)

  pub count-eq-zero_of_find-none : (p : A → Bool) (xs : List A) → find p xs ≡ none → count p xs ≡ 0
  unfolding find count
  count-eq-zero_of_find-none p [] h = refl
  count-eq-zero_of_find-none p (x ∷ xs) h = ground (arith, count-eq-zero_of_find-none p xs)

  -- A change that keeps `q` on every row is seen by `find q` on the row that it finds.
  pub find-update :
      (q p : A → Bool) (f : A → A) (xs : List A)
      → ((x : A) → q (f x) ≡ q x)
      → find q (update p f xs)
        ≡ elim (find q xs) [ none ↦ none | some x ↦ some (if p x then f x else x) ]
  unfolding find update
  find-update q p f [] h = refl
  find-update q p f (x ∷ xs) h = ground (arith, h x, find-update q p f xs h)

  pub update-eq_self :
      (p : A → Bool) (f : A → A) (xs : List A) → count p xs ≡ 0 → update p f xs ≡ xs
  unfolding count update
  update-eq_self p f [] h = refl
  update-eq_self p f (x ∷ xs) h = ground (arith, update-eq_self p f xs)

  pub count-eq_of_update :
      (q r p : A → Bool) (f : A → A) (xs : List A)
      → ((x : A) → (if p x then q (f x) else q x) ≡ r x)
      → count q (update p f xs) ≡ count r xs
  unfolding count update
  count-eq_of_update q r p f [] h = refl
  count-eq_of_update q r p f (x ∷ xs) h = ground (arith, h x, count-eq_of_update q r p f xs h)

  -- Where at most one row satisfies `p`, the one that is found stands for all.
  pub count-eq-zero_of_find :
      (p q : A → Bool) (a : A) (xs : List A)
      → count p xs ≤ 1
      → find p xs ≡ some a
      → q a ≡ false
      → ((x : A) → q x ≡ true → p x ≡ true)
      → count q xs ≡ 0
  unfolding count find
  count-eq-zero_of_find p q a [] u h k i = refl
  count-eq-zero_of_find p q a (x ∷ xs) u h k i =
      ground (arith, i x, count-eq-zero_of_find p q a xs, count_mono q p xs i)

  -- A row that is inserted only where `q` finds none stays the only one with `p`.
  pub count-insert_unique :
      (p q : A → Bool) (a : A) (xs : List A)
      → find q xs ≡ none
      → count p xs ≤ 1
      → (p a ≡ true → (x : A) → p x ≡ true → q x ≡ true)
      → count p (insert a xs) ≤ 1
  count-insert_unique p q a xs none_found u same = elim (Bool-cases (p a)) [
    | inl hit ↦ omega (
      arith,
      count-insert p a xs ∙ ap (λ (b : Bool). count p xs + (if b then 1 else 0)) hit,
      count_mono p q xs (same hit),
      count-eq-zero_of_find-none q xs none_found,
    )
    | inr miss ↦
        omega
          (arith, count-insert p a xs ∙ ap (λ (b : Bool). count p xs + (if b then 1 else 0)) miss)
  ]

  pub count-update_le_add :
      (q r p : A → Bool) (f : A → A) (xs : List A)
      → ((x : A) → p x ≡ true → q (f x) ≡ true → r x ≡ true)
      → count q (update p f xs) ≤ count q xs + count r xs
  unfolding count update
  count-update_le_add q r p f [] h = omega arith
  count-update_le_add q r p f (x ∷ xs) h = ground (arith, h x, count-update_le_add q r p f xs h)

  -- The row that is found first is also the first of fewer, if it is one of them.
  pub find_fewer :
      (p q : A → Bool) (a : A) (xs : List A)
      → find p xs ≡ some a
      → q a ≡ true
      → ((x : A) → q x ≡ true → p x ≡ true)
      → find q xs ≡ some a
  unfolding find
  find_fewer p q a [] h k i = cc
  find_fewer p q a (x ∷ xs) h k i = ground (arith, i x, find_fewer p q a xs)
