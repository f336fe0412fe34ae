-- ===== src/Migrations/Sorted.antt =====
-- `sort.Strings` of internal/database/migrate.go.
use Prim.Native.String.compare
use dodo_payment_gateway.Base.{
  ◌≡◌, refl, String, Bool, true, false, ◌&&◌, List, [], ◌∷◌, arith, str_ltb, insert_by, order_by,
}
use dodo_payment_gateway.Migrations.{str_leb}

str_ltb-asym : (s t : String) → str_ltb s t ≡ true → str_ltb t s ≡ false
str_ltb-asym String.[] String.[] h = ground (arith, h)
str_ltb-asym String.[] (String.◌∷◌ d t) h = ground (arith, compare.cons-nil d t)
str_ltb-asym (String.◌∷◌ c s) String.[] h = ground (arith, h, compare.cons-nil c s)
str_ltb-asym (String.◌∷◌ c s) (String.◌∷◌ d t) h =
    ground (arith, h, compare.cons-cons c d s t, compare.cons-cons d c t s, str_ltb-asym s t)

str_leb-total : (s t : String) → str_leb s t ≡ false → str_leb t s ≡ true
str_leb-total s t h = ground (arith, h, str_ltb-asym t s)

module _ {ℓ} {A : Type ℓ} (le : A → A → Bool) where
  -- Each element is at most the next.
  abbrev pub is_sorted : List A → Bool
  is_sorted [] = true
  is_sorted (x ∷ []) = true
  is_sorted (x ∷ y ∷ xs) = le x y && is_sorted (y ∷ xs)

  module _ (total : (a b : A) → le a b ≡ false → le b a ≡ true) where
    insert_by-sorted :
        (a : A) (xs : List A) → is_sorted xs ≡ true → is_sorted (insert_by le a xs) ≡ true
    unfolding insert_by
    insert_by-sorted a [] h = refl
    insert_by-sorted a (x ∷ []) h = ground (arith, total a x)
    insert_by-sorted a (x ∷ y ∷ xs) h =
        ground (arith, total a x, total a y, h, insert_by-sorted a (y ∷ xs))

    order_by-sorted : (xs : List A) → is_sorted (order_by le xs) ≡ true
    unfolding order_by
    order_by-sorted [] = refl
    order_by-sorted (x ∷ xs) = insert_by-sorted x (order_by le xs) (order_by-sorted xs)

pub names_sorted : (names : List String) → is_sorted str_leb (order_by str_leb names) ≡ true
names_sorted names = order_by-sorted str_leb str_leb-total names
