-- ===== src/Base/Decimal/Roundtrip.antt =====
-- What is printed by `%d` is read back by `strconv.ParseInt`.
use Prim.Native.Char.{code}
use Prim.Native.Nat.{ℕ, zero, suc, ◌+◌, ◌*◌, ◌/◌, ◌%◌, ◌^◌, ◌<◌}
use Prim.Native.String.{String}
use Prim.Native.String
use Prim.Native.String.append
use mathlib.Core.Path.{◌≡◌, refl, ap, sym, ◌∙◌}
use mathlib.Core.Logic.{inl, inr}
use mathlib.Core.Bool.{Bool, true, false, ◌&&◌}
use mathlib.Core.Option.{some}
use mathlib.Core.List.{List, [], ◌∷◌, ◌++◌, append-nil, append_assoc}
use native.Mathlib.Omega.{arith}
use dodo_payment_gateway.Base.Tests.{ltb, leb, Bool-cases}
use dodo_payment_gateway.Base.Int.{pos}
use dodo_payment_gateway.Base.Decimal.{
  codes, digit, decimal_fuel, decimal, read_digits, read_number, positive, parse_int,
}

codes-append : (s t : String) → codes (String.◌++◌ s t) ≡ codes s ++ codes t
codes-append String.[] t = λ i. codes (append.nil t i)
codes-append (String.◌∷◌ c s) t =
    (λ i. codes (append.cons c s t i)) ∙ ap (λ (cs : List ℕ). code c ∷ cs) (codes-append s t)

codes-digit : (d : ℕ) → d < 10 → codes (digit d) ≡ (48 + d) ∷ []
unfolding digit
codes-digit zero h = refl
codes-digit (suc zero) h = refl
codes-digit (suc (suc zero)) h = refl
codes-digit (suc (suc (suc zero))) h = refl
codes-digit (suc (suc (suc (suc zero)))) h = refl
codes-digit (suc (suc (suc (suc (suc zero))))) h = refl
codes-digit (suc (suc (suc (suc (suc (suc zero)))))) h = refl
codes-digit (suc (suc (suc (suc (suc (suc (suc zero))))))) h = refl
codes-digit (suc (suc (suc (suc (suc (suc (suc (suc zero)))))))) h = refl
codes-digit (suc (suc (suc (suc (suc (suc (suc (suc (suc zero))))))))) h = refl
codes-digit (suc (suc (suc (suc (suc (suc (suc (suc (suc (suc n)))))))))) h = absurd (omega arith)

read_digits-digit :
    (acc d : ℕ) (rest : List ℕ)
    → d < 10
    → read_digits acc (codes (digit d) ++ rest) ≡ read_digits (10 * acc + d) rest
unfolding read_digits
read_digits-digit acc d rest h = rw (codes-digit d h) (ground arith)

read_digits-decimal :
    (f n : ℕ) (rest : List ℕ)
    → n < f
    → read_digits 0 (codes (decimal_fuel f n) ++ rest) ≡ read_digits n rest
unfolding decimal_fuel
read_digits-decimal zero n rest h = absurd (omega arith)
read_digits-decimal (suc f) n rest h = elim (Bool-cases (ltb n 10)) [
  | inl small ↦
      rw small (
        read_digits-digit 0 n rest (ground arith)
        ∙ ap (λ (m : ℕ). read_digits m rest) (omega arith))
  | inr large ↦ rw large (
      ap (λ (cs : List ℕ). read_digits 0 (cs ++ rest))
        (codes-append (decimal_fuel f (n / 10)) (digit (n % 10)))
      ∙ ap (read_digits 0)
          (append_assoc (codes (decimal_fuel f (n / 10))) (codes (digit (n % 10))) rest)
      ∙ read_digits-decimal f (n / 10) (codes (digit (n % 10)) ++ rest) (ground arith)
      ∙ read_digits-digit (n / 10) (n % 10) rest (omega arith)
      ∙ ap (λ (m : ℕ). read_digits m rest) (omega arith))
]

-- A text of digits only, not empty, is read as a number without a sign.
abbrev is_digits : List ℕ → Bool
is_digits [] = false
is_digits (c ∷ cs) = leb b'0' c && leb c b'9'

parse_int-digits : (cs : List ℕ) → is_digits cs ≡ true → parse_int cs ≡ positive (read_digits 0 cs)
unfolding parse_int read_number
parse_int-digits [] h = cc
parse_int-digits (c ∷ cs) h = ground arith

is_digits-append : (xs ys : List ℕ) → is_digits xs ≡ true → is_digits (xs ++ ys) ≡ true
is_digits-append [] ys h = cc
is_digits-append (x ∷ xs) ys h = h

is_digits-digit : (d : ℕ) → d < 10 → is_digits (codes (digit d)) ≡ true
is_digits-digit d h = rw (codes-digit d h) (ground arith)

is_digits-decimal : (f n : ℕ) → n < f → is_digits (codes (decimal_fuel f n)) ≡ true
unfolding decimal_fuel
is_digits-decimal zero n h = absurd (omega arith)
is_digits-decimal (suc f) n h = elim (Bool-cases (ltb n 10)) [
  | inl small ↦ rw small (is_digits-digit n (ground arith))
  | inr large ↦
      rw (large, codes-append)
        (is_digits-append (codes (decimal_fuel f (n / 10))) _
          (is_digits-decimal f (n / 10) (ground arith)))
]

-- Every number below 2 ^ 63 is printed as a text that reads as that number.
pub parse_int-decimal : (n : ℕ) → n < 2 ^ 63 → parse_int (codes (decimal n)) ≡ some (pos n)
unfolding decimal positive read_digits
parse_int-decimal n h =
    parse_int-digits (codes (decimal n)) (is_digits-decimal (suc n) n (omega arith))
    ∙ ap (λ (cs : List ℕ). positive (read_digits 0 cs)) (sym (append-nil (codes (decimal n))))
    ∙ ap positive (read_digits-decimal (suc n) n [] (omega arith))
    ∙ ground arith
