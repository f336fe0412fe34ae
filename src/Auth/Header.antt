-- ===== src/Auth/Header.antt =====
-- What an Authorization header must say.
use Prim.Native.Char.{Char, code}
use Prim.Native.String.{◌++◌}
use Prim.Native.String.append
use text.Mathlib.TextEquality.{Char-path}
use text.Mathlib.TextLemmas.{append_assoc}
use dodo_payment_gateway.Base.{
  ◌≡◌, ◌∙◌, ◌↔◌, refl, sym, ap, inl, inr, String, true, Option, none, some, nat_eq, arith, eq_iff,
  Bool-cases,
}
use dodo_payment_gateway.Auth.{prepend, split_space, bearer}

append-cons : (c : Char) (s t : String) → String.◌∷◌ c s ++ t ≡ String.◌∷◌ c (s ++ t)
append-cons c s t = λ i. append.cons c s t i

append-nil : (t : String) → String.[] ++ t ≡ t
append-nil t = λ i. append.nil t i

after : (c : Char) {s t : String} → s ≡ t → String.◌∷◌ c s ≡ String.◌∷◌ c t
after c h = ap (String.◌∷◌ c) h

spell :
    (t : String)
    → "Bearer" ++ t
      ≡ String.◌∷◌ "B"
          (String.◌∷◌ "e" (String.◌∷◌ "a" (String.◌∷◌ "r" (String.◌∷◌ "e" (String.◌∷◌ "r" t)))))
spell t =
    append-cons "B" "earer" t
    ∙ after "B" (append-cons "e" "arer" t)
    ∙ after "B" (after "e" (append-cons "a" "rer" t))
    ∙ after "B" (after "e" (after "a" (append-cons "r" "er" t)))
    ∙ after "B" (after "e" (after "a" (after "r" (append-cons "e" "r" t))))
    ∙ after "B" (
        after "e"
          (after "a" (after "r" (after "e" (append-cons "r" "" t ∙ after "r" (append-nil t))))))

bearer-append : (raw : String) → "Bearer " ++ raw ≡ "Bearer" ++ String.◌∷◌ " " raw
bearer-append raw =
    append_assoc "Bearer" " " raw
    ∙ ap (λ t. "Bearer" ++ t) (append-cons " " "" raw ∙ after " " (append-nil raw))

split_space-bearer : (raw : String) → bearer (split_space ("Bearer " ++ raw)) ≡ some raw
unfolding split_space bearer
split_space-bearer raw = rw (bearer-append raw ∙ spell (String.◌∷◌ " " raw)) refl

prepend-some :
    (c : Char) (o : Option (String × String)) {a b : String}
    → prepend c o ≡ some (a, b)
    → (a' : String) × (o ≡ some (a', b)) × (a ≡ String.◌∷◌ c a')
prepend-some c none h = cc
prepend-some c (some (a', b')) h = (a', cc h, cc h)

space_first :
    (c : Char) (s : String) {a b : String}
    → nat_eq (code c) b' ' ≡ true
    → ◌≡◌ {A = Option (String × String)} (some ("", s)) (some (a, b))
    → String.◌∷◌ c s ≡ a ++ String.◌∷◌ " " b
space_first c s {a} {b} space h =
    cc (Char-path c " " (ground arith), append-nil (String.◌∷◌ " " b), h)

pub split_space-some :
    (s : String) {a b : String} → split_space s ≡ some (a, b) → s ≡ a ++ String.◌∷◌ " " b
unfolding split_space
split_space-some String.[] h = cc
split_space-some (String.◌∷◌ c s) {a} {b} h = elim (Bool-cases (nat_eq (code c) b' ')) [
  | inl space ↦ space_first c s space (ground (arith, h))
  | inr other ↦
      let (a', first, shape) = prepend-some c (split_space s) {a = a} {b = b} (ground (arith, h)) in
      after c (split_space-some s first)
      ∙ sym (append-cons c a' (String.◌∷◌ " " b))
      ∙ ap (λ x. x ++ String.◌∷◌ " " b) (sym shape)
]

bearer_cases :
    (o : Option (String × String)) {raw : String} → bearer o ≡ some raw → o ≡ some ("Bearer", raw)
unfolding bearer
bearer_cases none h = cc
bearer_cases (some (scheme, r)) h = ground (arith, eq_iff scheme "Bearer")

-- The header holds a key exactly if it is that key after "Bearer" and one space.
pub bearer-some_iff :
    (auth_header raw_key : String)
    → (bearer (split_space auth_header) ≡ some raw_key) ↔ (auth_header ≡ "Bearer " ++ raw_key)
bearer-some_iff s raw = (
  (λ h. split_space-some s (bearer_cases (split_space s) h) ∙ sym (bearer-append raw)),
  λ h. ap (λ t. bearer (split_space t)) h ∙ split_space-bearer raw,
)
