-- ===== src/Base/Trim.antt =====
-- strings.TrimSpace and strings.ToUpper, for the tests and maps on characters of package unicode.
use Prim.Native.Char.{Char}
use Prim.Native.String.{String}
use mathlib.Core.Bool.{Bool}
use dodo_payment_gateway.Base.Tests.{if◌then◌else◌}

unfoldable pub trim_left : (Char → Bool) → String → String
trim_left is_space String.[] = ""
trim_left is_space (String.◌∷◌ c s) =
    let rest = trim_left is_space s in if is_space c then rest else String.◌∷◌ c s

-- A character before a text that has been trimmed on the right; a space goes if nothing is left.
abbrev pub trim_before : (Char → Bool) → Char → String → String
trim_before is_space c String.[] = if is_space c then "" else String.◌∷◌ c ""
trim_before is_space c (String.◌∷◌ d s) = String.◌∷◌ c (String.◌∷◌ d s)

unfoldable pub trim_right : (Char → Bool) → String → String
trim_right is_space String.[] = ""
trim_right is_space (String.◌∷◌ c s) = trim_before is_space c (trim_right is_space s)

unfoldable pub trim_space : (Char → Bool) → String → String
unfolding trim_left trim_right
trim_space is_space s = trim_right is_space (trim_left is_space s)

unfoldable pub map_text : (Char → Char) → String → String
map_text f String.[] = ""
map_text f (String.◌∷◌ c s) = String.◌∷◌ (f c) (map_text f s)
