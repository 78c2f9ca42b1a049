-- ===== src/Base/Texts.antt =====
-- Python's `startswith`, `split`, `in` and `len` on texts.
use Prim.Native.Nat.{ℕ, suc}
use Prim.Native.Char.{Char, code}
use Prim.Native.String.{String}
use mathlib.Core.Bool.{Bool, false, ◌||◌}
use mathlib.Core.Option.{Option, none, some}
use mathlib.Core.List.{List, [], ◌∷◌}
use shared_mind.Base.Tests.{if◌then◌else◌, nat_eq, is_some}

-- The text behind a prefix.
unfoldable pub after_prefix : String → String → Option String
after_prefix String.[] s = some s
after_prefix (String.◌∷◌ c p) String.[] = none
after_prefix (String.◌∷◌ c p) (String.◌∷◌ d s) =
    let rest = after_prefix p s in if nat_eq (code c) (code d) then rest else none

-- s.startswith(prefix)
unfoldable pub starts_with : String → String → Bool
unfolding after_prefix
starts_with prefix s = is_some (after_prefix prefix s)

-- s.split(sep, 1)[1] where sep is in s
unfoldable pub after_first : String → String → Option String
unfolding after_prefix
after_first sep String.[] = after_prefix sep String.[]
after_first sep (String.◌∷◌ c s) =
    let rest = after_first sep s in
    elim (after_prefix sep (String.◌∷◌ c s)) [ some found ↦ some found | none ↦ rest ]

abbrev grow : Char → List String → List String
grow c [] = String.◌∷◌ c "" ∷ []
grow c (x ∷ xs) = String.◌∷◌ c x ∷ xs

-- s.split(sep), for a separator of one character, by its code
unfoldable pub split_on : ℕ → String → List String
split_on sep String.[] = "" ∷ []
split_on sep (String.◌∷◌ c s) =
    let rest = split_on sep s in if nat_eq (code c) sep then "" ∷ rest else grow c rest

-- sep in s, for one character
unfoldable pub has_char : ℕ → String → Bool
has_char sep String.[] = false
has_char sep (String.◌∷◌ c s) = nat_eq (code c) sep || has_char sep s

-- len(s)
unfoldable pub text_length : String → ℕ
text_length String.[] = 0
text_length (String.◌∷◌ c s) = suc (text_length s)
