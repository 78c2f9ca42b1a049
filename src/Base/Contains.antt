-- ===== src/Base/Contains.antt =====
-- Membership in sorted lists, sets and lists of texts.
use Prim.Native.String.{String}
use mathlib.Core.Path.{◌≡◌, refl}
use mathlib.Core.Bool.{true, ◌||◌}
use mathlib.Core.List.{List, [], ◌∷◌}
use native.Mathlib.Omega.{arith}
use text.Mathlib.Text.{◌==◌}
use text.Mathlib.TextEquality.{eq_iff}
use shared_mind.Base.Order.{contains, place, sorted, distinct, subset}

contains-place :
    (a x : String) (xs : List String) → contains a (place x xs) ≡ (x == a || contains a xs)
unfolding contains place
contains-place a x [] = refl
contains-place a x (y ∷ ys) = ground (arith, contains-place a x ys)

-- Sorting keeps the elements.
pub contains-sorted : (a : String) (xs : List String) → contains a (sorted xs) ≡ contains a xs
unfolding contains sorted
contains-sorted a [] = refl
contains-sorted a (x ∷ xs) = ground (arith, contains-place a x (sorted xs), contains-sorted a xs)

-- A set has the elements of its list.
pub contains-distinct : (a : String) (xs : List String) → contains a (distinct xs) ≡ contains a xs
unfolding contains distinct
contains-distinct a [] = refl
contains-distinct a (x ∷ xs) =
    ground (arith, contains-distinct a xs, contains-distinct x xs, eq_iff x a)

-- An element of a subset is an element of the set.
pub contains-subset :
    (a : String) (xs ys : List String)
    → subset xs ys ≡ true
    → contains a xs ≡ true
    → contains a ys ≡ true
unfolding contains subset
contains-subset a [] ys h m = absurd (ground (arith, m))
contains-subset a (x ∷ xs) ys h m = ground (arith, contains-subset a xs ys, h, m, eq_iff x a)
