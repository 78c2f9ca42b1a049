-- ===== src/Base/Order.antt =====
-- Python's `sorted` on texts, and sets of texts as lists.
use Prim.Native.Nat.{ℕ, Ordering, compare as compare_ℕ}
use Prim.Native.Char.{code}
use Prim.Native.String.{String, compare, then as and_then}
use Prim.Native.String.compare
use mathlib.Core.Path.{◌≡◌, refl}
use mathlib.Core.Bool.{Bool, true, false, not, ◌&&◌, ◌||◌}
use mathlib.Core.List.{List, [], ◌∷◌}
use native.Mathlib.Omega.{arith}
use text.Mathlib.Text.{◌==◌}
use shared_mind.Base.Tests.{if◌then◌else◌}

-- `a in xs`
unfoldable pub contains : String → List String → Bool
contains a [] = false
contains a (x ∷ xs) = x == a || contains a xs

-- The order of texts by code points.
abbrev pub text_le : String → String → Bool
text_le s t = elim (compare s t) [ Ordering.gt ↦ false | _ ↦ true ]

abbrev flip : Ordering → Ordering
flip Ordering.lt = Ordering.gt
flip Ordering.eq = Ordering.eq
flip Ordering.gt = Ordering.lt

flip-compare_ℕ : (m n : ℕ) → compare_ℕ n m ≡ flip (compare_ℕ m n)
flip-compare_ℕ m n = ground arith

flip-then : (o p : Ordering) → and_then (flip o) (flip p) ≡ flip (and_then o p)
flip-then Ordering.lt p = refl
flip-then Ordering.eq p = refl
flip-then Ordering.gt p = refl

flip-compare : (s t : String) → compare t s ≡ flip (compare s t)
flip-compare String.[] String.[] = rw compare.nil-nil
flip-compare String.[] (String.◌∷◌ d t) = rw (compare.cons-nil, compare.nil-cons)
flip-compare (String.◌∷◌ c s) String.[] = rw (compare.cons-nil, compare.nil-cons)
flip-compare (String.◌∷◌ c s) (String.◌∷◌ d t) =
    rw
      (
        compare.cons-cons d c,
        compare.cons-cons c d,
        flip-compare_ℕ (code c) (code d),
        flip-compare s t,
      )
      (flip-then (compare_ℕ (code c) (code d)) (compare s t))

text_le_total : (s t : String) → text_le s t ≡ false → text_le t s ≡ true
text_le_total s t h = ground (arith, flip-compare s t)

unfoldable pub place : String → List String → List String
place a [] = a ∷ []
place a (x ∷ xs) = if text_le a x then a ∷ x ∷ xs else x ∷ place a xs

-- `sorted(xs)`
unfoldable pub sorted : List String → List String
unfolding place
sorted [] = []
sorted (x ∷ xs) = place x (sorted xs)

-- `set(xs)`, each element once
unfoldable pub distinct : List String → List String
unfolding contains
distinct [] = []
distinct (x ∷ xs) = let rest = distinct xs in if contains x rest then rest else x ∷ rest

-- `set(xs) <= set(ys)`
unfoldable pub subset : List String → List String → Bool
unfolding contains
subset [] ys = true
subset (x ∷ xs) ys = contains x ys && subset xs ys

-- A list in the order of `text_le`: each element is at most the next.
abbrev head_ok : String → List String → Bool
head_ok a [] = true
head_ok a (x ∷ xs) = text_le a x

abbrev InOrder : List String → Type 0
InOrder [] = Unit
InOrder (x ∷ xs) = (head_ok x xs ≡ true) × InOrder xs

place-InOrder : (a : String) (xs : List String) → InOrder xs → InOrder (place a xs)
unfolding place
place-InOrder a [] h = (refl, tt)
place-InOrder a (x ∷ []) h = ground (arith, text_le_total a x)
place-InOrder a (x ∷ y ∷ ys) h =
    ground (arith, place-InOrder a (y ∷ ys) h.1, text_le_total a x, text_le_total a y)

sorted-InOrder : (xs : List String) → InOrder (sorted xs)
unfolding sorted
sorted-InOrder [] = tt
sorted-InOrder (x ∷ xs) = place-InOrder x (sorted xs) (sorted-InOrder xs)

place-front : (a : String) (xs : List String) → head_ok a xs ≡ true → place a xs ≡ a ∷ xs
unfolding place
place-front a [] h = refl
place-front a (x ∷ xs) h = rw h

sorted-of_InOrder : (xs : List String) → InOrder xs → sorted xs ≡ xs
unfolding sorted
sorted-of_InOrder [] h = refl
sorted-of_InOrder (x ∷ xs) h = rw (sorted-of_InOrder xs h.1) (place-front x xs h.0)

-- Sorting a sorted list changes nothing.
pub sorted_idem : (xs : List String) → sorted (sorted xs) ≡ sorted xs
sorted_idem xs = sorted-of_InOrder (sorted xs) (sorted-InOrder xs)

-- not (set(xs) & set(ys))
unfoldable pub disjoint : List String → List String → Bool
unfolding contains
disjoint [] ys = true
disjoint (x ∷ xs) ys = not (contains x ys) && disjoint xs ys

module _ {ℓ} {V : Type ℓ} where
  unfoldable pub place_row : String × V → List (String × V) → List (String × V)
  place_row r [] = r ∷ []
  place_row r (x ∷ rows) = if text_le r.0 x.0 then r ∷ x ∷ rows else x ∷ place_row r rows

  -- ORDER BY the primary key
  unfoldable pub order_by_key : List (String × V) → List (String × V)
  unfolding place_row
  order_by_key [] = []
  order_by_key (r ∷ rows) = place_row r (order_by_key rows)

  -- the primary keys
  unfoldable pub keys : List (String × V) → List String
  keys [] = []
  keys ((k, _) ∷ rows) = k ∷ keys rows
