-- ===== src/Base/Elements.antt =====
-- What holds of every element of a list of texts, and of `sorted(set(...))` of it.
use Prim.Native.String.{String}
use mathlib.Core.Path.{◌≡◌, refl}
use mathlib.Core.Bool.{Bool, true, false}
use mathlib.Core.List.{List, [], ◌∷◌, ◌++◌}
use native.Mathlib.Omega.{arith}
use shared_mind.Base.Tests.{if◌then◌else◌}
use shared_mind.Base.Order.{text_le, contains, distinct, place, sorted}

abbrev pub Every {ℓ κ} : {A : Type ℓ} → (A → Type κ) → List A → Type κ
Every P [] = Unit
Every P (x ∷ xs) = P x × Every P xs

pub Every-map {ℓ ι κ} :
    {A : Type ℓ} (P : A → Type ι) (Q : A → Type κ) (xs : List A)
    → ((x : A) → P x → Q x)
    → Every P xs
    → Every Q xs
Every-map P Q [] f h = tt
Every-map P Q (x ∷ xs) f h = (f x h.0, Every-map P Q xs f h.1)

pub Every-append {ℓ κ} :
    {A : Type ℓ} (P : A → Type κ) (xs ys : List A) → Every P xs → Every P ys → Every P (xs ++ ys)
Every-append P [] ys hx hy = hy
Every-append P (x ∷ xs) ys hx hy = (hx.0, Every-append P xs ys hx.1 hy)

module _ {κ} (P : String → Type κ) where
  Every-if :
      (b : Bool) (xs ys : List String) → Every P xs → Every P ys → Every P (if b then xs else ys)
  Every-if true xs ys hx hy = hx
  Every-if false xs ys hx hy = hy

  Every-distinct : (xs : List String) → Every P xs → Every P (distinct xs)
  unfolding distinct
  Every-distinct [] h = tt
  Every-distinct (x ∷ xs) h =
      let rest = Every-distinct xs h.1 in
      Every-if (contains x (distinct xs)) (distinct xs) (x ∷ distinct xs) rest (h.0, rest)

  Every-place : (a : String) (xs : List String) → P a → Every P xs → Every P (place a xs)
  unfolding place
  Every-place a [] pa h = (pa, tt)
  Every-place a (x ∷ xs) pa h =
      Every-if (text_le a x) (a ∷ x ∷ xs) (x ∷ place a xs) (pa, h) (h.0, Every-place a xs pa h.1)

  Every-sorted : (xs : List String) → Every P xs → Every P (sorted xs)
  unfolding sorted
  Every-sorted [] h = tt
  Every-sorted (x ∷ xs) h = Every-place x (sorted xs) h.0 (Every-sorted xs h.1)

  -- `sorted(set(xs))` has no new elements.
  pub Every-sorted-distinct : (xs : List String) → Every P xs → Every P (sorted (distinct xs))
  Every-sorted-distinct xs h = Every-sorted (distinct xs) (Every-distinct xs h)

abbrev pub is_nil {ℓ} : {A : Type ℓ} → List A → Bool
is_nil [] = true
is_nil (_ ∷ _) = false

is_nil-sorted : (xs : List String) → is_nil xs ≡ false → is_nil (sorted xs) ≡ false
unfolding sorted
is_nil-sorted [] h = h
is_nil-sorted (x ∷ xs) h = is_nil-place x (sorted xs)
  where
    is_nil-place : (a : String) (ys : List String) → is_nil (place a ys) ≡ false
    is_nil-place a [] = refl
    is_nil-place a (y ∷ ys) = ground arith

is_nil-distinct : (x : String) (xs : List String) → is_nil (distinct (x ∷ xs)) ≡ false
unfolding distinct
is_nil-distinct x xs = kept (distinct xs)
  where
    kept : (ys : List String) → is_nil (if contains x ys then ys else x ∷ ys) ≡ false
    kept [] = refl
    kept (y ∷ ys) = ground arith

-- `sorted(set(xs))` of a list that is not empty is not empty.
pub is_nil-sorted-distinct :
    (xs : List String) → is_nil xs ≡ false → is_nil (sorted (distinct xs)) ≡ false
is_nil-sorted-distinct [] h = absurd (ground (arith, h))
is_nil-sorted-distinct (x ∷ xs) h = is_nil-sorted (distinct (x ∷ xs)) (is_nil-distinct x xs)
