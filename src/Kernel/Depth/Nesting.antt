-- ===== src/Kernel/Depth/Nesting.antt =====
-- `_json_depth_exceeds` of src/shared_mind/kernel.py beside the nesting of a value.
use shared_mind.Base.{
  ℕ, zero, suc, ◌+◌, ◌≤◌, max, ◌≡◌, refl, Bool, false, ◌||◌, List, [], ◌∷◌, ltb, arith, Bool-cases,
  inl, inr,
}
use shared_mind.Kernel.Json.{
  Json, null, literal, text, foreign, array, object, Items, nil, cons, Fields, end, field,
}
use shared_mind.Kernel.Depth.{
  exceeds_loop, push_items, push_fields, size, size_items, size_fields, json_depth_exceeds,
}

-- How many containers stand inside each other at most.
unfoldable mutual
  pub nesting : Json → ℕ
  nesting null = 0
  nesting (literal _) = 0
  nesting (text _) = 0
  nesting (foreign _) = 0
  nesting (array vs) = suc (nesting_items vs)
  nesting (object fs) = suc (nesting_fields fs)

  pub nesting_items : Items → ℕ
  nesting_items nil = 0
  nesting_items (cons v vs) = max (nesting v) (nesting_items vs)

  pub nesting_fields : Fields → ℕ
  nesting_fields end = 0
  nesting_fields (field _ v fs) = max (nesting v) (nesting_fields fs)

-- What the loop looks for on its stack, and how many values it still visits.
deep : ℕ → List (Json × ℕ) → Bool
deep m [] = false
deep m ((v, d) ∷ s) = ltb m (d + nesting v) || deep m s

total : List (Json × ℕ) → ℕ
total [] = 0
total ((v, d) ∷ s) = size v + total s

IsBelow : ℕ → List (Json × ℕ) → Type 0
IsBelow m [] = Unit
IsBelow m ((v, d) ∷ s) = (d ≤ m) × IsBelow m s

module _ (m d : ℕ) where
  push_items-deep :
      (vs : Items) (s : List (Json × ℕ))
      → d ≤ m
      → deep m (push_items vs d s) ≡ ltb m (d + nesting_items vs) || deep m s
  unfolding push_items deep nesting
  push_items-deep nil s b = ground (arith, b)
  push_items-deep (cons v vs) s b = ground (arith, push_items-deep vs ((v, d) ∷ s) b)

  push_fields-deep :
      (fs : Fields) (s : List (Json × ℕ))
      → d ≤ m
      → deep m (push_fields fs d s) ≡ ltb m (d + nesting_fields fs) || deep m s
  unfolding push_fields deep nesting
  push_fields-deep end s b = ground (arith, b)
  push_fields-deep (field k v fs) s b = ground (arith, push_fields-deep fs ((v, d) ∷ s) b)

  push_items-total :
      (vs : Items) (s : List (Json × ℕ)) → total (push_items vs d s) ≡ size_items vs + total s
  unfolding push_items total size
  push_items-total nil s = omega arith
  push_items-total (cons v vs) s = omega (arith, push_items-total vs ((v, d) ∷ s))

  push_fields-total :
      (fs : Fields) (s : List (Json × ℕ)) → total (push_fields fs d s) ≡ size_fields fs + total s
  unfolding push_fields total size
  push_fields-total end s = omega arith
  push_fields-total (field k v fs) s = omega (arith, push_fields-total fs ((v, d) ∷ s))

  push_items-IsBelow :
      (vs : Items) (s : List (Json × ℕ)) → d ≤ m → IsBelow m s → IsBelow m (push_items vs d s)
  unfolding push_items IsBelow
  push_items-IsBelow nil s b h = h
  push_items-IsBelow (cons v vs) s b h = push_items-IsBelow vs ((v, d) ∷ s) b (b, h)

  push_fields-IsBelow :
      (fs : Fields) (s : List (Json × ℕ)) → d ≤ m → IsBelow m s → IsBelow m (push_fields fs d s)
  unfolding push_fields IsBelow
  push_fields-IsBelow end s b h = h
  push_fields-IsBelow (field k v fs) s b h = push_fields-IsBelow fs ((v, d) ∷ s) b (b, h)

size-positive : (v : Json) → 1 ≤ size v
unfolding size
size-positive null = omega arith
size-positive (literal t) = omega arith
size-positive (text t) = omega arith
size-positive (foreign t) = omega arith
size-positive (array vs) = omega arith
size-positive (object fs) = omega arith

exceeds_loop-deep :
    (fuel m : ℕ) (s : List (Json × ℕ))
    → IsBelow m s
    → total s ≤ fuel
    → exceeds_loop fuel m s ≡ deep m s
unfolding exceeds_loop deep total size nesting IsBelow
exceeds_loop-deep zero m [] b t = refl
exceeds_loop-deep zero m ((v, d) ∷ s) b t = absurd (omega (arith, t, size-positive v))
exceeds_loop-deep (suc fuel) m [] b t = refl
exceeds_loop-deep (suc fuel) m ((null, d) ∷ s) b t =
    ground (arith, exceeds_loop-deep fuel m s b.1 (omega (arith, t)), b.0)
exceeds_loop-deep (suc fuel) m ((literal x, d) ∷ s) b t =
    ground (arith, exceeds_loop-deep fuel m s b.1 (omega (arith, t)), b.0)
exceeds_loop-deep (suc fuel) m ((text x, d) ∷ s) b t =
    ground (arith, exceeds_loop-deep fuel m s b.1 (omega (arith, t)), b.0)
exceeds_loop-deep (suc fuel) m ((foreign x, d) ∷ s) b t =
    ground (arith, exceeds_loop-deep fuel m s b.1 (omega (arith, t)), b.0)
exceeds_loop-deep (suc fuel) m ((array vs, d) ∷ s) b t = elim (Bool-cases (ltb m (d + 1))) [
  | inl e ↦ ground (arith, e)
  | inr e ↦
      let below : d + 1 ≤ m = ground (arith, e) in
      let rest =
        exceeds_loop-deep fuel m (push_items vs (d + 1) s)
          (push_items-IsBelow m (d + 1) vs s below b.1)
          (omega (arith, t, push_items-total m (d + 1) vs s)) in
      ground (arith, e, rest, push_items-deep m (d + 1) vs s below)
]
exceeds_loop-deep (suc fuel) m ((object fs, d) ∷ s) b t = elim (Bool-cases (ltb m (d + 1))) [
  | inl e ↦ ground (arith, e)
  | inr e ↦
      let below : d + 1 ≤ m = ground (arith, e) in
      let rest =
        exceeds_loop-deep fuel m (push_fields fs (d + 1) s)
          (push_fields-IsBelow m (d + 1) fs s below b.1)
          (omega (arith, t, push_fields-total m (d + 1) fs s)) in
      ground (arith, e, rest, push_fields-deep m (d + 1) fs s below)
]

-- For every value and every limit, the loop, on the fuel that it is given, says that the value exceeds
-- the limit exactly when the containers that stand inside each other in it are more than the limit.
pub json_depth_exceeds-nesting : (v : Json) (m : ℕ) → json_depth_exceeds v m ≡ ltb m (nesting v)
unfolding json_depth_exceeds deep total IsBelow
json_depth_exceeds-nesting v m =
    let loop = exceeds_loop-deep (size v) m ((v, 0) ∷ []) (omega arith, tt) (omega arith) in
    ground (arith, loop)
