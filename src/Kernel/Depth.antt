-- ===== src/Kernel/Depth.antt =====
-- `_json_depth_exceeds`: the loop over a stack of containers still to visit. A value of `Json` has no
-- cycle, so the set of active containers never holds the one that is visited, and is left out.
pub mod Nesting
use shared_mind.Base.{ℕ, zero, suc, ◌+◌, Bool, true, false, List, [], ◌∷◌, ltb, if◌then◌else◌}
use shared_mind.Kernel.Json.{
  Json, null, literal, text, foreign, array, object, Items, nil, cons, Fields, end, field,
}

-- stack.extend((child, depth, False) for child in children): the last child comes off first.
push_items : Items → ℕ → List (Json × ℕ) → List (Json × ℕ)
push_items nil depth stack = stack
push_items (cons v vs) depth stack = push_items vs depth ((v, depth) ∷ stack)

push_fields : Fields → ℕ → List (Json × ℕ) → List (Json × ℕ)
push_fields end depth stack = stack
push_fields (field _ v fs) depth stack = push_fields fs depth ((v, depth) ∷ stack)

-- One round of the loop for each value that comes off the stack.
unfoldable pub exceeds_loop : ℕ → ℕ → List (Json × ℕ) → Bool
unfolding push_items push_fields
exceeds_loop zero maximum stack = false
exceeds_loop (suc fuel) maximum [] = false
exceeds_loop (suc fuel) maximum ((array vs, depth) ∷ stack) =
    let rest = exceeds_loop fuel maximum (push_items vs (depth + 1) stack) in
    if ltb maximum (depth + 1) then true else rest
exceeds_loop (suc fuel) maximum ((object fs, depth) ∷ stack) =
    let rest = exceeds_loop fuel maximum (push_fields fs (depth + 1) stack) in
    if ltb maximum (depth + 1) then true else rest
exceeds_loop (suc fuel) maximum (_ ∷ stack) = exceeds_loop fuel maximum stack

-- The number of values in a value, itself counted.
unfoldable mutual
  pub size : Json → ℕ
  size null = 1
  size (literal _) = 1
  size (text _) = 1
  size (foreign _) = 1
  size (array vs) = suc (size_items vs)
  size (object fs) = suc (size_fields fs)

  pub size_items : Items → ℕ
  size_items nil = 0
  size_items (cons v vs) = size v + size_items vs

  pub size_fields : Fields → ℕ
  size_fields end = 0
  size_fields (field _ v fs) = size v + size_fields fs

-- Each value comes off the stack once, so its size is fuel enough.
unfoldable pub json_depth_exceeds : Json → ℕ → Bool
unfolding exceeds_loop size
json_depth_exceeds value maximum = exceeds_loop (size value) maximum ((value, 0) ∷ [])
