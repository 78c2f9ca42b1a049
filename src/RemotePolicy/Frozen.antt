-- ===== src/RemotePolicy/Frozen.antt =====
-- `_deep_freeze`, `_thaw_json` and `_strict_json_copy` of src/shared_mind/remote_policy.py. A
-- frozen value has a tuple for each list and a mapping proxy for each dictionary.
use shared_mind.Base.{
  String, [], ◌∷◌, ◌≡◌, refl, ap, Result, ok, err, ◌>>=◌, contains, if◌then◌else◌,
}
use shared_mind.Kernel.Json.{
  Json, null, literal, text, foreign, array, object, Items, nil, cons, Fields, end, field,
}
use shared_mind.RemotePolicy.Values.{Refusal, value_error}

mutual
  pub data Frozen : Type 0 where
    leaf : Json → Frozen
    tuple : FrozenItems → Frozen
    proxy : FrozenFields → Frozen

  pub data FrozenItems : Type 0 where
    none_left : FrozenItems
    item : Frozen → FrozenItems → FrozenItems

  pub data FrozenFields : Type 0 where
    no_fields : FrozenFields
    entry : String → Frozen → FrozenFields → FrozenFields

unfoldable mutual
  pub deep_freeze : Json → Frozen
  deep_freeze (array vs) = tuple (freeze_items vs)
  deep_freeze (object m) = proxy (freeze_fields m)
  deep_freeze v = leaf v

  pub freeze_items : Items → FrozenItems
  freeze_items nil = none_left
  freeze_items (cons v vs) = item (deep_freeze v) (freeze_items vs)

  pub freeze_fields : Fields → FrozenFields
  freeze_fields end = no_fields
  freeze_fields (field k v m) = entry k (deep_freeze v) (freeze_fields m)

unfoldable mutual
  pub thaw_json : Frozen → Json
  thaw_json (leaf v) = v
  thaw_json (tuple vs) = array (thaw_items vs)
  thaw_json (proxy m) = object (thaw_fields m)

  pub thaw_items : FrozenItems → Items
  thaw_items none_left = nil
  thaw_items (item v vs) = cons (thaw_json v) (thaw_items vs)

  pub thaw_fields : FrozenFields → Fields
  thaw_fields no_fields = end
  thaw_fields (entry k v m) = field k (thaw_json v) (thaw_fields m)

mutual
  unfolding thaw_json deep_freeze thaw_items freeze_items thaw_fields freeze_fields

  thaw_json-deep_freeze : (v : Json) → thaw_json (deep_freeze v) ≡ v
  thaw_json-deep_freeze null = refl
  thaw_json-deep_freeze (literal _) = refl
  thaw_json-deep_freeze (text _) = refl
  thaw_json-deep_freeze (foreign _) = refl
  thaw_json-deep_freeze (array vs) = ap array (thaw_items-freeze_items vs)
  thaw_json-deep_freeze (object m) = ap object (thaw_fields-freeze_fields m)

  thaw_items-freeze_items : (vs : Items) → thaw_items (freeze_items vs) ≡ vs
  thaw_items-freeze_items nil = refl
  thaw_items-freeze_items (cons v vs) = rw (thaw_json-deep_freeze v, thaw_items-freeze_items vs)

  -- Thawing a frozen mapping gives the mapping.
  pub thaw_fields-freeze_fields : (m : Fields) → thaw_fields (freeze_fields m) ≡ m
  thaw_fields-freeze_fields end = refl
  thaw_fields-freeze_fields (field k v m) =
      rw (thaw_json-deep_freeze v, thaw_fields-freeze_fields m)

abbrev not_canonical : Refusal
not_canonical = value_error "remote policy document must contain canonical JSON values"

unfoldable mutual
  pub strict_json_copy : Json → Result Refusal Json
  strict_json_copy (array vs) = strict_items vs >>= λ copied. ok (array copied)
  strict_json_copy (object m) = strict_fields m >>= λ copied. ok (object copied)
  strict_json_copy (foreign _) = err not_canonical
  strict_json_copy (literal t) =
      if contains t ("NaN" ∷ "Infinity" ∷ "-Infinity" ∷ [])
      then err not_canonical
      else ok (literal t)
  strict_json_copy v = ok v

  pub strict_items : Items → Result Refusal Items
  strict_items nil = ok nil
  strict_items (cons v vs) = do
    copied ← strict_json_copy v
    rest ← strict_items vs
    ok (cons copied rest)

  pub strict_fields : Fields → Result Refusal Fields
  strict_fields end = ok end
  strict_fields (field k v m) = do
    copied ← strict_json_copy v
    rest ← strict_fields m
    ok (field k copied rest)
