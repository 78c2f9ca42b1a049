-- ===== src/Kernel/Json.antt =====
-- JSON-like values, and the nesting limit of src/shared_mind/kernel.py.
use shared_mind.Base.{String, Option, none, some, List, [], ◌∷◌, ◌==◌, if◌then◌else◌}
use shared_mind.Documents.{
  Entity, Polarity, positive, negative, ObjectValue, entity, enum, scalar, Proposition,
}

-- A number and a Boolean by their text. `foreign` is any other Python value, by its type's name.
mutual
  pub data Json : Type 0 where
    null : Json
    literal : String → Json
    text : String → Json
    foreign : String → Json
    array : Items → Json
    object : Fields → Json

  pub data Items : Type 0 where
    nil : Items
    cons : Json → Items → Items

  pub data Fields : Type 0 where
    end : Fields
    field : String → Json → Fields → Fields

-- value.get(key)
unfoldable pub get_field : String → Fields → Option Json
get_field k end = none
get_field k (field j v fs) = if j == k then some v else get_field k fs

unfoldable pub get : String → Json → Option Json
unfolding get_field
get k (object fs) = get_field k fs
get k _ = none

-- proposal.get(key, "") if isinstance(proposal, dict) else ""
unfoldable pub member : String → Json → Json
unfolding get
member k j = elim (get k j) [ some v ↦ v | none ↦ text "" ]

abbrev pub nullable : Option String → Json
nullable none = null
nullable (some t) = text t

unfoldable pub entity_json : Entity → Json
entity_json e =
    object (field "entity_id" (text e.entity_id) (field "entity_type" (text e.entity_type) end))

unfoldable pub object_json : ObjectValue → Json
object_json (entity e) = object (
    field "kind" (text "entity")
      (field "entity_id" (text e.entity_id) (field "entity_type" (text e.entity_type) end)))
object_json (enum v) = object (field "kind" (text "enum") (field "value" (text v) end))
object_json (scalar k v) = object (field "kind" (text k) (field "value" (literal v) end))

polarity_text : Polarity → String
polarity_text positive = "POSITIVE"
polarity_text negative = "NEGATIVE"

scope_fields : List (String × Option String) → Fields
scope_fields [] = end
scope_fields ((k, v) ∷ rest) = field k (nullable v) (scope_fields rest)

-- A proposition as the dictionary that the path of a family key walks.
unfoldable pub proposition_json : Proposition → Json
unfolding entity_json object_json polarity_text scope_fields
proposition_json p = object (
    field "proposition_version" (text p.proposition_version) (
      field "subject" (entity_json p.subject) (
        field "predicate" (text p.predicate) (
          field "object" (object_json p.object) (
            field "polarity" (text (polarity_text p.polarity)) (
              field "scope" (object (scope_fields p.scope)) (
                field "valid_time"
                  (object
                    (field "from" (nullable p.valid_from) (field "to" (nullable p.valid_to) end)))
                  end)))))))

abbrev pub or_null : Option Json → Json
or_null none = null
or_null (some v) = v

-- `for part in path.split("."): value = value.get(part) if isinstance(value, dict) else None`
unfoldable pub walk : Json → List String → Json
unfolding get
walk v [] = v
walk v (part ∷ path) = walk (or_null (get part v)) path
