-- ===== src/RemotePolicy/Values.antt =====
-- The values that src/shared_mind/remote_policy.py takes and what it calls outside the repository. A
-- mapping is the fields of a JSON object; `foreign` stands for any other Python value, a mapping with
-- keys that are no texts included.
use Prim.Native.String.{◌++◌}
use shared_mind.Base.{
  String, Bool, true, false, not, Option, none, some, List, [], ◌∷◌, ◌==◌, contains, if◌then◌else◌,
  Result, ok, err, ◌>>=◌, ◌>>◌, raise_if, collect,
}
use shared_mind.Kernel.State.{Bytes}
use shared_mind.Kernel.Json.{
  Json, null, text, array, object, Items, nil, cons, Fields, end, get_field, or_null,
}

-- What the source raises: a TypeError, or a ValueError by the end of its message. The place in the
-- document, which the message starts with, is left out.
pub data Refusal : Type 0 where
  type_error : String → Refusal
  value_error : String → Refusal

-- urllib.parse.urlsplit(url), as far as the source reads it
pub record Url : Type 0 where
  pub scheme : String
  pub netloc : String
  pub path : String
  pub query : String
  pub fragment : String

pub record Library : Type 0 where
  -- str.strip
  pub strip : String → String
  -- urllib.parse.unquote, and urlsplit with none for its ValueError
  pub unquote : String → String
  pub urlsplit : String → Option Url
  -- json.dumps(value, allow_nan=False, ensure_ascii=False, sort_keys=True, separators=(",", ":"))
  -- .encode("utf-8"), and none for a TypeError or a ValueError
  pub dumps : Fields → Option Bytes
  -- json.loads of such bytes
  pub loads : Bytes → Option Fields
  -- hashlib.sha256(value).hexdigest()
  pub sha256_hex : Bytes → String

-- `a == b` where one side is a text or None, as a field of a compiled policy is
unfoldable pub same : Json → Json → Bool
same null null = true
same (text a) (text b) = a == b
same _ _ = false

-- value in values, for texts
unfoldable pub member : Json → List String → Bool
member (text a) values = contains a values
member _ values = false

-- mapping.get(key)
unfoldable pub read : String → Fields → Json
read key m = or_null (get_field key m)

-- value if isinstance(value, str) else None
unfoldable pub string_or_none : Json → Option String
string_or_none (text t) = some t
string_or_none _ = none

-- [item for item in value if isinstance(item, str)]
unfoldable pub strings_of : Items → List String
strings_of nil = []
strings_of (cons (text t) vs) = t ∷ strings_of vs
strings_of (cons _ vs) = strings_of vs

unfoldable pub string_values : Json → List String
string_values (array vs) = strings_of vs
string_values _ = []

-- [item for item in value if isinstance(item, Mapping)]
unfoldable pub mappings_of : Items → List Fields
mappings_of nil = []
mappings_of (cons (object m) vs) = m ∷ mappings_of vs
mappings_of (cons _ vs) = mappings_of vs

unfoldable pub mapping_values : Json → List Fields
mapping_values (array vs) = mappings_of vs
mapping_values _ = []

unfoldable pub mapping_or_empty : Json → Fields
mapping_or_empty (object m) = m
mapping_or_empty _ = end

-- The elements of a JSON array.
unfoldable pub elements : Items → List Json
elements nil = []
elements (cons v vs) = v ∷ elements vs

-- value of `mapping[field_name]`, which must be an object
unfoldable pub required_mapping : Fields → String → Result Refusal Fields
required_mapping m name = elim (read name m) [
  | object found ↦ ok found
  | _ ↦ err (value_error "must be an object")
]

unfoldable pub as_mapping : Json → Result Refusal Fields
as_mapping (object m) = ok m
as_mapping _ = err (value_error "must be an object")

unfoldable pub object_list_of : Json → Result Refusal (List Fields)
unfolding elements as_mapping
object_list_of (array (cons v vs)) = collect as_mapping (v ∷ elements vs)
object_list_of _ = err (value_error "must be a non-empty list")

unfoldable pub required_object_list : Fields → String → Result Refusal (List Fields)
unfolding object_list_of read
required_object_list m name = object_list_of (read name m)

-- for value in values: if value in seen: raise; seen.add(value)
unfoldable pub reject_seen : List String → List String → Result Refusal (Unit {0})
reject_seen seen [] = ok tt
reject_seen seen (x ∷ xs) =
    raise_if (contains x seen) (value_error "contains duplicate values")
    >> reject_seen (x ∷ seen) xs

unfoldable pub reject_duplicates : List String → Result Refusal (Unit {0})
reject_duplicates values = reject_seen [] values

module _ (lib : Library) where
  unfoldable pub is_non_empty_string : Json → Bool
  is_non_empty_string (text t) = not (lib.strip t == "")
  is_non_empty_string _ = false

  unfoldable pub non_empty_string : Json → Result Refusal String
  non_empty_string (text t) =
      raise_if (lib.strip t == "") (value_error "must be a non-empty string") >> ok t
  non_empty_string _ = err (value_error "must be a non-empty string")

  unfoldable pub require_non_empty_string : Fields → String → Result Refusal String
  require_non_empty_string m name = non_empty_string (read name m)

  unfoldable pub string_list_of : Bool → Json → Result Refusal (List String)
  unfolding elements non_empty_string reject_duplicates
  string_list_of allow_empty (array nil) =
      if allow_empty then ok [] else err (value_error "must be a non-empty list")
  string_list_of allow_empty (array (cons v vs)) = do
    values ← collect non_empty_string (v ∷ elements vs)
    reject_duplicates values
    ok values
  string_list_of allow_empty _ = err (value_error "must be a list")

  unfoldable pub required_string_list : Fields → String → Bool → Result Refusal (List String)
  unfolding string_list_of read
  required_string_list m name allow_empty = string_list_of allow_empty (read name m)

  -- f"sha256:{digest}" of the canonical JSON; none where that raises
  unfoldable pub canonical_hash : Fields → Option String
  canonical_hash m = elim (lib.dumps m) [
    | none ↦ none
    | some bytes ↦ some ("sha256:" ++ lib.sha256_hex bytes)
  ]
