-- ===== src/RemotePolicy/Compile.antt =====
-- `compile_policy` and `_validate_policy` of src/shared_mind/remote_policy.py.
use Prim.Native.String.{◌++◌}
use shared_mind.Base.{
  String, Bool, true, false, not, ◌||◌, List, [], ◌∷◌, map, ◌==◌, ltb, length, contains, subset,
  Result, ok, err, ◌>>=◌, ◌>>◌, raise_if, or_raise, for_each, collect, starts_with, split_on,
  has_char,
}
use shared_mind.Kernel.Json.{Json, text, object, Fields}
use shared_mind.RemotePolicy.Values.{
  Library, Refusal, type_error, value_error, same, read, required_mapping, required_object_list,
  require_non_empty_string, required_string_list, reject_duplicates, canonical_hash,
}
use shared_mind.RemotePolicy.SourceRef.{validate_source_root}
use shared_mind.RemotePolicy.Frozen.{freeze_fields, strict_fields}
use shared_mind.RemotePolicy.Evaluate.{first_segment}
use shared_mind.RemotePolicy.Decide.{CompiledPolicy}

-- any(not segment for segment in segments)
has_empty : List String → Bool
has_empty [] = false
has_empty (x ∷ xs) = x == "" || has_empty xs

-- any("." in field_name for field_name in allow_fields)
any_dotted : List String → Bool
unfolding has_char
any_dotted [] = false
any_dotted (x ∷ xs) = has_char b'.' x || any_dotted xs

-- One of the two paths is above the other.
unfoldable pub overlapping : String → String → Bool
unfolding starts_with
overlapping path other = starts_with (other ++ ".") path || starts_with (path ++ ".") other

overlaps_any : String → List String → Bool
unfolding overlapping
overlaps_any path [] = false
overlaps_any path (other ∷ others) = overlapping path other || overlaps_any path others

reject_overlaps : List String → Result Refusal (Unit {0})
unfolding overlaps_any
reject_overlaps [] = ok tt
reject_overlaps (path ∷ paths) =
    raise_if (overlaps_any path paths) (value_error "contains overlapping paths")
    >> reject_overlaps paths

check_path : List String → String → Result Refusal (Unit {0})
unfolding split_on has_empty first_segment contains
check_path allowed_roots path =
    let segments = split_on b'.' path in
    raise_if (ltb (length segments) 2 || has_empty segments)
      (value_error "must be a nested dotted path")
    >> raise_if (not (contains (first_segment segments) allowed_roots))
        (value_error "is not rooted in an allowed field")

unfoldable pub validate_redaction_paths : List String → List String → Result Refusal (Unit {0})
unfolding check_path reject_overlaps
validate_redaction_paths paths allowed_roots =
    for_each (check_path allowed_roots) paths >> reject_overlaps paths

module _ (lib : Library) where
  -- The identifier and the actor of a trust binding.
  unfoldable pub check_binding : Fields → Result Refusal (String × String)
  unfolding require_non_empty_string
  check_binding binding = do
    id ← require_non_empty_string lib binding "binding_id"
    _ ← require_non_empty_string lib binding "issuer"
    _ ← require_non_empty_string lib binding "subject"
    actor ← require_non_empty_string lib binding "actor_id"
    ok (id, actor)

  -- The root and the sensitivity of a source label.
  unfoldable pub check_label : Fields → Result Refusal (String × String)
  unfolding require_non_empty_string validate_source_root required_string_list
  check_label label = do
    root ← require_non_empty_string lib label "source_root"
    validate_source_root lib root
    sensitivity ← require_non_empty_string lib label "sensitivity"
    _ ← required_string_list lib label "data_classes" true
    ok (root, sensitivity)

  unfoldable pub check_root : List String → String → Result Refusal (Unit {0})
  unfolding validate_source_root contains
  check_root known_source_roots root =
      validate_source_root lib root
      >> raise_if (not (contains root known_source_roots)) (value_error "has no source label")

  check_disclosure : Fields → Result Refusal (Unit {0})
  unfolding required_string_list any_dotted validate_redaction_paths
  check_disclosure disclosure = do
    allow_fields ← required_string_list lib disclosure "allow_fields" false
    raise_if (any_dotted allow_fields) (value_error "must name top-level fields")
    redact_paths ← required_string_list lib disclosure "redact_paths" true
    validate_redaction_paths redact_paths allow_fields

  -- The capability of a scope, against the trusted actors, the labelled roots and their sensitivities.
  unfoldable pub check_scope_of :
      List String → List String → List String → Fields → Result Refusal String
  unfolding require_non_empty_string required_string_list subset check_root required_mapping
      check_disclosure
  check_scope_of trusted_actor_ids known_source_roots sensitivities scope = do
    capability ← require_non_empty_string lib scope "capability"
    _ ← required_string_list lib scope "operation_types" false
    actor_ids ← required_string_list lib scope "actor_ids" false
    raise_if (not (subset actor_ids trusted_actor_ids)) (value_error "contains an untrusted actor")
    scoped_roots ← required_string_list lib scope "source_roots" false
    for_each (check_root known_source_roots) scoped_roots
    allowed_sensitivities ← required_string_list lib scope "allowed_sensitivities" false
    raise_if (not (subset allowed_sensitivities sensitivities))
        (value_error "contains an unknown sensitivity")
    disclosure ← required_mapping scope "disclosure"
    check_disclosure disclosure
    ok capability

  check_pin : Fields → Result Refusal (Unit {0})
  unfolding require_non_empty_string
  check_pin pin = do
    _ ← require_non_empty_string lib pin "endpoint_id"
    _ ← require_non_empty_string lib pin "origin"
    _ ← require_non_empty_string lib pin "protocol_version"
    _ ← require_non_empty_string lib pin "adapter_version"
    ok tt

  unfoldable pub check_header : Fields → Result Refusal (Unit {0})
  unfolding same read require_non_empty_string check_pin required_mapping
  check_header document = do
    raise_if (not (same (read "policy_version" document) (text "remote-adapter-policy@1")))
        (value_error "unsupported remote policy version")
    raise_if (not (same (read "default_effect" document) (text "DENY")))
        (value_error "remote policies must deny by default")
    _ ← require_non_empty_string lib document "policy_id"
    _ ← require_non_empty_string lib document "registry_version"
    pin ← required_mapping document "endpoint_pin"
    check_pin pin

  unfoldable pub validate_policy : Fields → Result Refusal (Unit {0})
  unfolding check_header required_object_list check_binding check_label check_scope_of
      reject_duplicates
  validate_policy document = do
    check_header document
    trust_bindings ← required_object_list document "trust_bindings"
    bindings ← collect check_binding trust_bindings
    reject_duplicates (map (λ b. b.0) bindings)
    source_labels ← required_object_list document "source_labels"
    labels ← collect check_label source_labels
    let roots = map (λ l. l.0) labels
    reject_duplicates roots
    capability_scopes ← required_object_list document "capability_scopes"
    let actors = map (λ b. b.1) bindings
    let sensitivities = map (λ l. l.1) labels
    capability_names ← collect (check_scope_of actors roots sensitivities) capability_scopes
    reject_duplicates capability_names

  unfoldable pub compile_policy : Json → Result Refusal CompiledPolicy
  unfolding strict_fields validate_policy canonical_hash freeze_fields
  compile_policy (object m) = do
    document ← strict_fields m
    validate_policy document
    hash ← or_raise (canonical_hash lib document) (value_error "no canonical JSON")
    ok (record { policy_hash = hash; document = freeze_fields document })
  compile_policy _ = err (type_error "remote policy document must be a mapping")
