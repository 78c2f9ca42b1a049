-- ===== src/RemotePolicy/Evaluate.antt =====
-- The decision of src/shared_mind/remote_policy.py on a request: the trust binding, the scope, the
-- ladder of denials and the disclosure.
use shared_mind.Base.{
  String, Bool, true, not, ◌&&◌, ◌||◌, Option, none, some, List, [], ◌∷◌, if◌then◌else◌, is_some,
  is_nil, contains, sorted, distinct, subset, split_on,
}
use shared_mind.Kernel.Json.{Json, null, text, object, Fields, nullable}
use shared_mind.RemotePolicy.Values.{
  Library, same, member, read, string_values, mapping_values, mapping_or_empty, is_non_empty_string,
}
use shared_mind.RemotePolicy.SourceRef.{Label, source_is_allowed}

abbrev pub trust_fields : List String
trust_fields = "binding_id" ∷ "issuer" ∷ "subject" ∷ "actor_id" ∷ []

unfoldable pub all_fields : (String → Bool) → List String → Bool
all_fields f [] = true
all_fields f (name ∷ names) = f name && all_fields f names

-- The two mappings agree on the trust fields.
unfoldable pub agrees : Fields → Fields → Bool
unfolding all_fields same read
agrees a b = all_fields (λ name. same (read name a) (read name b)) trust_fields

-- for candidate in candidates: if ...: return candidate
unfoldable pub first_mapping : (Fields → Bool) → List Fields → Option Fields
first_mapping test [] = none
first_mapping test (x ∷ xs) = let rest = first_mapping test xs in if test x then some x else rest

unfoldable pub capability_scope : Fields → Option String → Option Fields
unfolding first_mapping mapping_values same read
capability_scope document capability =
    first_mapping (λ scope. same (read "capability" scope) (nullable capability))
      (mapping_values (read "capability_scopes" document))

unfoldable pub disclosure_is_allowed : Fields → Fields → Bool
unfolding mapping_or_empty string_values subset read
disclosure_is_allowed scope request =
    let disclosure = mapping_or_empty (read "disclosure" scope) in
    let requested = string_values (read "requested_fields" request) in
    not (is_nil requested) && subset requested (string_values (read "allow_fields" disclosure))

-- path.partition(".")[0]
unfoldable pub first_segment : List String → String
first_segment [] = ""
first_segment (x ∷ _) = x

unfoldable pub root_of : String → String
unfolding split_on first_segment
root_of path = first_segment (split_on b'.' path)

unfoldable pub rooted_in : List String → List String → List String
unfolding root_of contains
rooted_in roots [] = []
rooted_in roots (path ∷ paths) =
    let rest = rooted_in roots paths in if contains (root_of path) roots then path ∷ rest else rest

pub record Disclosure : Type 0 where
  pub allowed_fields : List String
  pub redacted_paths : List String

unfoldable pub allowed_disclosure : Option Fields → Fields → Disclosure
unfolding mapping_or_empty string_values sorted distinct rooted_in read
allowed_disclosure none request = record { allowed_fields = []; redacted_paths = [] }
allowed_disclosure (some scope) request =
    let disclosure = mapping_or_empty (read "disclosure" scope) in
    let requested = sorted (distinct (string_values (read "requested_fields" request))) in
    record {
      allowed_fields = requested;
      redacted_paths =
          sorted (rooted_in requested (string_values (read "redact_paths" disclosure)));
    }

module _ (lib : Library) where
  unfoldable pub trusted_binding : Fields → Json → Option Fields
  unfolding is_non_empty_string all_fields agrees first_mapping mapping_values read
  trusted_binding document (object binding) =
      if all_fields (λ name. is_non_empty_string lib (read name binding)) trust_fields
      then first_mapping (agrees binding) (mapping_values (read "trust_bindings" document))
      else none
  trusted_binding document _ = none

  -- The checks of `_denial_reason` on the scope of the capability.
  unfoldable pub scope_denial : Fields → Fields → Option String → Label → Fields → Option String
  unfolding member read string_values source_is_allowed disclosure_is_allowed
  scope_denial request trusted ref label scope =
      if not (member (read "operation_type" request) (string_values (read "operation_types" scope)))
      then some "OPERATION_SCOPE_DENIED"
      else if not (member (read "actor_id" trusted) (string_values (read "actor_ids" scope)))
      then some "ACTOR_BINDING_MISMATCH"
      else if not (source_is_allowed lib scope ref) || not (is_some label.source_root)
      then some "SOURCE_SCOPE_DENIED"
      else if not
          (member (nullable label.sensitivity) (string_values (read "allowed_sensitivities" scope)))
      then some "SENSITIVITY_DENIED"
      else if not (disclosure_is_allowed scope request)
      then some "DISCLOSURE_FIELD_DENIED"
      else none

  unfoldable pub scoped : Fields → Fields → Option String → Label → Option Fields → Option String
  unfolding scope_denial
  scoped request trusted ref label none = some "UNKNOWN_CAPABILITY"
  scoped request trusted ref label (some scope) = scope_denial request trusted ref label scope

  -- The checks of `_denial_reason` on the pins, and then on the scope.
  unfoldable pub pin_denial :
      Fields → Fields → Fields → Option Fields → Option String → Label → Fields → Option String
  unfolding same read scoped
  pin_denial document pin request scope ref label trusted =
      if not (same (read "claimed_actor_id" request) (read "actor_id" trusted))
      then some "ACTOR_BINDING_MISMATCH"
      else if not (same (read "endpoint_id" request) (read "endpoint_id" pin))
      then some "ENDPOINT_PIN_MISMATCH"
      else if not (same (read "protocol_version" request) (read "protocol_version" pin))
          || not (same (read "adapter_version" request) (read "adapter_version" pin))
      then some "REMOTE_VERSION_PIN_MISMATCH"
      else if not (same (read "registry_version" request) (read "registry_version" document))
      then some "REGISTRY_VERSION_MISMATCH"
      else scoped request trusted ref label scope

  unfoldable pub denial_reason :
      Fields
      → Fields
      → Fields
      → Json
      → Option Fields
      → Option Fields
      → Option String
      → Label
      → Option String
  unfolding same read pin_denial
  denial_reason document pin request binding trusted scope ref label =
      if not (same (read "request_version" request) (text "remote-policy-request@1"))
      then some "REMOTE_REQUEST_VERSION_MISMATCH"
      else if same binding null
      then some "MISSING_TRUST_BINDING"
      else (elim trusted [
        | none ↦ some "TRUST_BINDING_NOT_ALLOWED"
        | some found ↦ pin_denial document pin request scope ref label found
      ])
