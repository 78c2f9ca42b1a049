-- ===== src/RemotePolicy/Decide.antt =====
-- `evaluate_request` and `as_dict` of src/shared_mind/remote_policy.py: the audit document of a
-- decision and its digest.
use Prim.Native.String.{◌++◌}
use mathlib.Core.Option
use shared_mind.Base.{
  String, Bool, false, not, Option, none, some, List, [], ◌∷◌, ◌==◌, if◌then◌else◌, Result, ok, err,
  ◌>>=◌, ◌>>◌, raise_if, or_raise,
}
use shared_mind.Kernel.Json.{
  Json, null, text, array, object, Items, nil, cons, Fields, end, field, nullable,
}
use shared_mind.Kernel.State.{Bytes}
use shared_mind.Kernel.Conflicts.{first_characters}
use shared_mind.RemotePolicy.Values.{
  Library, Refusal, type_error, value_error, same, read, string_or_none, required_mapping,
  canonical_hash,
}
use shared_mind.RemotePolicy.SourceRef.{Label, source_label}
use shared_mind.RemotePolicy.Frozen.{FrozenFields, freeze_fields, thaw_fields}
use shared_mind.RemotePolicy.Evaluate.{
  Disclosure, trusted_binding, capability_scope, denial_reason, allowed_disclosure,
}

pub record CompiledPolicy : Type 0 where
  pub policy_hash : String
  pub document : FrozenFields

pub record Decision : Type 0 where
  pub document : FrozenFields

abbrev text_array : List String → Items
text_array [] = nil
text_array (t ∷ ts) = cons (text t) (text_array ts)

-- [] if reason_code is None else [reason_code]
abbrev reason_codes : Option String → List String
reason_codes none = []
reason_codes (some code) = code ∷ []

-- _allowed_disclosure(scope, request) if outcome == "ALLOW" else an empty one
unfoldable pub disclosed : Option String → Option Fields → Fields → Disclosure
unfolding allowed_disclosure
disclosed none scope request = allowed_disclosure scope request
disclosed (some _) scope request = record { allowed_fields = []; redacted_paths = [] }

-- The values of the audit document that are no constant.
pub record Audit : Type 0 where
  pub request_id : Option String
  pub reason : Option String
  pub policy_hash : String
  pub authenticated_actor_id : Option String
  pub trust_binding_id : Option String
  pub endpoint_id : Option String
  pub protocol_version : Option String
  pub adapter_version : Option String
  pub registry_version : Option String
  pub capability : Option String
  pub operation_type : Option String
  pub label : Label
  pub disclosure : Disclosure

abbrev pub outcome_text : Option String → String
outcome_text none = "ALLOW"
outcome_text (some _) = "DENY"

-- audit_document, in the order of the source, with the fields that follow it
unfoldable pub audit_document : Audit → Fields → Fields
audit_document a rest = field "decision_version" (text "remote-policy-decision@1") (
    field "request_id" (nullable a.request_id) (
      field "outcome" (text (outcome_text a.reason)) (
        field "reason_codes" (array (text_array (reason_codes a.reason))) (
          field "policy_hash" (text a.policy_hash) (
            field "authenticated_actor_id" (nullable a.authenticated_actor_id) (
              field "trust_binding_id" (nullable a.trust_binding_id) (
                field "endpoint_pin"
                  (object (
                    field "endpoint_id" (nullable a.endpoint_id) (
                      field "protocol_version" (nullable a.protocol_version)
                        (field "adapter_version" (nullable a.adapter_version) end))))
                  (field "registry_version" (nullable a.registry_version) (
                    field "capability" (nullable a.capability) (
                      field "operation_type" (nullable a.operation_type) (
                        field "source_label"
                          (object (
                            field "source_root" (nullable a.label.source_root) (
                              field "sensitivity" (nullable a.label.sensitivity) (
                                field "data_classes" (array (text_array a.label.data_classes))
                                  end))))
                          (field "disclosure"
                            (object (
                              field "allowed_fields"
                                (array (text_array a.disclosure.allowed_fields))
                                (field "redacted_paths"
                                  (array (text_array a.disclosure.redacted_paths)) end)))
                            rest))))))))))))

-- trusted_binding.get(key) if trusted_binding else None
unfoldable pub read_from : String → Option Fields → Json
unfolding read
read_from key none = null
read_from key (some m) = read key m

-- payload.pop("decision_id", None)
unfoldable pub without_field : String → Fields → Fields
without_field key end = end
without_field key (field k v m) =
    let rest = without_field key m in if k == key then rest else field k v rest

-- _canonical_hash(document) == policy.policy_hash, and False where the hash raises
abbrev pub hash_is : String → Option String → Bool
hash_is hash none = false
hash_is hash (some h) = h == hash

module _ (lib : Library) where
  unfoldable pub audit : CompiledPolicy → Fields → Fields → Fields → Json → Audit
  unfolding read read_from string_or_none
  audit policy document pin request binding =
      let trusted = trusted_binding lib document binding in
      let capability = string_or_none (read "capability" request) in
      let scope = capability_scope document capability in
      let ref = string_or_none (read "source_ref" request) in
      let label = source_label lib document ref in
      let reason = denial_reason lib document pin request binding trusted scope ref label in
      record {
        request_id = string_or_none (read "request_id" request);
        reason = reason;
        policy_hash = policy.policy_hash;
        authenticated_actor_id = string_or_none (read_from "actor_id" trusted);
        trust_binding_id = string_or_none (read_from "binding_id" trusted);
        endpoint_id = string_or_none (read "endpoint_id" pin);
        protocol_version = string_or_none (read "protocol_version" pin);
        adapter_version = string_or_none (read "adapter_version" pin);
        registry_version = string_or_none (read "registry_version" document);
        capability = capability;
        operation_type = string_or_none (read "operation_type" request);
        label = label;
        disclosure = disclosed reason scope request;
      }

  id_of : Bytes → String
  unfolding first_characters
  id_of bytes = "remote_policy_decision_" ++ first_characters 32 (lib.sha256_hex bytes)

  -- "remote_policy_decision_" and the digest of a document; none where its encoding raises
  unfoldable pub decision_id : Fields → Option String
  unfolding id_of
  decision_id payload = Option.map id_of (lib.dumps payload)

  abbrev request_mapping : Json → Result Refusal Fields
  request_mapping (object m) = ok m
  request_mapping _ = err (type_error "remote policy request must be a mapping")

  unfoldable pub has_hash : Fields → String → Bool
  unfolding canonical_hash
  has_hash document hash = hash_is hash (canonical_hash lib document)

  -- The decision with its digest, of the audit document without it.
  unfoldable pub sealed : Audit → Result Refusal Decision
  unfolding freeze_fields audit_document decision_id
  sealed found = do
    id ← or_raise (decision_id (audit_document found end)) (value_error "no canonical JSON")
    let signed = audit_document found (field "decision_id" (text id) end)
    ok (record { document = freeze_fields signed })

  unfoldable pub evaluate_request : CompiledPolicy → Json → Json → Result Refusal Decision
  unfolding thaw_fields has_hash required_mapping audit sealed
  evaluate_request policy request binding = do
    asked ← request_mapping request
    let document = thaw_fields policy.document
    raise_if (not (has_hash document policy.policy_hash))
        (value_error "compiled remote policy integrity check failed")
    pin ← required_mapping document "endpoint_pin"
    sealed (audit policy document pin asked binding)

  unfoldable pub verify_decision_integrity : Fields → Result Refusal (Unit {0})
  unfolding same read without_field decision_id
  verify_decision_integrity document = do
    let failed = value_error "remote policy decision integrity check failed"
    expected ← or_raise (decision_id (without_field "decision_id" document)) failed
    raise_if (not (same (read "decision_id" document) (text expected))) failed

  -- json.loads(_canonical_json(value))
  unfoldable pub json_copy : Fields → Result Refusal Fields
  json_copy m = do
    bytes ← or_raise (lib.dumps m) (value_error "no canonical JSON")
    or_raise (lib.loads bytes) (value_error "no JSON")

  unfoldable pub as_dict : Decision → Result Refusal Fields
  unfolding thaw_fields verify_decision_integrity json_copy
  as_dict d =
      let document = thaw_fields d.document in
      verify_decision_integrity document >> json_copy document
