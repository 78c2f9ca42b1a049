-- ===== src/RemotePolicy/Tests.antt =====
-- A policy with one actor, one source and one capability, and a request to it.
use shared_mind.Base.{
  String, true, false, ◌≡◌, ◌↔◌, ◌⊎◌, refl, some, [], ◌∷◌, ok, contains, collect, for_each, ◌==◌,
}
use shared_mind.Kernel.Json.{Json, text, array, object, nil, cons, Fields, end, field, get_field}
use shared_mind.RemotePolicy.Values.{
  Library, read, string_or_none, mapping_values, mapping_or_empty, mappings_of, strings_of,
  reject_seen,
}
use shared_mind.RemotePolicy.Evaluate.{capability_scope, denial_reason, trusted_binding}
use shared_mind.RemotePolicy.SourceRef.{no_label, ends_with_slash, source_ref_is_safe, source_label}
use shared_mind.RemotePolicy.Frozen.{thaw_fields, freeze_fields}
use shared_mind.RemotePolicy.Decide.{
  CompiledPolicy, Decision, evaluate_request, audit, audit_document, as_dict, json_copy,
}
use shared_mind.RemotePolicy.Compile.{compile_policy}
use shared_mind.RemotePolicy.Decisions.{
  evaluate_request-Admits, as_dict-evaluate_request, endpoint_pin, audit_of, signed,
}
use shared_mind.RemotePolicy.Admission.{Admits}
use shared_mind.RemotePolicy.Compiled.{IsWellFormed}
use shared_mind.RemotePolicy.Answers.{compile_policy-IsWellFormed, compile_policy-decides}
use shared_mind.RemotePolicy.References.{IsSafe, source_ref_is_safe-IsSafe}
use shared_mind.RemotePolicy.Labels.{IsLongest, IsUnlabelled, source_label-IsLongest}
use shared_mind.RemotePolicy.Disclosures.{IsLeast, audit-IsLeast}

-- One escape, and urls of one kind.
abbrev unescape : String → String
unescape s = elim (s == "repo://a/%2e") [ true ↦ "repo://a/." | _ ↦ s ]

abbrev library : Library
library = record {
  strip = λ s. s;
  unquote = unescape;
  urlsplit =
      λ s. some (record { scheme = "repo"; netloc = "a"; path = "/"; query = ""; fragment = "" });
  dumps = λ m. some (1 ∷ []);
  loads = λ b. some end;
  sha256_hex = λ b. "00";
}

abbrev one : String → Json
one t = array (cons (text t) nil)

abbrev trusted : Fields
trusted = field "binding_id" (text "b1") (
    field "issuer" (text "idp")
      (field "subject" (text "bot") (field "actor_id" (text "actor_bot") end)))

abbrev label : Fields
label =
    field "source_root" (text "repo://a/")
      (field "sensitivity" (text "INTERNAL") (field "data_classes" (array nil) end))

abbrev disclosure : Fields
disclosure = field "allow_fields" (one "body") (field "redact_paths" (one "body.secret") end)

abbrev scope : Fields
scope = field "capability" (text "read") (
    field "operation_types" (one "QUERY") (
      field "actor_ids" (one "actor_bot") (
        field "source_roots" (one "repo://a/") (
          field "allowed_sensitivities" (one "INTERNAL")
            (field "disclosure" (object disclosure) end)))))

abbrev pin : Fields
pin = field "endpoint_id" (text "e") (
    field "origin" (text "https://e")
      (field "protocol_version" (text "p@1") (field "adapter_version" (text "a@1") end)))

abbrev list_of_one : Fields → Json
list_of_one m = array (cons (object m) nil)

abbrev document : Fields
document = field "policy_version" (text "remote-adapter-policy@1") (
    field "default_effect" (text "DENY") (
      field "policy_id" (text "policy_a") (
        field "registry_version" (text "r@1") (
          field "endpoint_pin" (object pin) (
            field "trust_bindings" (list_of_one trusted) (
              field "source_labels" (list_of_one label)
                (field "capability_scopes" (list_of_one scope) end)))))))

abbrev policy : CompiledPolicy
policy = record { policy_hash = "sha256:00"; document = freeze_fields document }

abbrev request : Fields
request = field "request_version" (text "remote-policy-request@1") (
    field "request_id" (text "q1") (
      field "claimed_actor_id" (text "actor_bot") (
        field "endpoint_id" (text "e") (
          field "protocol_version" (text "p@1") (
            field "adapter_version" (text "a@1") (
              field "registry_version" (text "r@1") (
                field "capability" (text "read") (
                  field "operation_type" (text "QUERY") (
                    field "source_ref" (text "repo://a/notes.md")
                      (field "requested_fields" (one "body") end))))))))))

abbrev decision : Decision
decision = record {
  document =
      freeze_fields
        (signed (audit_of library policy request (object trusted)) "remote_policy_decision_00");
}

compiles : compile_policy library (object document) ≡ ok policy
unfolding compile_policy get_field collect reject_seen ends_with_slash for_each
compiles = refl

decides : evaluate_request library policy (object request) (object trusted) ≡ ok decision
unfolding evaluate_request get_field mapping_or_empty
decides = refl

allows : read "outcome" (thaw_fields decision.document) ≡ text "ALLOW"
unfolding read get_field thaw_fields freeze_fields audit_document audit denial_reason
    trusted_binding mappings_of capability_scope strings_of source_label
allows = refl

escapes : source_ref_is_safe library "repo://a/%2e" ≡ false
unfolding source_ref_is_safe
escapes = refl

evaluate_request-Admits_example :
    (read "outcome" (thaw_fields decision.document) ≡ text "ALLOW")
    ↔ Admits library
        (thaw_fields policy.document)
        (endpoint_pin library policy)
        request
        (object trusted)
evaluate_request-Admits_example =
    evaluate_request-Admits library policy request (object trusted) decision decides

as_dict-evaluate_request_example :
    as_dict library decision ≡ json_copy library (thaw_fields decision.document)
as_dict-evaluate_request_example =
    as_dict-evaluate_request library policy request (object trusted) decision decides

compile_policy-IsWellFormed_example : IsWellFormed library (thaw_fields policy.document)
compile_policy-IsWellFormed_example = compile_policy-IsWellFormed library document policy compiles

compile_policy-decides_example :
    (d : Decision) × (evaluate_request library policy (object request) (object trusted) ≡ ok d)
compile_policy-decides_example =
    compile_policy-decides library document policy request (object trusted) compiles refl

source_ref_is_safe-IsSafe_example :
    (source_ref_is_safe library "repo://a/%2e" ≡ true) ↔ IsSafe library "repo://a/%2e"
source_ref_is_safe-IsSafe_example = source_ref_is_safe-IsSafe library "repo://a/%2e"

source_label-IsLongest_example :
    let labels = mapping_values (read "source_labels" document) in
    let found = source_label library document (some "repo://a/notes.md") in
    ((source_ref_is_safe library "repo://a/notes.md" ≡ true)
      × (IsLongest "repo://a/notes.md" labels found
          ⊎ IsUnlabelled "repo://a/notes.md" labels found))
    ⊎ ((source_ref_is_safe library "repo://a/notes.md" ≡ false) × (found ≡ no_label))
source_label-IsLongest_example = source_label-IsLongest library document "repo://a/notes.md"

audit-IsLeast_example :
    let found =
      (audit library policy
        (thaw_fields policy.document)
        pin
        request
        (object trusted)).disclosure in
    ((name : String)
      → contains name found.allowed_fields ≡ true
      → Admits library (thaw_fields policy.document) pin request (object trusted))
    × (Admits library (thaw_fields policy.document) pin request (object trusted)
        → (granting : Fields) × (capability_scope
              (thaw_fields policy.document)
              (string_or_none (read "capability" request))
            ≡ some granting)
          × IsLeast granting request found)
audit-IsLeast_example = audit-IsLeast library policy pin request (object trusted)
