-- ===== src/RemotePolicy/Admission.antt =====
-- What a request must satisfy for `_denial_reason` of src/shared_mind/remote_policy.py to give none.
use shared_mind.Base.{
  String, Bool, true, not, ◌||◌, ◌≡◌, refl, subst, Option, none, some, List, arith, ◌↔◌, contains,
  is_some, if◌then◌else◌,
}
use shared_mind.Kernel.Json.{Json, text, Fields, nullable}
use shared_mind.RemotePolicy.Values.{Library, same, member, read, string_values, string_or_none}
use shared_mind.RemotePolicy.Callers.{IsBound}
use shared_mind.RemotePolicy.SourceRef.{
  Label, source_label, source_is_allowed, source_ref_is_safe, below_any,
}
use shared_mind.RemotePolicy.Evaluate.{
  capability_scope, scope_denial, scoped, pin_denial, denial_reason, disclosure_is_allowed,
}

-- A ladder of five guards denies nothing where they all hold and the rest denies nothing.
ladder :
    (a b c d e : Bool) (denied : Option String)
    → ((if not a
          then some "ACTOR_BINDING_MISMATCH"
          else if not b
          then some "ENDPOINT_PIN_MISMATCH"
          else if not c || not d
          then some "REMOTE_VERSION_PIN_MISMATCH"
          else if not e
          then some "REGISTRY_VERSION_MISMATCH"
          else denied)
        ≡ none)
      ↔ ((a ≡ true) × (b ≡ true) × (c ≡ true) × (d ≡ true) × (e ≡ true) × (denied ≡ none))
ladder a b c d e denied = ground arith

present : (o : Option String) → is_some o ≡ true → (t : String) × (o ≡ some t)
present (some t) h = (t, refl)
present none h = absurd (ground (arith, h))

member-nullable :
    (o : Option String) (values : List String)
    → member (nullable o) values ≡ true
    → (t : String) × (o ≡ some t) × (contains t values ≡ true)
unfolding member
member-nullable (some t) values h = (t, refl, h)
member-nullable none values h = absurd (ground (arith, h))

module _ (lib : Library) where
  scope_denial-none :
      (request trusted : Fields) (ref : Option String) (label : Label) (scope : Fields)
      → (scope_denial lib request trusted ref label scope ≡ none) ↔ (
          (member (read "operation_type" request) (string_values (read "operation_types" scope))
            ≡ true)
          × (member (read "actor_id" trusted) (string_values (read "actor_ids" scope)) ≡ true)
          × (source_is_allowed lib scope ref ≡ true)
          × (is_some label.source_root ≡ true)
          × (member
                (nullable label.sensitivity)
                (string_values (read "allowed_sensitivities" scope))
              ≡ true)
          × (disclosure_is_allowed scope request ≡ true))
  unfolding scope_denial
  scope_denial-none request trusted ref label scope = ground arith

  pub pin_denial-none :
      (document pin request : Fields) (scope : Option Fields) (ref : Option String) (label : Label)
      (trusted : Fields)
      → (pin_denial lib document pin request scope ref label trusted ≡ none) ↔ (
          (same (read "claimed_actor_id" request) (read "actor_id" trusted) ≡ true)
          × (same (read "endpoint_id" request) (read "endpoint_id" pin) ≡ true)
          × (same (read "protocol_version" request) (read "protocol_version" pin) ≡ true)
          × (same (read "adapter_version" request) (read "adapter_version" pin) ≡ true)
          × (same (read "registry_version" request) (read "registry_version" document) ≡ true)
          × (scoped lib request trusted ref label scope ≡ none))
  unfolding pin_denial scoped
  pin_denial-none document pin request scope ref label trusted =
      ladder (same (read "claimed_actor_id" request) (read "actor_id" trusted))
        (same (read "endpoint_id" request) (read "endpoint_id" pin))
        (same (read "protocol_version" request) (read "protocol_version" pin))
        (same (read "adapter_version" request) (read "adapter_version" pin))
        (same (read "registry_version" request) (read "registry_version" document))
        (scoped lib request trusted ref label scope)

  pub scoped-none :
      (request trusted : Fields) (ref : Option String) (label : Label) (scope : Option Fields)
      → scoped lib request trusted ref label scope ≡ none
      → (found : Fields) × (scope ≡ some found)
        × (scope_denial lib request trusted ref label found ≡ none)
  unfolding scoped
  scoped-none request trusted ref label none h = absurd (ground (arith, h))
  scoped-none request trusted ref label (some found) h = (found, refl, h)

  pub denial_reason-none :
      (document pin request : Fields) (binding : Json) (trusted scope : Option Fields)
      (ref : Option String) (label : Label)
      → denial_reason lib document pin request binding trusted scope ref label ≡ none
      → (same (read "request_version" request) (text "remote-policy-request@1") ≡ true)
        × ((found : Fields) × (trusted ≡ some found)
            × (pin_denial lib document pin request scope ref label found ≡ none))
  unfolding denial_reason
  denial_reason-none document pin request binding none scope ref label h =
      absurd (ground (arith, h))
  denial_reason-none document pin request binding (some found) scope ref label h =
      (ground (arith, h), (found, refl, ground (arith, h)))

  -- The request names the versions and the endpoint that the policy pins.
  abbrev pub HasPins : Fields → Fields → Fields → Type 0
  HasPins document pin request =
      (read "request_version" request ≡ text "remote-policy-request@1")
      × (same (read "endpoint_id" request) (read "endpoint_id" pin) ≡ true)
      × (same (read "protocol_version" request) (read "protocol_version" pin) ≡ true)
      × (same (read "adapter_version" request) (read "adapter_version" pin) ≡ true)
      × (same (read "registry_version" request) (read "registry_version" document) ≡ true)

  -- The reference is safe, and below a root of the scope and a labelled root of an allowed sensitivity.
  abbrev pub AllowsSource : Fields → Fields → Fields → Type 0
  AllowsSource document scope request =
      (ref : String) × (root : String) × (sensitivity : String) × (string_or_none
          (read "source_ref" request)
        ≡ some ref)
      × (source_ref_is_safe lib ref ≡ true)
      × (below_any ref (string_values (read "source_roots" scope)) ≡ true)
      × ((source_label lib document (some ref)).source_root ≡ some root)
      × ((source_label lib document (some ref)).sensitivity ≡ some sensitivity)
      × (contains sensitivity (string_values (read "allowed_sensitivities" scope)) ≡ true)

  -- The scope of the capability grants the operation, the actor, the source and the fields.
  abbrev pub IsGranted : Fields → Fields → String → Fields → Type 0
  IsGranted document request actor scope =
      (member (read "operation_type" request) (string_values (read "operation_types" scope)) ≡ true)
      × (contains actor (string_values (read "actor_ids" scope)) ≡ true)
      × AllowsSource document scope request
      × (disclosure_is_allowed scope request ≡ true)

  -- A request that the policy admits.
  abbrev pub Admits : Fields → Fields → Fields → Json → Type 0
  Admits document pin request binding =
      HasPins document pin request
      × ((caller : Fields) × (actor : String) × (scope : Fields) × IsBound lib document binding
            caller
          × (read "actor_id" caller ≡ text actor)
          × (read "claimed_actor_id" request ≡ text actor)
          × (capability_scope document (string_or_none (read "capability" request)) ≡ some scope)
          × IsGranted document request actor scope)

  allowed_source :
      (document scope request : Fields) (o : Option String)
      → string_or_none (read "source_ref" request) ≡ o
      → source_is_allowed lib scope o ≡ true
      → is_some (source_label lib document o).source_root ≡ true
      → member
          (nullable (source_label lib document o).sensitivity)
          (string_values (read "allowed_sensitivities" scope))
        ≡ true
      → AllowsSource document scope request
  unfolding source_is_allowed
  allowed_source document scope request none same_ref src root sens = absurd (ground (arith, src))
  allowed_source document scope request (some ref) same_ref src root sens =
      let r = present (source_label lib document (some ref)).source_root root in
      let s =
        member-nullable (source_label lib document (some ref)).sensitivity
          (string_values (read "allowed_sensitivities" scope)) sens in
      (ref, r.0, s.0, same_ref, ground (arith, src), ground (arith, src), r.1, s.1, s.2)

  pub granted :
      (document request trusted : Fields) (actor : String) (scope : Fields)
      → read "actor_id" trusted ≡ text actor
      → scope_denial lib request trusted
          (string_or_none (read "source_ref" request))
          (source_label lib document (string_or_none (read "source_ref" request)))
          scope
        ≡ none
      → IsGranted document request actor scope
  unfolding member
  granted document request trusted actor scope same_actor h =
      let ref = string_or_none (read "source_ref" request) in
      let passes =
        (scope_denial-none request trusted ref (source_label lib document ref) scope).0 h in
      (
        passes.0,
        subst (λ v. member v (string_values (read "actor_ids" scope)) ≡ true) same_actor passes.1,
        allowed_source document scope request ref refl passes.2 passes.3 passes.4,
        passes.5,
      )

  pub is_granted :
      (document request trusted : Fields) (actor : String) (scope : Fields)
      → read "actor_id" trusted ≡ text actor
      → IsGranted document request actor scope
      → scope_denial lib request trusted
          (string_or_none (read "source_ref" request))
          (source_label lib document (string_or_none (read "source_ref" request)))
          scope
        ≡ none
  unfolding member source_is_allowed
  is_granted document request trusted actor scope same_actor
        (op, act, (ref, root, sensitivity, r, safe, below, rooted, sensed, allowed), disclosed) =
      let label = source_label lib document (string_or_none (read "source_ref" request)) in
      (scope_denial-none request trusted (string_or_none (read "source_ref" request)) label scope).1
        (
          op,
          rw same_actor act,
          rw r (rw safe below),
          rw r (rw rooted refl),
          rw r (rw sensed allowed),
          disclosed,
        )
