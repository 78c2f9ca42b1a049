-- ===== src/RemotePolicy/DenyByDefault.antt =====
-- `_denial_reason` of src/shared_mind/remote_policy.py against the conditions of an admitted
-- request, and the decisions that `evaluate_request` makes of it.
use shared_mind.Base.{String, true, ◌≡◌, sym, ◌∙◌, subst, Option, none, some, ◌↔◌}
use shared_mind.Kernel.Json.{Json, text, object, Fields}
use shared_mind.RemotePolicy.Values.{Library, same, read, string_or_none}
use shared_mind.RemotePolicy.SourceRef.{Label, source_label}
use shared_mind.RemotePolicy.Evaluate.{
  trusted_binding, capability_scope, denial_reason, pin_denial, scoped,
}
use shared_mind.RemotePolicy.Callers.{
  trusted_binding-IsBound, IsBound-trusted_binding, same-text, same_refl,
}
use shared_mind.RemotePolicy.Admission.{
  Admits, pin_denial-none, scoped-none, denial_reason-none, granted, is_granted,
}

module _ (lib : Library) where
  unfoldable pub reason : Fields → Fields → Fields → Json → Option String
  reason document pin request binding =
      let ref = string_or_none (read "source_ref" request) in
      denial_reason lib document pin request binding (trusted_binding lib document binding)
        (capability_scope document (string_or_none (read "capability" request))) ref
        (source_label lib document ref)

  reason-Admits :
      (document pin request : Fields) (binding : Json)
      → reason document pin request binding ≡ none
      → Admits lib document pin request binding
  unfolding reason
  reason-Admits document pin request binding h =
      let ref = string_or_none (read "source_ref" request) in
      let scope = capability_scope document (string_or_none (read "capability" request)) in
      let (version, (found, trusted, pins)) =
        denial_reason-none lib document pin request binding (trusted_binding lib document binding)
          scope ref (source_label lib document ref) h in
      let (claimed, endpoint, protocol, adapter, registry, rest) =
        (pin_denial-none lib document pin request scope ref (source_label lib document ref) found).0
          pins in
      let (granting, chosen, grants) =
        scoped-none lib request found ref (source_label lib document ref) scope rest in
      let (caller, bound, names) = trusted_binding-IsBound lib document binding found trusted in
      let (actor, called, actual) = names.1.1.1.0 in
      (
        (same-text _ _ version, endpoint, protocol, adapter, registry),
        (
          caller,
          actor,
          granting,
          bound,
          called,
          same-text _ _
              (subst (λ v. same (read "claimed_actor_id" request) v ≡ true) actual claimed),
          chosen,
          granted lib document request found actor granting actual grants,
        ),
      )

  denial_reason-passed :
      (document pin request : Fields) (binding : Json) (trusted scope : Option Fields)
      (ref : Option String) (label : Label) (caller found : Fields)
      → read "request_version" request ≡ text "remote-policy-request@1"
      → binding ≡ object caller
      → trusted ≡ some found
      → pin_denial lib document pin request scope ref label found ≡ none
      → denial_reason lib document pin request binding trusted scope ref label ≡ none
  unfolding denial_reason same
  denial_reason-passed document pin request binding trusted scope ref label caller found v b t h =
      rw (v, b, t) h

  Admits-reason :
      (document pin request : Fields) (binding : Json)
      → Admits lib document pin request binding
      → reason document pin request binding ≡ none
  unfolding reason scoped
  Admits-reason document pin request binding
        (
          (version, endpoint, protocol, adapter, registry),
          (caller, actor, scope, bound, called, claimed, chosen, grants),
        ) =
      let (found, trusted, names) = IsBound-trusted_binding lib document binding caller bound in
      let ref = string_or_none (read "source_ref" request) in
      let own = names.1.1.1.0 in
      let same_actor : Path Json (read "actor_id" found) (text actor) =
        own.2 ∙ sym own.1 ∙ called in
      let passes =
        (pin_denial-none lib document pin request (some scope) ref (source_label lib document ref)
            found).1
          (
            rw (claimed, same_actor) (same_refl actor),
            endpoint,
            protocol,
            adapter,
            registry,
            is_granted lib document request found actor scope same_actor grants,
          ) in
      rw chosen (
        denial_reason-passed document pin request binding (trusted_binding lib document binding)
          (some scope) ref (source_label lib document ref) caller found version bound.0 trusted
          passes)

  -- The ladder denies nothing exactly where the policy admits the request.
  pub denial_reason-Admits :
      (document pin request : Fields) (binding : Json)
      → (reason document pin request binding ≡ none) ↔ Admits lib document pin request binding
  denial_reason-Admits document pin request binding =
      (reason-Admits document pin request binding, Admits-reason document pin request binding)
