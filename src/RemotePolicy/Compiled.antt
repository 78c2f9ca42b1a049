-- ===== src/RemotePolicy/Compiled.antt =====
-- What `compile_policy` of src/shared_mind/remote_policy.py guarantees of the policy that it
-- compiles.
use shared_mind.Base.{
  String, Bool, true, false, not, ◌||◌, ◌≡◌, refl, sym, subst, ap, ◌∙◌, Option, none, some, List,
  [], ◌∷◌, map, arith, ◌==◌, ok, raise_if, for_each, collect, >>=-eq-ok, guard-eq-ok, Every, subset,
  contains,
}
use shared_mind.Kernel.Json.{text, Fields}
use shared_mind.RemotePolicy.Values.{
  Library, Url, Refusal, value_error, same, read, required_mapping, required_object_list,
  mapping_values, string_values, require_non_empty_string, required_string_list, reject_duplicates,
}
use shared_mind.RemotePolicy.SourceRef.{
  source_ref_is_safe, is_absolute, check_url, validate_source_root,
}
use shared_mind.RemotePolicy.Callers.{same-text}
use shared_mind.RemotePolicy.Compile.{
  check_header, check_root, check_binding, check_label, check_scope_of, validate_policy,
}
use shared_mind.RemotePolicy.Lists.{
  named, ok-injective, collect-named, collect-Every, required_object_list-mapping_values,
  require-text, string_list-string_values,
}

module _ (lib : Library) where
  check_binding-actor :
      (m : Fields) (p : String × String) → check_binding lib m ≡ ok p → read "actor_id" m ≡ text p.1
  unfolding check_binding require_non_empty_string
  check_binding-actor m p h =
      let id = >>=-eq-ok (require_non_empty_string lib m "binding_id") _ h in
      let issuer = >>=-eq-ok (require_non_empty_string lib m "issuer") _ id.2 in
      let subject = >>=-eq-ok (require_non_empty_string lib m "subject") _ issuer.2 in
      let actor = >>=-eq-ok (require_non_empty_string lib m "actor_id") _ subject.2 in
      require-text lib _ actor.0 actor.1 ∙ ap (λ x. text x.1) (ok-injective actor.2)

  -- The root and the sensitivity that a checked label has.
  check_label-texts :
      (m : Fields) (p : String × String)
      → check_label lib m ≡ ok p
      → (read "source_root" m ≡ text p.0) × (read "sensitivity" m ≡ text p.1)
  unfolding check_label require_non_empty_string
  check_label-texts m p h =
      let root = >>=-eq-ok (require_non_empty_string lib m "source_root") _ h in
      let safe = >>=-eq-ok (validate_source_root lib root.0) _ root.2 in
      let sensitivity = >>=-eq-ok (require_non_empty_string lib m "sensitivity") _ safe.2 in
      let classes = >>=-eq-ok (required_string_list lib m "data_classes" true) _ sensitivity.2 in
      let whole = ok-injective classes.2 in
      (
        require-text lib _ root.0 root.1 ∙ ap (λ x. text x.0) whole,
        require-text lib _ sensitivity.0 sensitivity.1 ∙ ap (λ x. text x.1) whole,
      )

  last_disjunct : (a b c d e f : Bool) → (a || b || c || d || e || not f) ≡ false → f ≡ true
  last_disjunct a b c d e f h = ground arith

  not_raised : (test : Bool) (e : Refusal) (u : Unit {0}) → raise_if test e ≡ ok u → test ≡ false
  not_raised false e u h = refl
  not_raised true e u h = absurd (cc h)

  check_url-safe :
      (root : String) (o : Option Url) (u : Unit {0})
      → check_url lib root o ≡ ok u
      → source_ref_is_safe lib root ≡ true
  unfolding check_url
  check_url-safe root none u h = absurd (cc h)
  check_url-safe root (some url) u h =
      last_disjunct (url.scheme == "") (url.netloc == "") (not (is_absolute lib url))
        (not (url.query == "")) (not (url.fragment == "")) (source_ref_is_safe lib root)
        (not_raised _ (value_error "must be an absolute, slash-terminated safe source root") u h)

  -- A root that the policy labels and that is safe.
  abbrev IsLabelled : List String → String → Type 0
  IsLabelled roots root = (contains root roots ≡ true) × (source_ref_is_safe lib root ≡ true)

  -- A scope that grants only what the rest of the policy knows.
  abbrev IsCovered : List String → List String → List String → Fields → Type 0
  IsCovered actors roots sensitivities scope =
      (subset (string_values (read "actor_ids" scope)) actors ≡ true)
      × Every (IsLabelled roots) (string_values (read "source_roots" scope))
      × (subset (string_values (read "allowed_sensitivities" scope)) sensitivities ≡ true)

  for_each-IsLabelled :
      (roots scoped : List String) (u : Unit {0})
      → for_each (check_root lib roots) scoped ≡ ok u
      → Every (IsLabelled roots) scoped
  unfolding for_each check_root validate_source_root
  for_each-IsLabelled roots [] u h = tt
  for_each-IsLabelled roots (x ∷ xs) u h =
      let checked = >>=-eq-ok (check_root lib roots x) _ h in
      let safe = >>=-eq-ok (validate_source_root lib x) _ checked.1 in
      (
        (ground (arith, safe.2), check_url-safe x (lib.urlsplit x) safe.0 safe.1),
        for_each-IsLabelled roots xs u checked.2,
      )

  check_scope_of-IsCovered :
      (actors roots sensitivities : List String) (scope : Fields) (name : String)
      → check_scope_of lib actors roots sensitivities scope ≡ ok name
      → IsCovered actors roots sensitivities scope
  unfolding check_scope_of required_string_list
  check_scope_of-IsCovered actors roots sensitivities scope name h =
      let capability = >>=-eq-ok (require_non_empty_string lib scope "capability") _ h in
      let ops = >>=-eq-ok (required_string_list lib scope "operation_types" false) _ capability.2 in
      let ids = >>=-eq-ok (required_string_list lib scope "actor_ids" false) _ ops.2 in
      let trusted = guard-eq-ok (not (subset ids.0 actors)) _ _ ids.2 in
      let scoped = >>=-eq-ok (required_string_list lib scope "source_roots" false) _ trusted.1 in
      let labelled = >>=-eq-ok (for_each (check_root lib roots) scoped.0) _ scoped.2 in
      let allowed =
        >>=-eq-ok (required_string_list lib scope "allowed_sensitivities" false) _ labelled.2 in
      let known = guard-eq-ok (not (subset allowed.0 sensitivities)) _ _ allowed.2 in
      (
        rw (string_list-string_values lib false (read "actor_ids" scope) ids.0 ids.1)
            (ground (arith, trusted.0)),
        subst (Every (IsLabelled roots))
            (sym
              (string_list-string_values lib false (read "source_roots" scope) scoped.0 scoped.1))
            (for_each-IsLabelled roots scoped.0 labelled.0 labelled.1),
        rw
            (string_list-string_values lib false (read "allowed_sensitivities" scope) allowed.0
              allowed.1)
            (ground (arith, known.0)),
      )

  -- A policy that denies by default, whose scopes grant only to actors of its trust bindings, only
  -- below safe roots that it labels, and only sensitivities that its labels have.
  abbrev pub IsWellFormed : Fields → Type 0
  IsWellFormed document =
      let bindings = mapping_values (read "trust_bindings" document) in
      let labels = mapping_values (read "source_labels" document) in
      (read "default_effect" document ≡ text "DENY")
      × Every
          (IsCovered (named "actor_id" bindings) (named "source_root" labels)
            (named "sensitivity" labels))
          (mapping_values (read "capability_scopes" document))

  check_header-deny :
      (m : Fields) (u : Unit {0})
      → check_header lib m ≡ ok u
      → read "default_effect" m ≡ text "DENY"
  unfolding check_header
  check_header-deny m u h =
      let version =
        guard-eq-ok (not (same (read "policy_version" m) (text "remote-adapter-policy@1"))) _ _ h in
      let deny = guard-eq-ok (not (same (read "default_effect" m) (text "DENY"))) _ _ version.1 in
      same-text _ _ (ground (arith, deny.0))

  pub validate_policy-IsWellFormed :
      (document : Fields) (u : Unit {0})
      → validate_policy lib document ≡ ok u
      → IsWellFormed document
  unfolding validate_policy
  validate_policy-IsWellFormed document u h =
      let header = >>=-eq-ok (check_header lib document) _ h in
      let bindings = >>=-eq-ok (required_object_list document "trust_bindings") _ header.2 in
      let trusted = >>=-eq-ok (collect (check_binding lib) bindings.0) _ bindings.2 in
      let ids = >>=-eq-ok (reject_duplicates (map (λ b. b.0) trusted.0)) _ trusted.2 in
      let labels = >>=-eq-ok (required_object_list document "source_labels") _ ids.2 in
      let labelled = >>=-eq-ok (collect (check_label lib) labels.0) _ labels.2 in
      let roots = >>=-eq-ok (reject_duplicates (map (λ l. l.0) labelled.0)) _ labelled.2 in
      let scopes = >>=-eq-ok (required_object_list document "capability_scopes") _ roots.2 in
      let names =
        >>=-eq-ok
          (collect
            (check_scope_of lib (map (λ b. b.1) trusted.0) (map (λ l. l.0) labelled.0)
              (map (λ l. l.1) labelled.0))
            scopes.0)
          _ scopes.2 in
      let actor_ids =
        collect-named (check_binding lib) (λ b. b.1) "actor_id" (check_binding-actor) bindings.0
          trusted.0 trusted.1 in
      let root_names =
        collect-named (check_label lib) (λ l. l.0) "source_root"
          (λ m p e. (check_label-texts m p e).0) labels.0 labelled.0 labelled.1 in
      let sensitivities =
        collect-named (check_label lib) (λ l. l.1) "sensitivity"
          (λ m p e. (check_label-texts m p e).1) labels.0 labelled.0 labelled.1 in
      (
        check_header-deny document header.0 header.1,
        rw
            (
              required_object_list-mapping_values document "trust_bindings" bindings.0 bindings.1,
              required_object_list-mapping_values document "source_labels" labels.0 labels.1,
              required_object_list-mapping_values document "capability_scopes" scopes.0 scopes.1,
              sym actor_ids,
              sym root_names,
              sym sensitivities,
            )
            (collect-Every
              (check_scope_of lib (map (λ b. b.1) trusted.0) (map (λ l. l.0) labelled.0)
                (map (λ l. l.1) labelled.0))
              (IsCovered (map (λ b. b.1) trusted.0) (map (λ l. l.0) labelled.0)
                (map (λ l. l.1) labelled.0))
              (check_scope_of-IsCovered (map (λ b. b.1) trusted.0) (map (λ l. l.0) labelled.0)
                (map (λ l. l.1) labelled.0))
              scopes.0 names.0 names.1),
      )

  -- A valid policy has an endpoint pin.
  pub validate_policy-pin :
      (document : Fields) (u : Unit {0})
      → validate_policy lib document ≡ ok u
      → (pin : Fields) × (required_mapping document "endpoint_pin" ≡ ok pin)
  unfolding validate_policy check_header
  validate_policy-pin document u h =
      let header = >>=-eq-ok (check_header lib document) _ h in
      let version =
        guard-eq-ok (not (same (read "policy_version" document) (text "remote-adapter-policy@1"))) _
          _ header.1 in
      let deny =
        guard-eq-ok (not (same (read "default_effect" document) (text "DENY"))) _ _ version.1 in
      let id = >>=-eq-ok (require_non_empty_string lib document "policy_id") _ deny.1 in
      let registry = >>=-eq-ok (require_non_empty_string lib document "registry_version") _ id.2 in
      let pin = >>=-eq-ok (required_mapping document "endpoint_pin") _ registry.2 in (pin.0, pin.1)
