-- ===== src/RemotePolicy/Disclosures.antt =====
-- What a decision of src/shared_mind/remote_policy.py discloses.
use shared_mind.Base.{
  String, Bool, true, ◌&&◌, ap, ◌≡◌, refl, sym, subst, ◌∙◌, Option, none, some, List, [], ◌∷◌,
  arith, inl, inr, Bool-cases, ◌==◌, eq_iff, contains, sorted, distinct, contains-sorted,
  contains-distinct, contains-subset,
}
use shared_mind.Kernel.Json.{Json, Fields}
use shared_mind.RemotePolicy.Values.{Library, read, string_or_none, string_values, mapping_or_empty}
use shared_mind.RemotePolicy.Frozen.{thaw_fields}
use shared_mind.RemotePolicy.Evaluate.{
  Disclosure, allowed_disclosure, disclosure_is_allowed, rooted_in, root_of, capability_scope,
}
use shared_mind.RemotePolicy.Decide.{CompiledPolicy, Audit, audit, disclosed}
use shared_mind.RemotePolicy.Admission.{Admits}
use shared_mind.RemotePolicy.DenyByDefault.{reason, denial_reason-Admits}

contains-rooted_in :
    (path : String) (roots paths : List String)
    → contains path (rooted_in roots paths) ≡ (contains path paths && contains (root_of path) roots)
unfolding contains rooted_in
contains-rooted_in path roots [] = refl
contains-rooted_in path roots (x ∷ xs) = elim (Bool-cases (x == path)) [
  | inl same ↦
      let whole : x ≡ path = (eq_iff x path).0 same in
      let root : Path Bool (contains (root_of x) roots) (contains (root_of path) roots) =
        ap (λ p. contains (root_of p) roots) whole in
      ground (arith, same, root, contains-rooted_in path roots xs)
  | inr other ↦ ground (arith, other, contains-rooted_in path roots xs)
]

abbrev list_of : String → Fields → List String
list_of name scope = string_values (read name (mapping_or_empty (read "disclosure" scope)))

-- The disclosed fields are the requested ones, which the scope allows, and the redacted paths are
-- those of the scope whose root is disclosed.
abbrev pub IsLeast : Fields → Fields → Disclosure → Type 0
IsLeast scope request found =
    ((name : String)
      → contains name found.allowed_fields
        ≡ contains name (string_values (read "requested_fields" request)))
    × ((name : String)
        → contains name found.allowed_fields ≡ true
        → contains name (list_of "allow_fields" scope) ≡ true)
    × ((path : String)
        → contains path found.redacted_paths ≡ (
            contains path (list_of "redact_paths" scope)
            && contains (root_of path) found.allowed_fields))

allowed_disclosure-IsLeast :
    (scope request : Fields)
    → disclosure_is_allowed scope request ≡ true
    → IsLeast scope request (allowed_disclosure (some scope) request)
unfolding allowed_disclosure disclosure_is_allowed
allowed_disclosure-IsLeast scope request h =
    let requested = string_values (read "requested_fields" request) in
    let shown = sorted (distinct requested) in
    let redacted = rooted_in shown (list_of "redact_paths" scope) in
    (
      λ name. contains-sorted name (distinct requested) ∙ contains-distinct name requested,
      λ name m.
          contains-subset name requested (list_of "allow_fields" scope) (ground (arith, h)) (
            sym (contains-sorted name (distinct requested) ∙ contains-distinct name requested) ∙ m),
      λ path.
          contains-sorted path redacted
          ∙ contains-rooted_in path shown (list_of "redact_paths" scope),
    )

disclosed-none :
    (o : Option String) (c : Option Fields) (scope request : Fields)
    → o ≡ none
    → c ≡ some scope
    → disclosed o c request ≡ allowed_disclosure (some scope) request
unfolding disclosed
disclosed-none o c scope request denied chosen = rw (denied, chosen) refl

module _ (lib : Library) (policy : CompiledPolicy) (pin request : Fields) (binding : Json) where
  abbrev document : Fields
  document = thaw_fields policy.document

  abbrev decided : Audit
  decided = audit lib policy document pin request binding

  shown :
      (o : Option String)
      → reason lib document pin request binding ≡ o
      → (name : String)
      → contains name
          (disclosed o
            (capability_scope document (string_or_none (read "capability" request)))
            request).allowed_fields
        ≡ true
      → Admits lib document pin request binding
  unfolding disclosed contains
  shown none e name m = (denial_reason-Admits lib document pin request binding).0 e
  shown (some code) e name m = absurd (ground (arith, m))

  -- A field is disclosed only for a request that the policy admits; and for an admitted request, of the
  -- scope of its capability, exactly the requested fields are disclosed, all of which the scope allows,
  -- with exactly those redacted paths of the scope whose root is a disclosed field.
  pub audit-IsLeast :
      ((name : String)
        → contains name decided.disclosure.allowed_fields ≡ true
        → Admits lib document pin request binding)
      × (Admits lib document pin request binding
          → (scope : Fields) × (capability_scope document
                (string_or_none (read "capability" request))
              ≡ some scope)
            × IsLeast scope request decided.disclosure)
  unfolding audit reason
  audit-IsLeast = (
    λ name m. shown (reason lib document pin request binding) refl name m,
    λ admitted.
        let none_denied = (denial_reason-Admits lib document pin request binding).1 admitted in
        let (pins, (caller, actor, scope, bound, called, claimed, chosen, grants)) = admitted in
        let found : Path Disclosure decided.disclosure (allowed_disclosure (some scope) request) =
          disclosed-none (reason lib document pin request binding)
            (capability_scope document (string_or_none (read "capability" request))) scope request
            none_denied chosen in
        let least = allowed_disclosure-IsLeast scope request grants.3 in
        (scope, chosen, subst (IsLeast scope request) (sym found) least),
  )
