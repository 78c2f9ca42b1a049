-- ===== src/RemotePolicy/Answers.antt =====
-- Requests to a policy that `compile_policy` of src/shared_mind/remote_policy.py has compiled.
use mathlib.Core.Option
use shared_mind.Base.{
  String, true, ◌≡◌, refl, sym, ap, ◌∙◌, Option, none, some, arith, eq_refl, is_some, ok, or_raise,
  >>=-eq-ok,
}
use shared_mind.Kernel.Json.{Json, text, object, Fields, end, field}
use shared_mind.RemotePolicy.Values.{Library, value_error, canonical_hash}
use shared_mind.RemotePolicy.Frozen.{
  thaw_fields, freeze_fields, thaw_fields-freeze_fields, strict_fields,
}
use shared_mind.RemotePolicy.Decide.{
  CompiledPolicy, Decision, Audit, audit_document, has_hash, hash_is, sealed, decision_id,
  evaluate_request,
}
use shared_mind.RemotePolicy.Compile.{validate_policy, compile_policy}
use shared_mind.RemotePolicy.Lists.{ok-injective}
use shared_mind.RemotePolicy.Decisions.{or_raise-ok, audit_of, required_mapping-or_empty}
use shared_mind.RemotePolicy.Compiled.{
  IsWellFormed, validate_policy-IsWellFormed, validate_policy-pin,
}

module _ (lib : Library) where
  -- The document of a policy is valid and has its hash.
  abbrev IsIntact : CompiledPolicy → Type 0
  IsIntact policy =
      ((u : Unit {0}) × (validate_policy lib (thaw_fields policy.document) ≡ ok u))
      × (has_hash lib (thaw_fields policy.document) policy.policy_hash ≡ true)

  hash_of :
      (document : Fields) (hash : String)
      → canonical_hash lib document ≡ some hash
      → has_hash lib document hash ≡ true
  unfolding has_hash
  hash_of document hash h = ap (hash_is hash) h ∙ eq_refl hash

  compiled :
      (m : Fields) (policy : CompiledPolicy)
      → compile_policy lib (object m) ≡ ok policy
      → IsIntact policy
  unfolding compile_policy
  compiled m policy h =
      let copied = >>=-eq-ok (strict_fields m) _ h in
      let valid = >>=-eq-ok (validate_policy lib copied.0) _ copied.2 in
      let hashed =
        >>=-eq-ok (or_raise (canonical_hash lib copied.0) (value_error "no canonical JSON")) _
          valid.2 in
      let whole = ok-injective hashed.2 in
      let thawed = ap (λ p. thaw_fields p.document) whole in
      let same_document = sym thawed ∙ thaw_fields-freeze_fields copied.0 in
      let same_hash = sym (ap (λ p. p.policy_hash) whole) in
      (
        (valid.0, ap (validate_policy lib) same_document ∙ valid.1),
        rw (same_document, same_hash) (hash_of copied.0 hashed.0 (or_raise-ok _ _ _ hashed.1)),
      )

  -- A compiled policy is well-formed.
  pub compile_policy-IsWellFormed :
      (m : Fields) (policy : CompiledPolicy)
      → compile_policy lib (object m) ≡ ok policy
      → IsWellFormed lib (thaw_fields policy.document)
  compile_policy-IsWellFormed m policy h =
      let intact = compiled m policy h in
      validate_policy-IsWellFormed lib (thaw_fields policy.document) intact.0.0 intact.0.1

  evaluate_request-intact :
      (policy : CompiledPolicy) (request : Fields) (binding : Json)
      → IsIntact policy
      → evaluate_request lib policy (object request) binding
        ≡ sealed lib (audit_of lib policy request binding)
  unfolding evaluate_request
  evaluate_request-intact policy request binding (valid, hash) =
      let (pin, found) = validate_policy-pin lib (thaw_fields policy.document) valid.0 valid.1 in
      let same_pin =
        required_mapping-or_empty (thaw_fields policy.document) "endpoint_pin" pin found in
      rw (hash, found, same_pin) refl

  sealed_id :
      (a : Audit) (o : Option String)
      → decision_id lib (audit_document a end) ≡ o
      → is_some o ≡ true
      → (d : Decision) × (sealed lib a ≡ ok d)
  unfolding sealed
  sealed_id a none e h = absurd (ground (arith, h))
  sealed_id a (some id) e h = (
    record { document = freeze_fields (audit_document a (field "decision_id" (text id) end)) },
    rw e refl,
  )

  is_some-map :
      {A : Type 0} (f : A → String) (o : Option A)
      → is_some o ≡ true
      → is_some (Option.map f o) ≡ true
  is_some-map f (some a) h = refl
  is_some-map f none h = h

  sealed-some :
      (a : Audit)
      → is_some (lib.dumps (audit_document a end)) ≡ true
      → (d : Decision) × (sealed lib a ≡ ok d)
  unfolding decision_id
  sealed-some a h =
      sealed_id a (decision_id lib (audit_document a end)) refl
        (is_some-map _ (lib.dumps (audit_document a end)) h)

  -- A compiled policy decides every request whose audit document has canonical JSON.
  pub compile_policy-decides :
      (m : Fields) (policy : CompiledPolicy) (request : Fields) (binding : Json)
      → compile_policy lib (object m) ≡ ok policy
      → is_some (lib.dumps (audit_document (audit_of lib policy request binding) end)) ≡ true
      → (d : Decision) × (evaluate_request lib policy (object request) binding ≡ ok d)
  compile_policy-decides m policy request binding h encodes =
      let intact = compiled m policy h in
      let (d, holds) = sealed-some (audit_of lib policy request binding) encodes in
      (d, evaluate_request-intact policy request binding intact ∙ holds)
