-- ===== src/RemotePolicy/Decisions.antt =====
-- The decisions of `evaluate_request` of src/shared_mind/remote_policy.py.
use shared_mind.Base.{
  String, true, false, not, ◌≡◌, refl, sym, ◌∙◌, subst, ap, Option, none, some, arith, ◌↔◌, Result,
  ok, err, >>=-eq-ok, or_raise, raise_if,
}
use shared_mind.Kernel.Json.{
  Json, null, text, literal, foreign, array, object, Fields, end, field, get_field,
}
use shared_mind.RemotePolicy.Values.{
  Library, Refusal, value_error, same, read, required_mapping, mapping_or_empty,
}
use shared_mind.RemotePolicy.Frozen.{thaw_fields, thaw_fields-freeze_fields}
use shared_mind.RemotePolicy.Callers.{same_refl}
use shared_mind.RemotePolicy.Admission.{Admits}
use shared_mind.RemotePolicy.DenyByDefault.{reason, denial_reason-Admits}
use shared_mind.RemotePolicy.Decide.{
  CompiledPolicy, Decision, Audit, audit, audit_document, evaluate_request, sealed, outcome_text,
  decision_id, has_hash, without_field, verify_decision_integrity, as_dict, json_copy,
}

pub or_raise-ok : (o : Option String) (e : Refusal) (t : String) → or_raise o e ≡ ok t → o ≡ some t
or_raise-ok none e t h = absurd (cc h)
or_raise-ok (some s) e t h = ground (arith, h)

pub required_mapping-or_empty :
    (m : Fields) (name : String) (found : Fields)
    → required_mapping m name ≡ ok found
    → mapping_or_empty (read name m) ≡ found
unfolding required_mapping mapping_or_empty
required_mapping-or_empty m name found h = of (read name m) h
  where
    of :
        (v : Json)
        → (elim v [ object o ↦ ok o | _ ↦ err (value_error "must be an object") ]) ≡ ok found
        → mapping_or_empty v ≡ found
    of (object o) h = ground (arith, h)
    of null h = absurd (cc h)
    of (text _) h = absurd (cc h)
    of (literal _) h = absurd (cc h)
    of (foreign _) h = absurd (cc h)
    of (array _) h = absurd (cc h)

ok-injective {ℓ κ} : {E : Type κ} {A : Type ℓ} {a b : A} → Path (Result E A) (ok a) (ok b) → a ≡ b
ok-injective h = cc

true≢false : false ≡ true → ⊥
true≢false h = cc

-- A document with its digest.
abbrev pub signed : Audit → String → Fields
signed a id = audit_document a (field "decision_id" (text id) end)

module _ (lib : Library) where
  abbrev pub endpoint_pin : CompiledPolicy → Fields
  endpoint_pin policy = mapping_or_empty (read "endpoint_pin" (thaw_fields policy.document))

  abbrev pub audit_of : CompiledPolicy → Fields → Json → Audit
  audit_of policy request binding =
      audit lib policy (thaw_fields policy.document) (endpoint_pin policy) request binding

  sealed-ok :
      (a : Audit) (d : Decision)
      → sealed lib a ≡ ok d
      → (id : String) × (decision_id lib (audit_document a end) ≡ some id)
        × (thaw_fields d.document ≡ signed a id)
  unfolding sealed
  sealed-ok a d h =
      let named =
        >>=-eq-ok
          (or_raise (decision_id lib (audit_document a end)) (value_error "no canonical JSON")) _
          h in
      (
        named.0,
        or_raise-ok _ _ _ named.1,
        sym (ap (λ x. thaw_fields x.document) (ok-injective named.2))
            ∙ thaw_fields-freeze_fields (signed a named.0),
      )

  -- A decision holds the audit document of its request, with the digest of that document.
  evaluate_request-sealed :
      (policy : CompiledPolicy) (request : Fields) (binding : Json) (d : Decision)
      → evaluate_request lib policy (object request) binding ≡ ok d
      → sealed lib (audit_of policy request binding) ≡ ok d
  unfolding evaluate_request
  evaluate_request-sealed policy request binding d h =
      let document = thaw_fields policy.document in
      let intact =
        >>=-eq-ok
          (raise_if (not (has_hash lib document policy.policy_hash))
            (value_error "compiled remote policy integrity check failed"))
          _ h in
      let pinned = >>=-eq-ok (required_mapping document "endpoint_pin") _ intact.2 in
      subst (λ pin. sealed lib (audit lib policy document pin request binding) ≡ ok d)
        (sym (required_mapping-or_empty document "endpoint_pin" pinned.0 pinned.1)) pinned.2

  read-outcome :
      (a : Audit) (id : String) → read "outcome" (signed a id) ≡ text (outcome_text a.reason)
  unfolding read get_field audit_document
  read-outcome a id = refl

  read-decision_id : (a : Audit) (id : String) → read "decision_id" (signed a id) ≡ text id
  unfolding read get_field audit_document
  read-decision_id a id = refl

  without-decision_id :
      (a : Audit) (id : String) → without_field "decision_id" (signed a id) ≡ audit_document a end
  unfolding without_field audit_document
  without-decision_id a id = refl

  outcome-none : (o : Option String) → (text (outcome_text o) ≡ text "ALLOW") ↔ (o ≡ none)
  unfolding same
  outcome-none none = (λ h. refl, λ h. refl)
  outcome-none (some code) = (
    λ h. absurd (true≢false (subst (λ v. same v (text "ALLOW") ≡ true) (sym h) refl)),
    λ h. absurd (cc h),
  )

  -- A decision allows the request exactly where the policy admits it.
  pub evaluate_request-Admits :
      (policy : CompiledPolicy) (request : Fields) (binding : Json) (d : Decision)
      → evaluate_request lib policy (object request) binding ≡ ok d
      → (read "outcome" (thaw_fields d.document) ≡ text "ALLOW")
        ↔ Admits lib (thaw_fields policy.document) (endpoint_pin policy) request binding
  unfolding audit reason
  evaluate_request-Admits policy request binding d h =
      let a = audit_of policy request binding in
      let (id, digest, holds) =
        sealed-ok a d (evaluate_request-sealed policy request binding d h) in
      let admits =
        denial_reason-Admits lib (thaw_fields policy.document) (endpoint_pin policy) request
          binding in
      let outcome = ap (read "outcome") holds ∙ read-outcome a id in
      (
        λ allowed. admits.0 ((outcome-none a.reason).0 (sym outcome ∙ allowed)),
        λ admitted. outcome ∙ (outcome-none a.reason).1 (admits.1 admitted),
      )

  verified :
      (m : Fields) (id : String)
      → decision_id lib (without_field "decision_id" m) ≡ some id
      → read "decision_id" m ≡ text id
      → verify_decision_integrity lib m ≡ ok tt
  unfolding verify_decision_integrity
  verified m id digest named = rw (digest, named, same_refl id) refl

  -- The dictionary of a decision is a copy of its document: the integrity check passes.
  pub as_dict-evaluate_request :
      (policy : CompiledPolicy) (request : Fields) (binding : Json) (d : Decision)
      → evaluate_request lib policy (object request) binding ≡ ok d
      → as_dict lib d ≡ json_copy lib (thaw_fields d.document)
  unfolding as_dict
  as_dict-evaluate_request policy request binding d h =
      let a = audit_of policy request binding in
      let (id, digest, holds) =
        sealed-ok a d (evaluate_request-sealed policy request binding d h) in
      rw
        (verified (thaw_fields d.document) id
          (ap (λ m. decision_id lib (without_field "decision_id" m)) holds
            ∙ ap (decision_id lib) (without-decision_id a id)
            ∙ digest)
          (ap (read "decision_id") holds ∙ read-decision_id a id))
        refl
