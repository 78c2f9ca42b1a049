-- ===== src/RemotePolicy/Callers.antt =====
-- The trust binding of a caller: what `_trusted_binding` of src/shared_mind/remote_policy.py finds.
use mathlib.Core.List.{Memᴰ}
use mathlib.Core.List.Memᴰ.{head, tail}
use shared_mind.Base.{
  String, Bool, true, ◌≡◌, refl, sym, subst, some, List, [], ◌∷◌, arith, inl, inr, eq_iff, Every,
  Bool-cases,
}
use shared_mind.Kernel.Json.{Json, null, literal, text, foreign, array, object, Fields}
use shared_mind.RemotePolicy.Values.{Library, same, read, mapping_values, is_non_empty_string}
use shared_mind.RemotePolicy.Evaluate.{
  trust_fields, agrees, all_fields, trusted_binding, first_mapping,
}

pub same-text : (v : Json) (t : String) → same v (text t) ≡ true → v ≡ text t
unfolding same
same-text (text s) t h = ground (arith, eq_iff s t)
same-text null t h = absurd (ground (arith, h))
same-text (literal _) t h = absurd (ground (arith, h))
same-text (foreign _) t h = absurd (ground (arith, h))
same-text (array _) t h = absurd (ground (arith, h))
same-text (object _) t h = absurd (ground (arith, h))

pub same_refl : (t : String) → same (text t) (text t) ≡ true
unfolding same
same_refl t = ground (arith, eq_iff t t)

text-same : (t : String) (v : Json) → same (text t) v ≡ true → v ≡ text t
unfolding same
text-same t (text s) h = ground (arith, eq_iff t s)
text-same t null h = absurd (ground (arith, h))
text-same t (literal _) h = absurd (ground (arith, h))
text-same t (foreign _) h = absurd (ground (arith, h))
text-same t (array _) h = absurd (ground (arith, h))
text-same t (object _) h = absurd (ground (arith, h))

pub first_mapping-Memᴰ :
    (test : Fields → Bool) (xs : List Fields) (x : Fields)
    → first_mapping test xs ≡ some x
    → Memᴰ x xs × (test x ≡ true)
unfolding first_mapping
first_mapping-Memᴰ test [] x h = absurd (ground (arith, h))
first_mapping-Memᴰ test (y ∷ ys) x h = elim (Bool-cases (test y)) [
  | inl holds ↦
      let same_mapping : Path Fields y x = ground (arith, h, holds) in
      (head (sym same_mapping), subst (λ z. test z ≡ true) same_mapping holds)
  | inr fails ↦
      let found = first_mapping-Memᴰ test ys x (ground (arith, h, fails)) in (tail found.0, found.1)
]

pub first_mapping-found :
    (test : Fields → Bool) (xs : List Fields) (x : Fields)
    → Memᴰ x xs
    → test x ≡ true
    → (y : Fields) × (first_mapping test xs ≡ some y)
unfolding first_mapping
first_mapping-found test [] x m h = elim m [ ]
first_mapping-found test (y ∷ ys) x (head e) h = (y, rw (subst (λ z. test z ≡ true) e h) refl)
first_mapping-found test (y ∷ ys) x (tail m) h = elim (Bool-cases (test y)) [
  | inl holds ↦ (y, ground (arith, holds))
  | inr fails ↦
      let found = first_mapping-found test ys x m h in (found.0, ground (arith, found.1, fails))
]

module _ (lib : Library) where
  -- The two mappings have the same text under a name.
  abbrev pub Names : Fields → Fields → String → Type 0
  Names a b name = (t : String) × (read name a ≡ text t) × (read name b ≡ text t)

  non_empty : (v : Json) → is_non_empty_string lib v ≡ true → (t : String) × (v ≡ text t)
  unfolding is_non_empty_string
  non_empty (text t) h = (t, refl)
  non_empty null h = absurd (ground (arith, h))
  non_empty (literal _) h = absurd (ground (arith, h))
  non_empty (foreign _) h = absurd (ground (arith, h))
  non_empty (array _) h = absurd (ground (arith, h))
  non_empty (object _) h = absurd (ground (arith, h))

  agrees-Names :
      (caller candidate : Fields) (names : List String)
      → all_fields (λ name. is_non_empty_string lib (read name caller)) names ≡ true
      → all_fields (λ name. same (read name caller) (read name candidate)) names ≡ true
      → Every (Names caller candidate) names
  unfolding all_fields
  agrees-Names caller candidate [] h agree = tt
  agrees-Names caller candidate (name ∷ names) h agree =
      let t = non_empty (read name caller) (ground (arith, h)) in
      let other =
        text-same t.0 (read name candidate)
          (subst (λ v. same v (read name candidate) ≡ true) t.1 (ground (arith, agree))) in
      (
        (t.0, t.1, other),
        agrees-Names caller candidate names (ground (arith, h)) (ground (arith, agree)),
      )

  Names-agree :
      (caller candidate : Fields) (names : List String)
      → Every (Names caller candidate) names
      → all_fields (λ name. same (read name caller) (read name candidate)) names ≡ true
  unfolding all_fields
  Names-agree caller candidate [] h = refl
  Names-agree caller candidate (name ∷ names) h =
      rw (h.0.1, h.0.2, same_refl h.0.0) (Names-agree caller candidate names h.1)

  -- The authenticated binding is one of the policy's, field by field.
  abbrev pub IsBound : Fields → Json → Fields → Type 0
  IsBound document binding caller =
      (binding ≡ object caller)
      × (all_fields (λ name. is_non_empty_string lib (read name caller)) trust_fields ≡ true)
      × ((candidate : Fields) × Memᴰ candidate (mapping_values (read "trust_bindings" document))
          × Every (Names caller candidate) trust_fields)

  IsBound-of :
      (document caller found : Fields)
      → trusted_binding lib document (object caller) ≡ some found
      → IsBound document (object caller) caller × Every (Names caller found) trust_fields
  unfolding trusted_binding agrees
  IsBound-of document caller found h =
      elim (Bool-cases
        (all_fields (λ name. is_non_empty_string lib (read name caller)) trust_fields)) [
          | inr fails ↦ absurd (ground (arith, h, fails))
          | inl filled ↦
              let chosen =
                first_mapping-Memᴰ (agrees caller) (mapping_values (read "trust_bindings" document))
                  found (ground (arith, h, filled)) in
              let names = agrees-Names caller found trust_fields filled chosen.1 in
              ((refl, filled, (found, chosen.0, names)), names)
        ]

  -- A binding that is trusted names a caller whom the policy binds.
  pub trusted_binding-IsBound :
      (document : Fields) (binding : Json) (found : Fields)
      → trusted_binding lib document binding ≡ some found
      → (caller : Fields) × IsBound document binding caller
        × Every (Names caller found) trust_fields
  unfolding trusted_binding
  trusted_binding-IsBound document (object caller) found h =
      let bound = IsBound-of document caller found h in (caller, bound.0, bound.1)
  trusted_binding-IsBound document null found h = absurd (ground (arith, h))
  trusted_binding-IsBound document (text _) found h = absurd (ground (arith, h))
  trusted_binding-IsBound document (literal _) found h = absurd (ground (arith, h))
  trusted_binding-IsBound document (foreign _) found h = absurd (ground (arith, h))
  trusted_binding-IsBound document (array _) found h = absurd (ground (arith, h))

  -- A caller whom the policy binds is trusted.
  pub IsBound-trusted_binding :
      (document : Fields) (binding : Json) (caller : Fields)
      → IsBound document binding caller
      → (found : Fields) × (trusted_binding lib document binding ≡ some found)
        × Every (Names caller found) trust_fields
  unfolding trusted_binding agrees
  IsBound-trusted_binding document binding caller (same_binding, filled, (candidate, m, names)) =
      let found =
        first_mapping-found (agrees caller) (mapping_values (read "trust_bindings" document))
          candidate m (Names-agree caller candidate trust_fields names) in
      let chosen =
        first_mapping-Memᴰ (agrees caller) (mapping_values (read "trust_bindings" document)) found.0
          found.1 in
      (
        found.0,
        rw same_binding (rw filled found.1),
        agrees-Names caller found.0 trust_fields filled chosen.1,
      )
