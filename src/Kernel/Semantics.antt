-- ===== src/Kernel/Semantics.antt =====
-- What a claim must satisfy under its predicate, and the key of its family.
use shared_mind.Base.{
  ℕ, String, Bool, true, false, not, ◌&&◌, ◌||◌, Option, none, some, List, [], ◌∷◌, map, ◌==◌, ltb,
  if◌then◌else◌, is_some, equal, contains, find, Result, ok, ◌>>=◌, ◌>>◌, raise_if, or_raise,
  for_each, max, min,
}
use shared_mind.Documents.{
  Actor, ActorType-discrete, human, ObjectValue, entity, enum, scalar, ObjectDefinition,
  entity_types, enum_values, scalar_kind, Proposition, Predicate, Registry, EvidenceLink, Temporal,
  required, forbidden, Cardinality, one, many, Polarity, positive, negative, ObjectValue-discrete,
  Polarity-discrete, ConflictKind, exclusive_value_conflict, polarity_conflict,
}
use shared_mind.Continuity.Errors.{Failure, Checked, validation_failure, value_error}
use shared_mind.Continuity.Errors
use shared_mind.Kernel.Json.{proposition_json, walk}
use shared_mind.Kernel.Host.{Host, sha256_json, family_values}

-- self.predicates = {item["key"]: item for item in registry["predicates"]}: the last item wins.
find_predicate : String → List Predicate → Option Predicate
find_predicate key [] = none
find_predicate key (p ∷ ps) =
    let later = find_predicate key ps in
    elim later [ some q ↦ some q | none ↦ if p.key == key then some p else none ]

unfoldable pub predicate_of : Registry → String → Option Predicate
unfolding find_predicate
predicate_of registry key = find_predicate key registry.predicates

unfoldable pub actor_is_authorized : Actor → Actor → Bool
actor_is_authorized actor authority =
    equal ActorType-discrete actor.actor_type human || actor.actor_id == authority.actor_id

definition_kind : ObjectDefinition → String
definition_kind (entity_types _) = "entity"
definition_kind (enum_values _) = "enum"
definition_kind (scalar_kind kind) = kind

value_kind : ObjectValue → String
value_kind (entity _) = "entity"
value_kind (enum _) = "enum"
value_kind (scalar kind _) = kind

-- the checks that come after the kinds were found equal
check_listed : ObjectDefinition → ObjectValue → Checked
check_listed (entity_types allowed) (entity e) =
    raise_if (not (contains e.entity_type allowed))
      (validation_failure Errors.object_entity_type_mismatch)
check_listed (enum_values allowed) (enum value) =
    raise_if (not (contains value allowed))
      (validation_failure Errors.object_enum_value_not_allowed)
check_listed _ _ = ok tt

check_object : ObjectDefinition → ObjectValue → Checked
unfolding definition_kind value_kind check_listed
check_object expected actual =
    raise_if (not (value_kind actual == definition_kind expected))
      (validation_failure Errors.object_kind_mismatch)
    >> check_listed expected actual

-- any(value is not None and field not in allowed_fields for field, value in scope.items())
stray_field : List String → List (String × Option String) → Bool
stray_field allowed [] = false
stray_field allowed ((k, v) ∷ scope) =
    (is_some v && not (contains k allowed)) || stray_field allowed scope

-- scope.get(field) is None
scope_missing : List (String × Option String) → String → Bool
scope_missing scope k = elim (find k scope) [ some (some _) ↦ false | _ ↦ true ]

check_scope : Predicate → List (String × Option String) → Checked
unfolding stray_field scope_missing
check_scope predicate scope = do
  raise_if (stray_field predicate.allowed_fields scope)
      (validation_failure Errors.scope_field_not_allowed)
  for_each
      (λ k. raise_if (scope_missing scope k) (validation_failure Errors.required_scope_missing))
      predicate.required_fields

is_required : Temporal → Bool
is_required required = true
is_required _ = false

is_forbidden : Temporal → Bool
is_forbidden forbidden = true
is_forbidden _ = false

-- start is not None and end is not None and start >= end
backwards : Option ℕ → Option ℕ → Bool
backwards (some start) (some end) = not (ltb start end)
backwards _ _ = false

unfoldable pub validate_evidence_interpretations : Predicate → List EvidenceLink → Checked
validate_evidence_interpretations predicate [] = ok tt
validate_evidence_interpretations predicate (link ∷ links) =
    raise_if (not (contains link.interpretation predicate.allowed_interpretations))
      (validation_failure Errors.evidence_interpretation_not_allowed)
    >> validate_evidence_interpretations predicate links

abbrev or_else : Option ℕ → ℕ → ℕ
or_else none d = d
or_else (some n) _ = n

-- datetime.max in microseconds after datetime.min
abbrev max_instant : ℕ
max_instant = 315537897599999999

is_one : Cardinality → Bool
is_one one = true
is_one many = false

is_positive : Polarity → Bool
is_positive positive = true
is_positive negative = false

-- the second and the third rule of `_conflict_kind`
unfoldable pub rule_kind : Proposition → Proposition → Predicate → Option ConflictKind
unfolding is_one is_positive
rule_kind incoming other predicate =
    if contains "OPPOSITE_POLARITY" predicate.conflict_rules
      && equal ObjectValue-discrete incoming.object other.object
      && not (equal Polarity-discrete incoming.polarity other.polarity)
    then some polarity_conflict
    else if contains "EXCLUSIVE_OBJECT" predicate.conflict_rules
        && is_one predicate.cardinality
        && is_positive incoming.polarity
        && is_positive other.polarity
        && not (equal ObjectValue-discrete incoming.object other.object)
    then some exclusive_value_conflict
    else none

module _ (h : Host) where
  unfoldable pub parse_time : Option String → Result Failure (Option ℕ)
  parse_time none = ok none
  parse_time (some value) = or_raise (h.instant value) value_error >>= λ t. ok (some t)

  check_valid_time : Temporal → Proposition → Checked
  unfolding parse_time is_required is_forbidden backwards
  check_valid_time temporal p = do
    start ← parse_time p.valid_from
    end ← parse_time p.valid_to
    raise_if (is_required temporal && not (is_some start))
        (validation_failure Errors.valid_time_required)
    raise_if (is_forbidden temporal && (is_some start || is_some end))
        (validation_failure Errors.valid_time_forbidden)
    raise_if (backwards start end) (validation_failure Errors.invalid_valid_time_range)

  unfoldable pub validate_predicate_semantics :
      Proposition → Predicate → List EvidenceLink → Checked
  unfolding check_object check_scope check_valid_time
  validate_predicate_semantics p predicate evidence = do
    check_object predicate.object p.object
    check_scope predicate p.scope
    check_valid_time predicate.temporal p
    validate_evidence_interpretations predicate evidence

  unfoldable pub family_key : Proposition → Predicate → String
  family_key p predicate =
      sha256_json h (family_values (map (walk (proposition_json p)) predicate.family_key_fields))

  unfoldable pub overlaps : Proposition → Proposition → Result Failure Bool
  unfolding parse_time
  overlaps left right = do
    left_start ← parse_time left.valid_from
    right_start ← parse_time right.valid_from
    left_end ← parse_time left.valid_to
    right_end ← parse_time right.valid_to
    ok (
        ltb (max (or_else left_start 0) (or_else right_start 0))
          (min (or_else left_end max_instant) (or_else right_end max_instant)))

  unfoldable pub conflict_kind :
      Proposition → Proposition → Predicate → Result Failure (Option ConflictKind)
  unfolding overlaps rule_kind
  conflict_kind incoming other predicate =
      if contains "TEMPORAL_OVERLAP" predicate.conflict_rules
      then (overlaps incoming other >>= λ overlapping.
          ok (if overlapping then rule_kind incoming other predicate else none))
      else ok (rule_kind incoming other predicate)
