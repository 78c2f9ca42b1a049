-- ===== src/Kernel/References.antt =====
-- The references of continuity records are resolved against the records that will exist after the
-- proposal: `_validate_continuity_references` and `_predicted_conflict_ids`.
use shared_mind.Base.{
  String, Bool, false, not, ◌&&◌, ◌||◌, Option, none, some, List, [], ◌∷◌, ◌++◌, ◌==◌,
  if◌then◌else◌, equal, contains, sorted, distinct, keys, Table, Result, ok, err, ◌>>=◌, ◌>>◌,
  fold_result, for_each,
}
use shared_mind.Documents.{
  RecordType, source_revision, claim, conflict, decision_record, open_question, work_item,
  RecordRef, Claim, Registry, Predicate, Proposition, Operation, register_source_revision,
  assert_claim, supersede_claim, retract_claim, Decision, ContinuityOperation, record_decision,
  supersede_decision, answer_question, create_work_item, ConflictKind, ConflictKind-discrete,
  exclusive_value_conflict, polarity_conflict,
}
use shared_mind.Continuity.Errors.{Failure, Checked, validation_failure}
use shared_mind.Continuity.Errors
use shared_mind.Kernel.Host.{Host, sha256_json, member_ids}
use shared_mind.Kernel.State.{ClaimRow, ConflictRow, Tables}
use shared_mind.Kernel.Semantics.{predicate_of, family_key, conflict_kind}
use shared_mind.Kernel.Conflicts.{
  is_active_claim, conflict_id_of, newest_open_of, resolved_conflict_of, members_of_kind,
}

-- A conflict that the proposal has already opened or extended.
record Episode : Type 0 where
  family : String
  kind : ConflictKind
  conflict_id : String
  members : List String

record Prediction : Type 0 where
  active : Table Proposition
  episodes : List Episode
  predicted : List String

active_propositions : Table ClaimRow → Table Proposition
active_propositions [] = []
active_propositions ((id, row) ∷ rows) =
    let rest = active_propositions rows in
    if is_active_claim row.status then (id, row.proposition) ∷ rest else rest

-- active.pop(claim_id, None)
without : String → Table Proposition → Table Proposition
without id [] = []
without id ((j, p) ∷ rest) = let rows = without id rest in if j == id then rows else (j, p) ∷ rows

drop_all : List String → Table Proposition → Table Proposition
unfolding without
drop_all [] active = active
drop_all (id ∷ ids) active = drop_all ids (without id active)

-- episodes[(family, kind)]: the last write of this proposition, or the stored conflict that is
-- first by open status, episode and id.
stored_episode : String → ConflictKind → Table ConflictRow → Option (String × List String)
stored_episode family kind conflicts = elim (newest_open_of family kind conflicts) [
  | some (id, row) ↦ some (id, row.members)
  | none ↦ elim (resolved_conflict_of family kind conflicts) [
    | some (id, row) ↦ some (id, row.members)
    | none ↦ none
  ]
]

episode_of :
    String → ConflictKind → Table ConflictRow → List Episode → Option (String × List String)
unfolding stored_episode
episode_of family kind conflicts [] = stored_episode family kind conflicts
episode_of family kind conflicts (e ∷ es) =
    let rest = episode_of family kind conflicts es in
    if e.family == family && equal ConflictKind-discrete e.kind kind
    then some (e.conflict_id, e.members)
    else rest

module _ (h : Host) (reg : Registry) where
  disagreeing :
      Claim
      → Predicate
      → List String
      → Table Proposition
      → Result Failure (List (ConflictKind × String))
  disagreeing incoming predicate ignored [] = ok []
  disagreeing incoming predicate ignored ((id, other) ∷ rows) =
      let rest = disagreeing incoming predicate ignored rows in
      if contains id ignored
        || not (family_key h other predicate == family_key h incoming.proposition predicate)
      then rest
      else (conflict_kind h incoming.proposition other predicate >>= λ kind.
          rest >>= λ pairs. ok (elim kind [ none ↦ pairs | some k ↦ (k, id) ∷ pairs ]))

  -- one round over `sorted(members_by_kind.items())`
  predict_kind :
      Table ConflictRow
      → String
      → String
      → List (ConflictKind × String)
      → ConflictKind
      → Prediction
      → Prediction
  unfolding episode_of
  predict_kind conflicts family incoming pairs kind s = elim (members_of_kind kind incoming pairs) [
    | [] ↦ s
    | x ∷ xs ↦ elim (episode_of family kind conflicts s.episodes) [
      | some (id, prior) ↦ record s {
        episodes =
            record {
              family = family;
              kind = kind;
              conflict_id = id;
              members = distinct ((x ∷ xs) ++ prior);
            }
            ∷ s.episodes;
        predicted = id ∷ s.predicted;
      }
      | none ↦
          let id = conflict_id_of (sha256_json h (member_ids (sorted (distinct (x ∷ xs))))) in
          record s {
            episodes =
                record {
                  family = family;
                  kind = kind;
                  conflict_id = id;
                  members = distinct (x ∷ xs);
                }
                ∷ s.episodes;
            predicted = id ∷ s.predicted;
          }
    ]
  ]

  predict_claim : Table ConflictRow → Claim → List String → Prediction → Result Failure Prediction
  unfolding disagreeing predict_kind drop_all
  predict_claim conflicts incoming ignored s =
      elim (predicate_of reg incoming.proposition.predicate) [
        | none ↦ ok s
        | some predicate ↦ disagreeing incoming predicate ignored s.active >>= λ pairs.
            let family = family_key h incoming.proposition predicate in
            let id = incoming.claim_id in
            let s' =
              predict_kind conflicts family id pairs polarity_conflict
                (predict_kind conflicts family id pairs exclusive_value_conflict s) in
            ok (record s' {
              active = drop_all ignored ((id, incoming.proposition) ∷ without id s'.active);
            })
      ]

  predict_operation : Table ConflictRow → Operation → Prediction → Result Failure Prediction
  unfolding predict_claim without
  predict_operation conflicts (assert_claim incoming _) s = predict_claim conflicts incoming [] s
  predict_operation conflicts (supersede_claim target replacement _ _) s =
      predict_claim conflicts replacement (target ∷ []) s
  predict_operation conflicts (retract_claim target _ _ _) s =
      ok (record s { active = without target s.active })
  predict_operation conflicts _ s = ok s

  unfoldable pub predicted_conflict_ids : Tables → List Operation → Result Failure (List String)
  unfolding predict_operation active_propositions
  predicted_conflict_ids t operations =
      fold_result (predict_operation t.conflicts) operations
        (record { active = active_propositions t.claims; episodes = []; predicted = [] })
      >>= λ s. ok s.predicted

-- The identifiers that an operation adds to the names of one record type.
added_ids : RecordType → Operation → List String
added_ids source_revision (register_source_revision s) = s.revision_id ∷ []
added_ids claim (assert_claim c _) = c.claim_id ∷ []
added_ids claim (supersede_claim _ c _ _) = c.claim_id ∷ []
added_ids decision_record (Operation.continuity (record_decision d)) = d.decision_id ∷ []
added_ids decision_record (Operation.continuity (supersede_decision _ _ d _)) = d.decision_id ∷ []
added_ids open_question (Operation.continuity (ContinuityOperation.open_question q)) =
    q.question_id ∷ []
added_ids work_item (Operation.continuity (create_work_item w)) = w.work_item_id ∷ []
added_ids _ _ = []

all_added : RecordType → List Operation → List String
unfolding added_ids
all_added type [] = []
all_added type (op ∷ ops) = added_ids type op ++ all_added type ops

stored_ids : RecordType → Tables → List String
stored_ids source_revision t = keys t.sources
stored_ids claim t = keys t.claims
stored_ids conflict t = keys t.conflicts
stored_ids decision_record t = keys t.continuity.decision_records
stored_ids open_question t = keys t.continuity.open_questions
stored_ids work_item t = keys t.continuity.work_items

-- The final namespace of the proposal, `predicted` for the conflicts.
unfoldable pub namespace : Tables → List Operation → List String → RecordType → List String
unfolding stored_ids all_added
namespace t operations predicted conflict = stored_ids conflict t ++ predicted
namespace t operations predicted type = stored_ids type t ++ all_added type operations

abbrev record_types : List RecordType
record_types = source_revision ∷ claim ∷ conflict ∷ decision_record ∷ open_question ∷ work_item ∷ []

named_anywhere : (RecordType → List String) → String → List RecordType → Bool
named_anywhere names id [] = false
named_anywhere names id (type ∷ types) = contains id (names type) || named_anywhere names id types

-- `require`: the own type is known not to have the identifier when the others are searched.
unfoldable pub require : (RecordType → List String) → RecordRef → Checked
unfolding named_anywhere
require names r =
    if contains r.record_id (names r.record_type)
    then ok tt
    else if named_anywhere names r.record_id record_types
    then err (validation_failure Errors.reference_type_mismatch)
    else err (validation_failure Errors.reference_not_found)

decision_references : (RecordType → List String) → Decision → Checked
decision_references names d =
    for_each (λ id. require names (record { record_type = source_revision; record_id = id }))
      d.related_source_revision_ids
    >> for_each (λ id. require names (record { record_type = claim; record_id = id }))
        d.related_claim_ids

unfoldable pub operation_references : (RecordType → List String) → Operation → Checked
unfolding decision_references
operation_references names (Operation.continuity (record_decision d)) = decision_references names d
operation_references names (Operation.continuity (supersede_decision _ _ d _)) =
    decision_references names d
operation_references names (Operation.continuity (ContinuityOperation.open_question q)) =
    for_each (require names) q.related_objects
operation_references names (Operation.continuity (answer_question _ a)) =
    require names a.answer_reference
operation_references names (Operation.continuity (create_work_item w)) =
    for_each (require names) w.related_objects
operation_references names _ = ok tt

unfoldable pub validate_continuity_references : Host → Registry → Tables → List Operation → Checked
unfolding operation_references
validate_continuity_references h reg t operations = do
  predicted ← predicted_conflict_ids h reg t operations
  for_each (operation_references (namespace t operations predicted)) operations
