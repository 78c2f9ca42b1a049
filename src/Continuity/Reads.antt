-- ===== src/Continuity/Reads.antt =====
-- Optimistic concurrency: the reads that an operation must pin, and the checks of reads and guards.
use shared_mind.Base.{
  String, Bool, true, false, not, Option, none, some, List, [], ◌∷◌, find, nat_eq, equal, Result,
  ok, err, if◌then◌else◌,
}
use shared_mind.Documents.{
  RecordType, decision_record, open_question, work_item, ReadRef, aggregate, Guard,
  ContinuityOperation, supersede_decision, answer_question, drop_question, update_work_item_status,
  decision_status_eq, decision_version_eq, question_status_eq, question_version_eq,
  work_item_status_eq, work_item_version_eq, DecisionStatus-discrete, QuestionStatus-discrete,
  WorkItemStatus-discrete,
}
use shared_mind.Continuity.Errors.{Code, Failure, Checked, continuity_conflict}
use shared_mind.Continuity.Errors
use shared_mind.Continuity.Rows.{State, DecisionRow, QuestionRow, WorkItemRow}

-- The aggregate that a destructive operation must have read.
pub record RequiredRead : Type 0 where
  pub aggregate_type : RecordType
  pub aggregate_id : String

unfoldable pub required_reads : ContinuityOperation → List RequiredRead
required_reads (supersede_decision target _ _ _) =
    record { aggregate_type = decision_record; aggregate_id = target } ∷ []
required_reads (answer_question target _) =
    record { aggregate_type = open_question; aggregate_id = target } ∷ []
required_reads (drop_question target _) =
    record { aggregate_type = open_question; aggregate_id = target } ∷ []
required_reads (update_work_item_status target _ _ _ _ _) =
    record { aggregate_type = work_item; aggregate_id = target } ∷ []
required_reads _ = []

-- `row is None or row[column] != expected`
module _ {V A : Type 0} where
  unfoldable pub mismatch : (A → A → Bool) → (V → A) → Option V → A → Bool
  mismatch eq column none expected = true
  mismatch eq column (some row) expected = not (eq (column row) expected)

  -- raises on a mismatch, and else says that the read or guard was handled
  unfoldable pub expect : (A → A → Bool) → (V → A) → Option V → A → Code → Result Failure Bool
  unfolding mismatch
  expect eq column row expected code =
      if mismatch eq column row expected then err (continuity_conflict code) else ok true

unfoldable pub validate_read : State → ReadRef → Result Failure Bool
unfolding expect
validate_read s (aggregate decision_record id version) =
    expect nat_eq (λ (row : DecisionRow). row.version) (find id s.decision_records) version
      Errors.decision_version_mismatch
validate_read s (aggregate open_question id version) =
    expect nat_eq (λ (row : QuestionRow). row.version) (find id s.open_questions) version
      Errors.question_version_mismatch
validate_read s (aggregate work_item id version) =
    expect nat_eq (λ (row : WorkItemRow). row.version) (find id s.work_items) version
      Errors.work_item_version_mismatch
validate_read s _ = ok false

unfoldable pub validate_guard : State → Guard → Result Failure Bool
unfolding expect
validate_guard s (decision_status_eq id status) =
    expect (equal DecisionStatus-discrete) (λ (row : DecisionRow). row.status)
      (find id s.decision_records) status Errors.decision_status_mismatch
validate_guard s (decision_version_eq id version) =
    expect nat_eq (λ (row : DecisionRow). row.version) (find id s.decision_records) version
      Errors.decision_version_mismatch
validate_guard s (question_status_eq id status) =
    expect (equal QuestionStatus-discrete) (λ (row : QuestionRow). row.status)
      (find id s.open_questions) status Errors.question_status_mismatch
validate_guard s (question_version_eq id version) =
    expect nat_eq (λ (row : QuestionRow). row.version) (find id s.open_questions) version
      Errors.question_version_mismatch
validate_guard s (work_item_status_eq id status) =
    expect (equal WorkItemStatus-discrete) (λ (row : WorkItemRow). row.status)
      (find id s.work_items) status Errors.work_item_status_mismatch
validate_guard s (work_item_version_eq id version) =
    expect nat_eq (λ (row : WorkItemRow). row.version) (find id s.work_items) version
      Errors.work_item_version_mismatch
validate_guard s _ = ok false
