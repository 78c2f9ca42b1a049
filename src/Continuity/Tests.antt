-- ===== src/Continuity/Tests.antt =====
-- Tests and examples for src/shared_mind/continuity.py: a decision, a question and a work item.
use shared_mind.Continuity.Reducers.{
  reduce_record_decision, reduce_supersede_decision, reduce_drop_question,
  reduce_update_work_item_status,
}
use shared_mind.Base.{insert, String-discrete, ℕ_discrete, update}
use shared_mind.Documents.{ContinuityEvent-discrete}
use shared_mind.Base.{◌≡◌, refl, String, none, some, [], ◌∷◌, ◌++◌, ok, find, arith}
use shared_mind.Documents.{
  Actor, human, Decision, DecisionStatus, Question, QuestionStatus, WorkItem, WorkItemStatus,
  record_decision, supersede_decision, drop_question, update_work_item_status, ContinuityEvent,
  decision_recorded, decision_superseded, question_dropped, work_item_status_updated,
}
use shared_mind.Continuity.Rows.{State, DecisionRow, QuestionRow, WorkItemRow, empty}
use shared_mind.Continuity.Reducers.{
  apply_operation, apply_event, decision_row, question_row, created_row, supersede_row, drop_row,
  work_item_row,
}
use shared_mind.Continuity.Replay.{replay-apply_operation}
use shared_mind.Continuity.Invariant.{IsValid, apply_operation-IsValid}
use shared_mind.Continuity.Lifecycle.{
  DecisionAdvance, QuestionAdvance, WorkItemAdvance, decision_advance, question_advance,
  work_item_advance,
}

abbrev decision : String → Decision
decision id = record {
  decision_id = id;
  status = DecisionStatus.active;
  version = 1;
  replaced_by_decision_id = none;
  related_source_revision_ids = [];
  related_claim_ids = [];
  rest = "";
}

abbrev question : Question
question = record {
  question_id = "question_1";
  status = QuestionStatus.opened;
  version = 1;
  answer = none;
  drop = none;
  related_objects = [];
  rest = "";
}

abbrev work_item : WorkItem
work_item = record {
  work_item_id = "work_1";
  status = WorkItemStatus.todo;
  version = 1;
  blocker = none;
  updated_at = "t0";
  related_objects = [];
  rest = "";
}

abbrev decided : State
decided = record empty {
  decision_records = ("decision_1", decision_row (decision "decision_1")) ∷ [];
}

abbrev busy : State
busy = record decided {
  open_questions = ("question_1", question_row question) ∷ [];
  work_items = ("work_1", created_row work_item) ∷ [];
}

recorded_ok :
    apply_operation empty (record_decision (decision "decision_1")) []
    ≡ ok (decided, decision_recorded (decision "decision_1") ∷ [])
unfolding apply_operation reduce_record_decision find insert
recorded_ok = refl

empty-IsValid : IsValid empty
unfolding find
empty-IsValid = record {
  decisions = λ id row found. absurd (ground (arith, found));
  questions = λ id row found. absurd (ground (arith, found));
  items = λ id row found. absurd (ground (arith, found));
}

apply_operation-IsValid_example : IsValid decided
apply_operation-IsValid_example =
    apply_operation-IsValid empty (record_decision (decision "decision_1")) [] empty-IsValid
      recorded_ok

replay-apply_operation_example :
    (e : ContinuityEvent) × (decision_recorded (decision "decision_1") ∷ [] ≡ [] ++ e ∷ [])
    × (apply_event empty e ≡ ok decided)
replay-apply_operation_example =
    replay-apply_operation empty (record_decision (decision "decision_1")) [] recorded_ok

recorded_event : apply_event empty (decision_recorded (decision "decision_1")) ≡ ok decided
unfolding apply_event reduce_record_decision find ContinuityEvent-discrete String-discrete
    ℕ_discrete insert
recorded_event = refl

-- the decision is superseded by another one
abbrev replaced : State
replaced = record decided {
  decision_records =
      ("decision_2", decision_row (decision "decision_2"))
      ∷ (
        "decision_1",
        supersede_row DecisionStatus.superseded 2 "decision_2"
            (decision_row (decision "decision_1")),
      )
      ∷ [];
}

replaced_ok :
    apply_operation decided
      (supersede_decision "decision_1" DecisionStatus.superseded (decision "decision_2") "better")
      []
    ≡ ok (
      replaced,
      decision_superseded "decision_1" DecisionStatus.superseded
            (decision "decision_2")
            "better"
            1
            2
          ∷ [],
    )
unfolding apply_operation reduce_supersede_decision find update insert
replaced_ok = refl

found_decision :
    find "decision_1" decided.decision_records ≡ some (decision_row (decision "decision_1"))
unfolding find
found_decision = refl

decision_advance_example :
    (row' : DecisionRow) × (find "decision_1" replaced.decision_records ≡ some row')
    × DecisionAdvance (decision_row (decision "decision_1")) row'
decision_advance_example =
    decision_advance decided
      (supersede_decision "decision_1" DecisionStatus.superseded (decision "decision_2") "better")
      [] replaced_ok "decision_1" (decision_row (decision "decision_1")) found_decision

-- the question is dropped
abbrev asked_no_more : State
asked_no_more = record busy {
  open_questions = ("question_1", drop_row 2 (record { rest = "" }) (question_row question)) ∷ [];
}

dropped_ok :
    apply_operation busy (drop_question "question_1" (record { rest = "" })) []
    ≡ ok (asked_no_more, question_dropped "question_1" (record { rest = "" }) 1 2 ∷ [])
unfolding apply_operation reduce_drop_question find update
dropped_ok = refl

found_question : find "question_1" busy.open_questions ≡ some (question_row question)
unfolding find
found_question = refl

question_advance_example :
    (row' : QuestionRow) × (find "question_1" asked_no_more.open_questions ≡ some row')
    × QuestionAdvance (question_row question) row'
question_advance_example =
    question_advance busy (drop_question "question_1" (record { rest = "" })) [] dropped_ok
      "question_1" (question_row question) found_question

-- the work item is blocked
abbrev ada : Actor
ada = record { actor_id = "ada"; actor_type = human }

abbrev stuck : State
stuck = record busy {
  work_items =
      ("work_1", work_item_row WorkItemStatus.blocked 2 (some "rain") "t1" (created_row work_item))
      ∷ [];
}

blocked_ok :
    apply_operation busy
      (update_work_item_status "work_1" WorkItemStatus.blocked (some "rain") "wet" ada "t1")
      []
    ≡ ok (
      stuck,
      work_item_status_updated "work_1" WorkItemStatus.todo WorkItemStatus.blocked
            (some "rain")
            "wet"
            ada
            "t1"
            1
            2
          ∷ [],
    )
unfolding apply_operation reduce_update_work_item_status find update
blocked_ok = refl

found_work_item : find "work_1" busy.work_items ≡ some (created_row work_item)
unfolding find
found_work_item = refl

work_item_advance_example :
    (row' : WorkItemRow) × (find "work_1" stuck.work_items ≡ some row')
    × WorkItemAdvance (created_row work_item) row'
work_item_advance_example =
    work_item_advance busy
      (update_work_item_status "work_1" WorkItemStatus.blocked (some "rain") "wet" ada "t1") []
      blocked_ok "work_1" (created_row work_item) found_work_item
