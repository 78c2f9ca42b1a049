-- ===== src/Continuity/Rows.antt =====
-- The three tables of continuity state.
use shared_mind.Base.{ℕ, String, Option, [], Table}
use shared_mind.Documents.{
  DecisionStatus, QuestionStatus, WorkItemStatus, Decision, Question, WorkItem, QuestionAnswer,
  QuestionDrop,
}

pub record DecisionRow : Type 0 where
  pub status : DecisionStatus
  pub version : ℕ
  pub replaced_by_decision_id : Option String
  pub document : Decision

pub record QuestionRow : Type 0 where
  pub status : QuestionStatus
  pub version : ℕ
  pub answer : Option QuestionAnswer
  pub drop_record : Option QuestionDrop
  pub document : Question

pub record WorkItemRow : Type 0 where
  pub status : WorkItemStatus
  pub version : ℕ
  pub blocker : Option String
  pub updated_at : String
  pub document : WorkItem

pub record State : Type 0 where
  pub decision_records : Table DecisionRow
  pub open_questions : Table QuestionRow
  pub work_items : Table WorkItemRow

abbrev pub empty : State
empty = record { decision_records = []; open_questions = []; work_items = [] }
