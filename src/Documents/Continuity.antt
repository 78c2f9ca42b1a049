-- ===== src/Documents/Continuity.antt =====
-- Decisions, questions and work items, the operations on them and the events of these operations
-- (src/shared_mind/continuity.py).
use shared_mind.Base.{ℕ, String, Option, List, ℕ_discrete, String-discrete}
use shared_mind.Documents.Epistemic.{Actor, RecordRef}

pub data DecisionStatus : Type 0 where
  active superseded reversed : DecisionStatus

pub data QuestionStatus : Type 0 where
  opened answered dropped : QuestionStatus

-- `unlisted` is any other text.
pub data WorkItemStatus : Type 0 where
  todo doing blocked done abandoned : WorkItemStatus
  unlisted : String → WorkItemStatus

pub record Decision : Type 0 where
  pub decision_id : String
  pub status : DecisionStatus
  pub version : ℕ
  pub replaced_by_decision_id : Option String
  pub related_source_revision_ids : List String
  pub related_claim_ids : List String
  pub rest : String

pub record QuestionAnswer : Type 0 where
  pub answer_reference : RecordRef
  pub rest : String

pub record QuestionDrop : Type 0 where
  pub rest : String

pub record Question : Type 0 where
  pub question_id : String
  pub status : QuestionStatus
  pub version : ℕ
  pub answer : Option QuestionAnswer
  pub drop : Option QuestionDrop
  pub related_objects : List RecordRef
  pub rest : String

pub record WorkItem : Type 0 where
  pub work_item_id : String
  pub status : WorkItemStatus
  pub version : ℕ
  pub blocker : Option String
  pub updated_at : String
  pub related_objects : List RecordRef
  pub rest : String

pub data ContinuityOperation : Type 0 where
  record_decision : Decision → ContinuityOperation
  supersede_decision :
      (target : String) (disposition : DecisionStatus) (replacement : Decision) (rationale : String)
      → ContinuityOperation
  open_question : Question → ContinuityOperation
  answer_question : (target : String) → QuestionAnswer → ContinuityOperation
  drop_question : (target : String) → QuestionDrop → ContinuityOperation
  create_work_item : WorkItem → ContinuityOperation
  update_work_item_status :
      (target : String) (new_status : WorkItemStatus) (blocker : Option String) (rationale : String)
      (updated_by : Actor) (updated_at : String)
      → ContinuityOperation

pub data ContinuityEvent : Type 0 where
  decision_recorded : Decision → ContinuityEvent
  decision_superseded :
      (target : String) (disposition : DecisionStatus) (replacement : Decision) (rationale : String)
      (previous_version new_version : ℕ)
      → ContinuityEvent
  question_opened : Question → ContinuityEvent
  question_answered :
      (target : String) → QuestionAnswer → (previous_version new_version : ℕ) → ContinuityEvent
  question_dropped :
      (target : String) → QuestionDrop → (previous_version new_version : ℕ) → ContinuityEvent
  work_item_created : WorkItem → ContinuityEvent
  work_item_status_updated :
      (target : String) (previous_status new_status : WorkItemStatus) (blocker : Option String)
      (rationale : String) (updated_by : Actor) (updated_at : String)
      (previous_version new_version : ℕ)
      → ContinuityEvent

unfoldable pub DecisionStatus-discrete : Discrete DecisionStatus
DecisionStatus-discrete = hlevel

unfoldable pub QuestionStatus-discrete : Discrete QuestionStatus
QuestionStatus-discrete = hlevel

unfoldable pub WorkItemStatus-discrete : Discrete WorkItemStatus
WorkItemStatus-discrete = hlevel String-discrete

unfoldable pub ContinuityEvent-discrete : Discrete ContinuityEvent
ContinuityEvent-discrete = hlevel (ℕ_discrete, String-discrete)
