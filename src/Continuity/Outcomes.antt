-- ===== src/Continuity/Outcomes.antt =====
-- The branches of the reducers of src/shared_mind/continuity.py that succeed.
use shared_mind.Base.{
  ◌+◌, String, ◌≡◌, true, false, Option, none, some, arith, find, insert, update, ok,
}
use shared_mind.Documents.{
  Actor, ContinuityEvent, Decision, Question, WorkItem, WorkItemStatus, DecisionStatus,
  QuestionAnswer, QuestionDrop,
}
use shared_mind.Continuity.Rows.{State, DecisionRow, QuestionRow, WorkItemRow}
use shared_mind.Continuity.Reducers.{
  is_active, is_open, is_todo, is_blocked, is_blocker, is_listed, decision_row, question_row,
  created_row, supersede_row, answer_row, drop_row, work_item_row, reduce_record_decision,
  reduce_supersede_decision, reduce_open_question, reduce_answer_question, reduce_drop_question,
  reduce_create_work_item, reduce_update_work_item_status,
}

module _ (s : State) {s' : State} {e : ContinuityEvent} where
  pub recorded :
      (d : Decision)
      → reduce_record_decision s d ≡ ok (s', e)
      → (s' ≡ record s {
        decision_records = insert d.decision_id (decision_row d) s.decision_records;
      })
        × (is_active d.status ≡ true)
        × (d.version ≡ 1)
        × (d.replaced_by_decision_id ≡ none)
        × (find d.decision_id s.decision_records ≡ none)
  unfolding reduce_record_decision
  recorded d h = ground arith

  pub superseded :
      (t : String) (disposition : DecisionStatus) (d : Decision) (rationale : String)
      → reduce_supersede_decision s t disposition d rationale ≡ ok (s', e)
      → (row : DecisionRow) × (find t s.decision_records ≡ some row)
        × (is_active row.status ≡ true)
        × (is_active disposition ≡ false)
        × (is_active d.status ≡ true)
        × (d.version ≡ 1)
        × (d.replaced_by_decision_id ≡ none)
        × (find d.decision_id s.decision_records ≡ none)
        × (s' ≡ record s {
          decision_records =
              update t
                (supersede_row disposition (row.version + 1) d.decision_id)
                (insert d.decision_id (decision_row d) s.decision_records);
        })
  unfolding reduce_supersede_decision
  superseded t disposition d rationale h = ground arith

  pub question_asked :
      (q : Question)
      → reduce_open_question s q ≡ ok (s', e)
      → (s' ≡ record s { open_questions = insert q.question_id (question_row q) s.open_questions })
        × (is_open q.status ≡ true)
        × (q.version ≡ 1)
        × (q.answer ≡ none)
        × (q.drop ≡ none)
        × (find q.question_id s.open_questions ≡ none)
  unfolding reduce_open_question
  question_asked q h = ground arith

  pub question_answered :
      (t : String) (a : QuestionAnswer)
      → reduce_answer_question s t a ≡ ok (s', e)
      → (row : QuestionRow) × (find t s.open_questions ≡ some row)
        × (is_open row.status ≡ true)
        × (s' ≡ record s {
          open_questions = update t (answer_row (row.version + 1) a) s.open_questions;
        })
  unfolding reduce_answer_question
  question_answered t a h = ground arith

  pub question_dropped :
      (t : String) (d : QuestionDrop)
      → reduce_drop_question s t d ≡ ok (s', e)
      → (row : QuestionRow) × (find t s.open_questions ≡ some row)
        × (is_open row.status ≡ true)
        × (s' ≡ record s {
          open_questions = update t (drop_row (row.version + 1) d) s.open_questions;
        })
  unfolding reduce_drop_question
  question_dropped t d h = ground arith

  pub created :
      (w : WorkItem)
      → reduce_create_work_item s w ≡ ok (s', e)
      → (s' ≡ record s { work_items = insert w.work_item_id (created_row w) s.work_items })
        × (is_todo w.status ≡ true)
        × (w.version ≡ 1)
        × (w.blocker ≡ none)
        × (find w.work_item_id s.work_items ≡ none)
  unfolding reduce_create_work_item
  created w h = ground arith

  pub updated :
      (t : String) (status : WorkItemStatus) (blocker : Option String) (rationale : String)
      (actor : Actor) (at : String)
      → reduce_update_work_item_status s t status blocker rationale actor at ≡ ok (s', e)
      → (row : WorkItemRow) × (find t s.work_items ≡ some row)
        × (is_listed status ≡ true)
        × (is_blocked status ≡ is_blocker blocker)
        × (s' ≡ record s {
          work_items = update t (work_item_row status (row.version + 1) blocker at) s.work_items;
        })
  unfolding reduce_update_work_item_status
  updated t status blocker rationale actor at h = ground arith
