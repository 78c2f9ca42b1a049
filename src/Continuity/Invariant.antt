-- ===== src/Continuity/Invariant.antt =====
-- The well-formedness of the continuity tables of src/shared_mind/continuity.py.
use shared_mind.Base.{
  ◌+◌, ◌≤◌, String, ◌≡◌, subst, not, true, Option, List, [], ◌∷◌, ◌++◌, arith, find-insert, insert,
  All, All-insert, All-update, ok, is_some, eq_iff, >>=-eq-ok,
}
use shared_mind.Documents.{
  ContinuityOperation, ContinuityEvent, record_decision, supersede_decision, open_question,
  answer_question, drop_question, create_work_item, update_work_item_status, Actor, Decision,
  Question, WorkItem, WorkItemStatus, DecisionStatus, QuestionAnswer, QuestionDrop,
}
use shared_mind.Continuity.Rows.{State, DecisionRow, QuestionRow, WorkItemRow}
use shared_mind.Continuity.Outcomes.{
  recorded, superseded, question_asked, question_answered, question_dropped, created, updated,
}
use shared_mind.Continuity.Reducers.{
  reduce, apply_operation, question_row, created_row, is_todo, is_active, is_open, is_blocked,
  is_blocker, is_listed, is_answered, is_dropped, reduce_record_decision, decision_row,
  supersede_row, answer_row, drop_row, work_item_row, reduce_supersede_decision,
  reduce_open_question, reduce_answer_question, reduce_drop_question, reduce_create_work_item,
  reduce_update_work_item_status,
}

-- A decision row: exactly a decision that is no longer active names its replacement.
pub record IsDecisionRow (k : String) (row : DecisionRow) : Type 0 where
  pub key : row.document.decision_id ≡ k
  pub status_column : row.status ≡ row.document.status
  pub version_column : row.version ≡ row.document.version
  pub replaced_column : row.replaced_by_decision_id ≡ row.document.replaced_by_decision_id
  pub versioned : 1 ≤ row.version
  pub replaced : is_some row.replaced_by_decision_id ≡ not (is_active row.status)

-- A question row: an answer stands exactly in an answered question, a drop in a dropped one.
pub record IsQuestionRow (k : String) (row : QuestionRow) : Type 0 where
  pub key : row.document.question_id ≡ k
  pub status_column : row.status ≡ row.document.status
  pub version_column : row.version ≡ row.document.version
  pub answer_column : row.answer ≡ row.document.answer
  pub drop_column : row.drop_record ≡ row.document.drop
  pub versioned : 1 ≤ row.version
  pub answered : is_some row.answer ≡ is_answered row.status
  pub dropped : is_some row.drop_record ≡ is_dropped row.status

-- A work item row: it has a blocker exactly while it is blocked.
pub record IsWorkItemRow (k : String) (row : WorkItemRow) : Type 0 where
  pub key : row.document.work_item_id ≡ k
  pub status_column : row.status ≡ row.document.status
  pub version_column : row.version ≡ row.document.version
  pub blocker_column : row.blocker ≡ row.document.blocker
  pub updated_column : row.updated_at ≡ row.document.updated_at
  pub versioned : 1 ≤ row.version
  pub blocked : is_blocker row.blocker ≡ is_blocked row.status
  pub listed : is_listed row.status ≡ true

pub record IsValid (s : State) : Type 0 where
  pub decisions : All IsDecisionRow s.decision_records
  pub questions : All IsQuestionRow s.open_questions
  pub items : All IsWorkItemRow s.work_items

module _ (s : State) (v : IsValid s) {s' : State} {e : ContinuityEvent} where
  record_decision-IsValid : (d : Decision) → reduce_record_decision s d ≡ ok (s', e) → IsValid s'
  unfolding is_active
  record_decision-IsValid d h =
      let o = recorded s d h in
      rw o.0 (record {
        decisions =
            All-insert IsDecisionRow d.decision_id (decision_row d) s.decision_records v.decisions
              (ground (arith, o.1, o.2, o.3));
        questions = v.questions;
        items = v.items;
      })

  supersede_decision-IsValid :
      (t : String) (disposition : DecisionStatus) (d : Decision) (rationale : String)
      → reduce_supersede_decision s t disposition d rationale ≡ ok (s', e)
      → IsValid s'
  unfolding is_active
  supersede_decision-IsValid t disposition d rationale h =
      let o = superseded s t disposition d rationale h in
      rw o.8 (record {
        decisions =
            All-update IsDecisionRow t (supersede_row disposition (o.0.version + 1) d.decision_id)
              (insert d.decision_id (decision_row d) s.decision_records)
              (All-insert IsDecisionRow d.decision_id (decision_row d) s.decision_records
                v.decisions (ground (arith, o.4, o.5, o.6)))
              (λ row found. ground (
                arith,
                v.decisions t row (
                    ground (
                      arith,
                      o.1,
                      o.7,
                      find-insert t d.decision_id (decision_row d) s.decision_records,
                      eq_iff d.decision_id t,
                      found,
                    )),
                o.3,
              ));
        questions = v.questions;
        items = v.items;
      })

  open_question-IsValid : (q : Question) → reduce_open_question s q ≡ ok (s', e) → IsValid s'
  unfolding is_open is_answered is_dropped
  open_question-IsValid q h =
      let o = question_asked s q h in
      rw o.0 (record {
        decisions = v.decisions;
        questions =
            All-insert IsQuestionRow q.question_id (question_row q) s.open_questions v.questions
              (ground (arith, o.1, o.2, o.3, o.4));
        items = v.items;
      })

  answer_question-IsValid :
      (t : String) (a : QuestionAnswer) → reduce_answer_question s t a ≡ ok (s', e) → IsValid s'
  unfolding is_open is_answered is_dropped
  answer_question-IsValid t a h =
      let o = question_answered s t a h in
      rw o.3 (record {
        decisions = v.decisions;
        questions =
            All-update IsQuestionRow t (answer_row (o.0.version + 1) a) s.open_questions v.questions
              (λ row found. ground (arith, v.questions t row found));
        items = v.items;
      })

  drop_question-IsValid :
      (t : String) (d : QuestionDrop) → reduce_drop_question s t d ≡ ok (s', e) → IsValid s'
  unfolding is_open is_answered is_dropped
  drop_question-IsValid t d h =
      let o = question_dropped s t d h in
      rw o.3 (record {
        decisions = v.decisions;
        questions =
            All-update IsQuestionRow t (drop_row (o.0.version + 1) d) s.open_questions v.questions
              (λ row found. ground (arith, v.questions t row found));
        items = v.items;
      })

  create_work_item-IsValid : (w : WorkItem) → reduce_create_work_item s w ≡ ok (s', e) → IsValid s'
  unfolding is_todo is_blocked is_blocker is_listed
  create_work_item-IsValid w h =
      let o = created s w h in
      rw o.0 (record {
        decisions = v.decisions;
        questions = v.questions;
        items =
            All-insert IsWorkItemRow w.work_item_id (created_row w) s.work_items v.items
              (ground (arith, o.1, o.2, o.3));
      })

  update_work_item_status-IsValid :
      (t : String) (status : WorkItemStatus) (blocker : Option String) (rationale : String)
      (actor : Actor) (at : String)
      → reduce_update_work_item_status s t status blocker rationale actor at ≡ ok (s', e)
      → IsValid s'
  update_work_item_status-IsValid t status blocker rationale actor at h =
      let o = updated s t status blocker rationale actor at h in
      rw o.4 (record {
        decisions = v.decisions;
        questions = v.questions;
        items =
            All-update IsWorkItemRow t (work_item_row status (o.0.version + 1) blocker at)
              s.work_items v.items (λ row found. ground (arith, v.items t row found, o.2, o.3));
      })

  reduce-IsValid : (op : ContinuityOperation) → reduce s op ≡ ok (s', e) → IsValid s'
  unfolding reduce
  reduce-IsValid (record_decision d) h = record_decision-IsValid d h
  reduce-IsValid (supersede_decision t disposition d rationale) h =
      supersede_decision-IsValid t disposition d rationale h
  reduce-IsValid (open_question q) h = open_question-IsValid q h
  reduce-IsValid (answer_question t a) h = answer_question-IsValid t a h
  reduce-IsValid (drop_question t d) h = drop_question-IsValid t d h
  reduce-IsValid (create_work_item w) h = create_work_item-IsValid w h
  reduce-IsValid (update_work_item_status t status blocker rationale actor at) h =
      update_work_item_status-IsValid t status blocker rationale actor at h

-- Every operation that succeeds on a valid state leaves a valid one: the columns of each row agree
-- with its document and each version is at least 1; exactly the decisions that are not active name a
-- replacement; a question has an answer exactly when its status is answered and a drop exactly when it
-- is dropped; and a work item has a listed status, and a blocker exactly when it is blocked.
pub apply_operation-IsValid :
    (s : State) (op : ContinuityOperation) (events : List ContinuityEvent) {s' : State}
    {events' : List ContinuityEvent}
    → IsValid s
    → apply_operation s op events ≡ ok (s', events')
    → IsValid s'
unfolding apply_operation
apply_operation-IsValid s op events v h =
    let r = >>=-eq-ok (reduce s op) (λ (t, e). ok (t, events ++ e ∷ [])) h in
    subst IsValid (ground (arith, r.2)) (reduce-IsValid s v op r.1)
