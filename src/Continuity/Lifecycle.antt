-- ===== src/Continuity/Lifecycle.antt =====
-- The lifecycles of decisions, questions and work items under the operations of
-- src/shared_mind/continuity.py.
use shared_mind.Base.{
  ◌+◌, String, ◌≡◌, refl, ◌⊎◌, inl, inr, true, false, some, List, [], ◌∷◌, ◌++◌, arith, find,
  find-insert_old, update_step, ok, >>=-eq-ok, insert,
}
use shared_mind.Documents.{
  ContinuityOperation, ContinuityEvent, record_decision, supersede_decision, open_question,
  answer_question, drop_question, create_work_item, update_work_item_status,
}
use shared_mind.Continuity.Rows.{State, DecisionRow, QuestionRow, WorkItemRow}
use shared_mind.Continuity.Outcomes.{
  recorded, superseded, question_asked, question_answered, question_dropped, created, updated,
}
use shared_mind.Continuity.Reducers.{
  reduce, apply_operation, is_active, is_open, decision_row, question_row, created_row,
  supersede_row, answer_row, drop_row, work_item_row,
}

-- A row is as it was, or it was active and has been closed with the next version.
abbrev pub DecisionAdvance : DecisionRow → DecisionRow → Type 0
DecisionAdvance row row' =
    (row' ≡ row)
    ⊎ ((is_active row.status ≡ true)
        × (is_active row'.status ≡ false)
        × (row'.version ≡ row.version + 1))

abbrev pub QuestionAdvance : QuestionRow → QuestionRow → Type 0
QuestionAdvance row row' =
    (row' ≡ row)
    ⊎ ((is_open row.status ≡ true)
        × (is_open row'.status ≡ false)
        × (row'.version ≡ row.version + 1))

abbrev pub WorkItemAdvance : WorkItemRow → WorkItemRow → Type 0
WorkItemAdvance row row' = (row' ≡ row) ⊎ (row'.version ≡ row.version + 1)

module _ (s : State) {s' : State} {e : ContinuityEvent} (k : String) where
  decision_step :
      (op : ContinuityOperation) (row : DecisionRow)
      → reduce s op ≡ ok (s', e)
      → find k s.decision_records ≡ some row
      → (row' : DecisionRow) × (find k s'.decision_records ≡ some row') × DecisionAdvance row row'
  unfolding reduce
  decision_step (record_decision d) row h p =
      let o = recorded s d h in
      rw o.0
        (row, find-insert_old d.decision_id k (decision_row d) s.decision_records o.4 p, inl refl)
  decision_step (supersede_decision t disposition d rationale) row h p =
      let o = superseded s t disposition d rationale h in
      rw o.8 (
        update_step DecisionAdvance t k (supersede_row disposition (o.0.version + 1) d.decision_id)
          (insert d.decision_id (decision_row d) s.decision_records) row
          (find-insert_old d.decision_id k (decision_row d) s.decision_records o.7 p) (inl refl)
          (λ same. inr (ground (arith, o, same, p))))
  decision_step (open_question q) row h p = (row, ground (arith, question_asked s q h, p), inl refl)
  decision_step (answer_question t a) row h p =
      (row, ground (arith, question_answered s t a h, p), inl refl)
  decision_step (drop_question t d) row h p =
      (row, ground (arith, question_dropped s t d h, p), inl refl)
  decision_step (create_work_item w) row h p = (row, ground (arith, created s w h, p), inl refl)
  decision_step (update_work_item_status t status blocker rationale actor at) row h p =
      (row, ground (arith, updated s t status blocker rationale actor at h, p), inl refl)

  question_step :
      (op : ContinuityOperation) (row : QuestionRow)
      → reduce s op ≡ ok (s', e)
      → find k s.open_questions ≡ some row
      → (row' : QuestionRow) × (find k s'.open_questions ≡ some row') × QuestionAdvance row row'
  unfolding reduce is_open
  question_step (record_decision d) row h p = (row, ground (arith, recorded s d h, p), inl refl)
  question_step (supersede_decision t disposition d rationale) row h p =
      (row, ground (arith, superseded s t disposition d rationale h, p), inl refl)
  question_step (open_question q) row h p =
      let o = question_asked s q h in
      rw o.0
        (row, find-insert_old q.question_id k (question_row q) s.open_questions o.5 p, inl refl)
  question_step (answer_question t a) row h p =
      let o = question_answered s t a h in
      rw o.3 (
        update_step QuestionAdvance t k (answer_row (o.0.version + 1) a) s.open_questions row p
          (inl refl) (λ same. inr (ground (arith, o, same, p))))
  question_step (drop_question t d) row h p =
      let o = question_dropped s t d h in
      rw o.3 (
        update_step QuestionAdvance t k (drop_row (o.0.version + 1) d) s.open_questions row p
          (inl refl) (λ same. inr (ground (arith, o, same, p))))
  question_step (create_work_item w) row h p = (row, ground (arith, created s w h, p), inl refl)
  question_step (update_work_item_status t status blocker rationale actor at) row h p =
      (row, ground (arith, updated s t status blocker rationale actor at h, p), inl refl)

  work_item_step :
      (op : ContinuityOperation) (row : WorkItemRow)
      → reduce s op ≡ ok (s', e)
      → find k s.work_items ≡ some row
      → (row' : WorkItemRow) × (find k s'.work_items ≡ some row') × WorkItemAdvance row row'
  unfolding reduce
  work_item_step (record_decision d) row h p = (row, ground (arith, recorded s d h, p), inl refl)
  work_item_step (supersede_decision t disposition d rationale) row h p =
      (row, ground (arith, superseded s t disposition d rationale h, p), inl refl)
  work_item_step (open_question q) row h p =
      (row, ground (arith, question_asked s q h, p), inl refl)
  work_item_step (answer_question t a) row h p =
      (row, ground (arith, question_answered s t a h, p), inl refl)
  work_item_step (drop_question t d) row h p =
      (row, ground (arith, question_dropped s t d h, p), inl refl)
  work_item_step (create_work_item w) row h p =
      let o = created s w h in
      rw o.0 (row, find-insert_old w.work_item_id k (created_row w) s.work_items o.4 p, inl refl)
  work_item_step (update_work_item_status t status blocker rationale actor at) row h p =
      let o = updated s t status blocker rationale actor at h in
      rw o.4 (
        update_step WorkItemAdvance t k (work_item_row status (o.0.version + 1) blocker at)
          s.work_items row p (inl refl) (λ same. inr (ground (arith, o, same, p))))

module _ (s : State) (op : ContinuityOperation) (events : List ContinuityEvent) {s' : State}
    {events' : List ContinuityEvent} (done : apply_operation s op events ≡ ok (s', events')) where
  reduced : (e : ContinuityEvent) × (reduce s op ≡ ok (s', e))
  unfolding apply_operation
  reduced =
      let r = >>=-eq-ok (reduce s op) (λ (t, e). ok (t, events ++ e ∷ [])) done in
      (r.0.1, ground (arith, r.1, r.2))

  -- A successful operation deletes no decision. A decision stays as it is, or it was active and is
  -- closed with the next version.
  pub decision_advance :
      (k : String) (row : DecisionRow)
      → find k s.decision_records ≡ some row
      → (row' : DecisionRow) × (find k s'.decision_records ≡ some row') × DecisionAdvance row row'
  decision_advance k row p = decision_step s k op row reduced.1 p

  -- A successful operation deletes no question. A question stays as it is, or it was open and is
  -- closed with the next version.
  pub question_advance :
      (k : String) (row : QuestionRow)
      → find k s.open_questions ≡ some row
      → (row' : QuestionRow) × (find k s'.open_questions ≡ some row') × QuestionAdvance row row'
  question_advance k row p = question_step s k op row reduced.1 p

  -- A successful operation deletes no work item, and a work item that it changes has the next version.
  pub work_item_advance :
      (k : String) (row : WorkItemRow)
      → find k s.work_items ≡ some row
      → (row' : WorkItemRow) × (find k s'.work_items ≡ some row') × WorkItemAdvance row row'
  work_item_advance k row p = work_item_step s k op row reduced.1 p
