-- ===== src/Continuity/Replay.antt =====
-- The replay of continuity events, `apply_event` of src/shared_mind/continuity.py, beside the
-- operations that append them.
use shared_mind.Base.{◌≡◌, List, ◌∷◌, [], ◌++◌, arith, ok, >>=-eq-ok, equal_self}
use shared_mind.Documents.{
  ContinuityOperation, ContinuityEvent, ContinuityEvent-discrete, record_decision,
}
use shared_mind.Continuity.Rows.{State}
use shared_mind.Continuity.Reducers.{
  reduce, apply_operation, operation_of, apply_event, reduce_record_decision,
  reduce_supersede_decision, reduce_open_question, reduce_answer_question, reduce_drop_question,
  reduce_create_work_item, reduce_update_work_item_status,
}

-- The event of a successful operation names the operation back.
operation_of-reduce :
    (s : State) (op : ContinuityOperation) {s' : State} {e : ContinuityEvent}
    → reduce s op ≡ ok (s', e)
    → operation_of e ≡ op
unfolding reduce operation_of reduce_record_decision reduce_supersede_decision reduce_open_question
    reduce_answer_question reduce_drop_question reduce_create_work_item
    reduce_update_work_item_status
operation_of-reduce s (record_decision d) h = ground arith
operation_of-reduce s _ h = ground arith

-- Replaying the event that an operation appended gives the state that the operation left.
pub apply_event-reduce :
    (s : State) (op : ContinuityOperation) {s' : State} {e : ContinuityEvent}
    → reduce s op ≡ ok (s', e)
    → apply_event s e ≡ ok s'
unfolding apply_event
apply_event-reduce s op {s'} {e} h =
    rw (operation_of-reduce s op h, h) (rw (equal_self ContinuityEvent-discrete e))

-- A successful operation appends one event, and replaying that event on the state before the
-- operation gives the state after it.
pub replay-apply_operation :
    (s : State) (op : ContinuityOperation) (events : List ContinuityEvent) {s' : State}
    {events' : List ContinuityEvent}
    → apply_operation s op events ≡ ok (s', events')
    → (e : ContinuityEvent) × (events' ≡ events ++ e ∷ []) × (apply_event s e ≡ ok s')
unfolding apply_operation
replay-apply_operation s op events h =
    let r = >>=-eq-ok (reduce s op) (λ (t, e). ok (t, events ++ e ∷ [])) h in
    (r.0.1, ground (arith, r.2), cc (apply_event-reduce s op r.1, r.2))
