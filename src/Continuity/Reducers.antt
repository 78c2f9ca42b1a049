-- ===== src/Continuity/Reducers.antt =====
-- The operations on continuity state, and the replay of their events.
use shared_mind.Base.{
  ℕ, ◌+◌, String, Bool, true, false, not, ◌||◌, Option, none, some, List, [], ◌∷◌, ◌++◌, ◌==◌,
  if◌then◌else◌, nat_eq, equal, is_some, Table, find, insert, update, Result, ok, err, ◌>>=◌, ◌>>◌,
  raise_if, or_raise,
}
use shared_mind.Documents.{
  Actor, DecisionStatus, active, QuestionStatus, opened, answered, dropped, WorkItemStatus, todo,
  blocked, unlisted, Decision, Question, WorkItem, QuestionAnswer, QuestionDrop,
  ContinuityOperation, record_decision, supersede_decision, open_question, answer_question,
  drop_question, create_work_item, update_work_item_status, ContinuityEvent, decision_recorded,
  decision_superseded, question_opened, question_answered, question_dropped, work_item_created,
  work_item_status_updated, ContinuityEvent-discrete,
}
use shared_mind.Continuity.Errors.{Failure, Checked, continuity_conflict, continuity_validation}
use shared_mind.Continuity.Errors
use shared_mind.Continuity.Rows.{State, DecisionRow, QuestionRow, WorkItemRow}

-- A reducer returns the new state and the one event that it appends.
abbrev pub Reduced : Type 0
Reduced = Result Failure (State × ContinuityEvent)

unfoldable pub is_active : DecisionStatus → Bool
is_active active = true
is_active _ = false

unfoldable pub is_open : QuestionStatus → Bool
is_open opened = true
is_open _ = false

unfoldable pub is_answered : QuestionStatus → Bool
is_answered answered = true
is_answered _ = false

unfoldable pub is_dropped : QuestionStatus → Bool
is_dropped dropped = true
is_dropped _ = false

unfoldable pub is_todo : WorkItemStatus → Bool
is_todo todo = true
is_todo _ = false

unfoldable pub is_blocked : WorkItemStatus → Bool
is_blocked blocked = true
is_blocked _ = false

unfoldable pub is_listed : WorkItemStatus → Bool
is_listed (unlisted _) = false
is_listed _ = true

-- isinstance(blocker, str) and bool(blocker)
unfoldable pub is_blocker : Option String → Bool
is_blocker none = false
is_blocker (some text) = not (text == "")

validate_new_decision : Decision → Checked
unfolding is_active
validate_new_decision d =
    raise_if
      (not (is_active d.status) || not (nat_eq d.version 1) || is_some d.replaced_by_decision_id)
      (continuity_validation Errors.invalid_new_decision_state)

validate_new_question : Question → Checked
unfolding is_open
validate_new_question q =
    raise_if
      (not (is_open q.status) || not (nat_eq q.version 1) || is_some q.answer || is_some q.drop)
      (continuity_validation Errors.invalid_new_question_state)

validate_new_work_item : WorkItem → Checked
unfolding is_todo
validate_new_work_item w =
    raise_if (not (is_todo w.status) || not (nat_eq w.version 1) || is_some w.blocker)
      (continuity_validation Errors.invalid_new_work_item_state)

ensure_available {ℓ} : {V : Type ℓ} → Table V → String → Checked
ensure_available t k =
    raise_if (is_some (find k t)) (continuity_validation Errors.duplicate_object_id)

-- the row that an INSERT of a new decision stores
abbrev pub decision_row : Decision → DecisionRow
decision_row d = record {
  status = d.status;
  version = d.version;
  replaced_by_decision_id = d.replaced_by_decision_id;
  document = d;
}

unfoldable pub reduce_record_decision : State → Decision → Reduced
unfolding validate_new_decision ensure_available
reduce_record_decision s d = do
  validate_new_decision d
  ensure_available s.decision_records d.decision_id
  ok (
    record s { decision_records = insert d.decision_id (decision_row d) s.decision_records },
    decision_recorded d,
  )

-- `target["status"] != "ACTIVE"`, or no row
active_decision : Option DecisionRow → Result Failure DecisionRow
unfolding is_active
active_decision none = err (continuity_conflict Errors.decision_status_mismatch)
active_decision (some row) =
    if is_active row.status
    then ok row
    else err (continuity_conflict Errors.decision_status_mismatch)

-- the UPDATE of the target: its columns, and the document with the same three fields
abbrev pub supersede_row : DecisionStatus → ℕ → String → DecisionRow → DecisionRow
supersede_row disposition version replacement row = record {
  status = disposition;
  version = version;
  replaced_by_decision_id = some replacement;
  document = record (row.document) {
    status = disposition;
    version = version;
    replaced_by_decision_id = some replacement;
  };
}

unfoldable pub reduce_supersede_decision :
    State → String → DecisionStatus → Decision → String → Reduced
unfolding validate_new_decision ensure_available active_decision
reduce_supersede_decision s target disposition replacement rationale = do
  raise_if (is_active disposition) (continuity_validation Errors.invalid_decision_disposition)
  row ← active_decision (find target s.decision_records)
  validate_new_decision replacement
  ensure_available s.decision_records replacement.decision_id
  let new_version = row.version + 1
  ok (
    record s {
      decision_records =
          update target (supersede_row disposition new_version replacement.decision_id)
            (insert replacement.decision_id (decision_row replacement) s.decision_records);
    },
    decision_superseded target disposition replacement rationale row.version new_version,
  )

abbrev pub question_row : Question → QuestionRow
question_row q = record {
  status = q.status;
  version = q.version;
  answer = none;
  drop_record = none;
  document = q;
}

unfoldable pub reduce_open_question : State → Question → Reduced
unfolding validate_new_question ensure_available
reduce_open_question s q = do
  validate_new_question q
  ensure_available s.open_questions q.question_id
  ok (
    record s { open_questions = insert q.question_id (question_row q) s.open_questions },
    question_opened q,
  )

open_row : Option QuestionRow → Result Failure QuestionRow
unfolding is_open
open_row none = err (continuity_conflict Errors.question_status_mismatch)
open_row (some row) =
    if is_open row.status then ok row else err (continuity_conflict Errors.question_status_mismatch)

open_question_target : State → String → Result Failure QuestionRow
unfolding open_row
open_question_target s target = open_row (find target s.open_questions)

abbrev pub answer_row : ℕ → QuestionAnswer → QuestionRow → QuestionRow
answer_row version answer row = record {
  status = answered;
  version = version;
  answer = some answer;
  drop_record = none;
  document = record (row.document) {
    status = answered;
    version = version;
    answer = some answer;
    drop = none;
  };
}

unfoldable pub reduce_answer_question : State → String → QuestionAnswer → Reduced
unfolding open_question_target
reduce_answer_question s target answer = do
  row ← open_question_target s target
  let new_version = row.version + 1
  ok (
    record s { open_questions = update target (answer_row new_version answer) s.open_questions },
    question_answered target answer row.version new_version,
  )

abbrev pub drop_row : ℕ → QuestionDrop → QuestionRow → QuestionRow
drop_row version drop row = record {
  status = dropped;
  version = version;
  answer = none;
  drop_record = some drop;
  document = record (row.document) {
    status = dropped;
    version = version;
    answer = none;
    drop = some drop;
  };
}

unfoldable pub reduce_drop_question : State → String → QuestionDrop → Reduced
unfolding open_question_target
reduce_drop_question s target drop = do
  row ← open_question_target s target
  let new_version = row.version + 1
  ok (
    record s { open_questions = update target (drop_row new_version drop) s.open_questions },
    question_dropped target drop row.version new_version,
  )

abbrev pub created_row : WorkItem → WorkItemRow
created_row w = record {
  status = w.status;
  version = w.version;
  blocker = w.blocker;
  updated_at = w.updated_at;
  document = w;
}

unfoldable pub reduce_create_work_item : State → WorkItem → Reduced
unfolding validate_new_work_item ensure_available
reduce_create_work_item s w = do
  validate_new_work_item w
  ensure_available s.work_items w.work_item_id
  ok (
    record s { work_items = insert w.work_item_id (created_row w) s.work_items },
    work_item_created w,
  )

abbrev pub work_item_row : WorkItemStatus → ℕ → Option String → String → WorkItemRow → WorkItemRow
work_item_row status version blocker updated_at row = record {
  status = status;
  version = version;
  blocker = blocker;
  updated_at = updated_at;
  document = record (row.document) {
    status = status;
    version = version;
    blocker = blocker;
    updated_at = updated_at;
  };
}

unfoldable pub reduce_update_work_item_status :
    State → String → WorkItemStatus → Option String → String → Actor → String → Reduced
unfolding is_listed is_blocked is_blocker
reduce_update_work_item_status s target status blocker rationale actor at = do
  raise_if (not (is_listed status)) (continuity_validation Errors.invalid_work_item_status)
  raise_if (if is_blocked status then not (is_blocker blocker) else is_blocker blocker)
      (continuity_validation Errors.invalid_work_item_blocker)
  row ← or_raise (find target s.work_items) (continuity_conflict Errors.work_item_status_mismatch)
  let new_version = row.version + 1
  ok (
    record s {
      work_items = update target (work_item_row status new_version blocker at) s.work_items;
    },
    work_item_status_updated target row.status status blocker rationale actor at row.version
        new_version,
  )

-- The branches of `apply_operation`.
unfoldable pub reduce : State → ContinuityOperation → Reduced
reduce s (record_decision d) = reduce_record_decision s d
reduce s (supersede_decision t disposition d rationale) =
    reduce_supersede_decision s t disposition d rationale
reduce s (open_question q) = reduce_open_question s q
reduce s (answer_question t a) = reduce_answer_question s t a
reduce s (drop_question t d) = reduce_drop_question s t d
reduce s (create_work_item w) = reduce_create_work_item s w
reduce s (update_work_item_status t status blocker rationale actor at) =
    reduce_update_work_item_status s t status blocker rationale actor at

-- `events.append(...)`
unfoldable pub apply_operation :
    State
    → ContinuityOperation
    → List ContinuityEvent
    → Result Failure (State × List ContinuityEvent)
unfolding reduce
apply_operation s op events = reduce s op >>= λ (s', event). ok (s', events ++ event ∷ [])

-- The operation that `apply_event` rebuilds from the fields of an event.
unfoldable pub operation_of : ContinuityEvent → ContinuityOperation
operation_of (decision_recorded d) = record_decision d
operation_of (decision_superseded t disposition d rationale _ _) =
    supersede_decision t disposition d rationale
operation_of (question_opened q) = open_question q
operation_of (question_answered t a _ _) = answer_question t a
operation_of (question_dropped t d _ _) = drop_question t d
operation_of (work_item_created w) = create_work_item w
operation_of (work_item_status_updated t _ status blocker rationale actor at _ _) =
    update_work_item_status t status blocker rationale actor at

-- The reducer runs again, and the event that it generates must be the one that is replayed.
unfoldable pub apply_event : State → ContinuityEvent → Result Failure State
unfolding reduce operation_of
apply_event s event = do
  (s', generated) ← reduce s (operation_of event)
  if equal ContinuityEvent-discrete generated event
      then ok s'
      else err (continuity_validation Errors.replay_event_transition_mismatch)
