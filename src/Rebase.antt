-- ===== src/Rebase.antt =====
-- src/shared_mind/rebase.py, for a proposal that has passed the contract: what of it is stale, and
-- the values that it would have to name. The texts of the hint that never vary are left out.
pub mod Staleness
pub mod Selection
pub mod Hints
pub mod Replacements
mod Tests
use shared_mind.Base.{
  ℕ, ◌+◌, String, String-discrete, ℕ_discrete, Bool, not, ◌&&◌, Option, none, some, List, [], ◌∷◌,
  ◌++◌, ◌==◌, equal, find, length, if◌then◌else◌,
}
use shared_mind.Documents.{
  ReadRef, collection, aggregate, RecordType, source_revision, claim, conflict, decision_record,
  open_question, work_item, Registry, Proposal, Guard, claim_status_eq, claim_version_eq,
  conflict_status_eq, conflict_member_digest_eq, active_set_digest_eq, source_hash_eq,
  no_active_claim, decision_status_eq, decision_version_eq, question_status_eq, question_version_eq,
  work_item_status_eq, work_item_version_eq, ClaimStatus, ConflictStatus, DecisionStatus,
  QuestionStatus, WorkItemStatus, Operation, resolve_conflict,
}
use shared_mind.Continuity.Errors.{Code}
use shared_mind.Continuity.Errors
use shared_mind.Continuity.Rows.{DecisionRow, QuestionRow, WorkItemRow}
use shared_mind.Kernel.Host.{Host}
use shared_mind.Kernel.State.{
  ClaimRow, ConflictRow, Tables, Database, Receipt, Outcome, transaction_conflict,
}
use shared_mind.Kernel.Validate.{active_set_digest, active_family_members}
use shared_mind.Kernel.Receipts.{head_entry_hash}
use shared_mind.Kernel.Commit.{state_root}

-- A value that a precondition names.
pub data Value : Type 0 where
  number : ℕ → Value
  digest : String → Value
  claim_status : ClaimStatus → Value
  conflict_status : ConflictStatus → Value
  decision_status : DecisionStatus → Value
  question_status : QuestionStatus → Value
  work_item_status : WorkItemStatus → Value

-- The place of a precondition in the proposal, its `path`.
pub data Place : Type 0 where
  read_version read_digest guard_field operation_digest operation_epoch : (index : ℕ) → Place

-- aggregate_type and aggregate_id
pub data Target : Type 0 where
  record_target : RecordType → String → Target
  collection_target : (family_key : String) → Target

-- What `_aggregate_state` reads; only a conflict has a member digest.
pub record AggregateState : Type 0 where
  pub version : Option Value
  pub status : Option Value
  pub member_digest : Option Value

-- What `_active_collection_state` reads.
pub record CollectionState : Type 0 where
  pub digest : String
  pub member_count : ℕ

pub data Observed : Type 0 where
  aggregate_state_of : AggregateState → Observed
  collection_state_of : CollectionState → Observed

pub record Precondition : Type 0 where
  pub path : Place
  pub expected : Value
  pub actual : Option Value
  pub target : Target
  pub actual_state : Observed
  pub reason_code : Code

pub record Hint : Type 0 where
  pub proposal_id : String
  pub receipt_id : ℕ
  pub reason_code : Code
  pub observed_state_root : String
  pub observed_ledger_head : Option String
  pub failed_precondition : Precondition
  pub replacement_preconditions : List (Place × Option Value)

unfoldable pub Value-discrete : Discrete Value
unfolding String-discrete
Value-discrete = hlevel (String-discrete, ℕ_discrete)

unfoldable pub Actual-discrete : Discrete (Option Value)
unfolding Value-discrete
Actual-discrete = hlevel Value-discrete

unfoldable pub Code-discrete : Discrete Code
unfolding String-discrete
Code-discrete = hlevel (String-discrete, ℕ_discrete)

unfoldable pub Target-discrete : Discrete Target
unfolding String-discrete
Target-discrete = hlevel String-discrete

unfoldable pub Place-discrete : Discrete Place
Place-discrete = hlevel ℕ_discrete

-- None if row is None else row[column]
unfoldable pub column : {V : Type 0} → (V → Value) → Option V → Option Value
column f none = none
column f (some row) = some (f row)

-- _VERSION_REASONS
unfoldable pub version_reason : RecordType → Option Code
version_reason source_revision = none
version_reason claim = some Errors.claim_version_mismatch
version_reason conflict = some Errors.conflict_version_mismatch
version_reason decision_record = some Errors.decision_version_mismatch
version_reason open_question = some Errors.question_version_mismatch
version_reason work_item = some Errors.work_item_version_mismatch

unfoldable pub aggregate_state : Tables → RecordType → String → AggregateState
unfolding column
aggregate_state t source_revision id = record {
  version = none;
  status = none;
  member_digest = none;
}
aggregate_state t claim id =
    let row = find id t.claims in
    record {
      version = column (λ (r : ClaimRow). number r.version) row;
      status = column (λ (r : ClaimRow). claim_status r.status) row;
      member_digest = none;
    }
aggregate_state t conflict id =
    let row = find id t.conflicts in
    record {
      version = column (λ (r : ConflictRow). number r.version) row;
      status = column (λ (r : ConflictRow). conflict_status r.status) row;
      member_digest = column (λ (r : ConflictRow). digest r.member_digest) row;
    }
aggregate_state t decision_record id =
    let row = find id t.continuity.decision_records in
    record {
      version = column (λ (r : DecisionRow). number r.version) row;
      status = column (λ (r : DecisionRow). decision_status r.status) row;
      member_digest = none;
    }
aggregate_state t open_question id =
    let row = find id t.continuity.open_questions in
    record {
      version = column (λ (r : QuestionRow). number r.version) row;
      status = column (λ (r : QuestionRow). question_status r.status) row;
      member_digest = none;
    }
aggregate_state t work_item id =
    let row = find id t.continuity.work_items in
    record {
      version = column (λ (r : WorkItemRow). number r.version) row;
      status = column (λ (r : WorkItemRow). work_item_status r.status) row;
      member_digest = none;
    }

unfoldable pub conflict_episode : Tables → String → Option Value
unfolding column
conflict_episode t id = column (λ (r : ConflictRow). number r.episode) (find id t.conflicts)

-- for index, item in enumerate(items): ...
unfoldable pub enumerated : {A B : Type 0} → (ℕ → A → List B) → ℕ → List A → List B
enumerated f index [] = []
enumerated f index (x ∷ xs) = f index x ++ enumerated f (index + 1) xs

-- A precondition on a record, with the field of its state that it names.
abbrev pub on_record :
    Tables
    → RecordType
    → String
    → Place
    → Value
    → (AggregateState → Option Value)
    → Code
    → Precondition
on_record t type id path expected actual reason =
    let state = aggregate_state t type id in
    record {
      path = path;
      expected = expected;
      actual = actual state;
      target = record_target type id;
      actual_state = aggregate_state_of state;
      reason_code = reason;
    }

module _ (h : Host) (reg : Registry) (t : Tables) where
  -- The active members of a family, found and hashed as the kernel does.
  unfoldable pub active_collection_state : String → CollectionState
  active_collection_state family_key = record {
    digest = active_set_digest h reg family_key t;
    member_count = length (active_family_members h reg family_key t);
  }

  -- A precondition on the active members of a family.
  unfoldable pub on_collection : String → Place → String → Precondition
  unfolding active_collection_state
  on_collection family_key path expected =
      let state = active_collection_state family_key in
      record {
        path = path;
        expected = Value.digest expected;
        actual = some (Value.digest state.digest);
        target = collection_target family_key;
        actual_state = collection_state_of state;
        reason_code = Errors.active_set_digest_mismatch;
      }

  unfoldable pub read_precondition : ℕ → ReadRef → List Precondition
  unfolding on_collection version_reason aggregate_state
  read_precondition index (collection family_key expected) =
      on_collection family_key (read_digest index) expected ∷ []
  read_precondition index (aggregate type id version) = elim (version_reason type) [
    | none ↦ []
    | some reason ↦
        on_record t type id (read_version index) (number version) (λ s. s.version) reason ∷ []
  ]

  -- A guard on a record, by _GUARD_TARGETS.
  unfoldable pub guard_precondition : ℕ → Guard → List Precondition
  unfolding on_collection aggregate_state
  guard_precondition index (active_set_digest_eq family_key expected) =
      on_collection family_key (guard_field index) expected ∷ []
  guard_precondition index (claim_status_eq id status) =
      on_record t claim id (guard_field index) (claim_status status) (λ s. s.status)
        Errors.claim_status_mismatch
      ∷ []
  guard_precondition index (claim_version_eq id version) =
      on_record t claim id (guard_field index) (number version) (λ s. s.version)
        Errors.claim_version_mismatch
      ∷ []
  guard_precondition index (conflict_status_eq id status) =
      on_record t conflict id (guard_field index) (conflict_status status) (λ s. s.status)
        Errors.conflict_status_mismatch
      ∷ []
  guard_precondition index (conflict_member_digest_eq id expected) =
      on_record t conflict id (guard_field index) (digest expected) (λ s. s.member_digest)
        Errors.conflict_member_digest_mismatch
      ∷ []
  guard_precondition index (decision_status_eq id status) =
      on_record t decision_record id (guard_field index) (decision_status status) (λ s. s.status)
        Errors.decision_status_mismatch
      ∷ []
  guard_precondition index (decision_version_eq id version) =
      on_record t decision_record id (guard_field index) (number version) (λ s. s.version)
        Errors.decision_version_mismatch
      ∷ []
  guard_precondition index (question_status_eq id status) =
      on_record t open_question id (guard_field index) (question_status status) (λ s. s.status)
        Errors.question_status_mismatch
      ∷ []
  guard_precondition index (question_version_eq id version) =
      on_record t open_question id (guard_field index) (number version) (λ s. s.version)
        Errors.question_version_mismatch
      ∷ []
  guard_precondition index (work_item_status_eq id status) =
      on_record t work_item id (guard_field index) (work_item_status status) (λ s. s.status)
        Errors.work_item_status_mismatch
      ∷ []
  guard_precondition index (work_item_version_eq id version) =
      on_record t work_item id (guard_field index) (number version) (λ s. s.version)
        Errors.work_item_version_mismatch
      ∷ []
  guard_precondition index _ = []

  unfoldable pub operation_precondition : ℕ → Operation → List Precondition
  unfolding aggregate_state conflict_episode
  operation_precondition index (resolve_conflict id expected resolution) =
      let by_digest =
        on_record t conflict id (operation_digest index) (digest expected) (λ s. s.member_digest)
          Errors.conflict_member_digest_mismatch in
      by_digest
      ∷ record by_digest {
        path = operation_epoch index;
        expected = number resolution.resolution_epoch;
        actual = conflict_episode t id;
        reason_code = Errors.conflict_resolution_epoch_mismatch;
      }
      ∷ []
  operation_precondition index _ = []

  unfoldable pub proposal_preconditions : Proposal → List Precondition
  unfolding enumerated read_precondition guard_precondition operation_precondition
  proposal_preconditions p =
      enumerated read_precondition 0 p.reads
      ++ enumerated guard_precondition 0 p.guards
      ++ enumerated operation_precondition 0 p.operations

-- item.expected != item.actual
unfoldable pub is_stale : Precondition → Bool
unfolding Actual-discrete
is_stale item = not (equal Actual-discrete (some item.expected) item.actual)

-- next(...): the first stale precondition with the reason of the receipt
unfoldable pub first_failed : Code → List Precondition → Option Precondition
unfolding is_stale Code-discrete
first_failed code [] = none
first_failed code (item ∷ items) =
    let rest = first_failed code items in
    if equal Code-discrete item.reason_code code && is_stale item then some item else rest

unfoldable pub has_place : Place → List Place → Bool
unfolding Place-discrete
has_place path [] = Bool.false
has_place path (p ∷ seen) =
    let rest = has_place path seen in if equal Place-discrete p path then Bool.true else rest

-- The current values of the preconditions on one record or collection, with the paths that were seen.
unfoldable pub replacements : Target → List Place → List Precondition → List (Place × Option Value)
unfolding Target-discrete has_place
replacements target seen [] = []
replacements target seen (item ∷ items) =
    let taken = replacements target (item.path ∷ seen) items in
    let rest = replacements target seen items in
    if equal Target-discrete item.target target && not (has_place item.path seen)
    then (item.path, item.actual) ∷ taken
    else rest

module _ (h : Host) (reg : Registry) where
  unfoldable pub hint_of : Database → Proposal → Receipt → Code → Precondition → Hint
  unfolding replacements proposal_preconditions
  hint_of db p receipt code failed = record {
    proposal_id = p.proposal_id;
    receipt_id = receipt.document.receipt_id;
    reason_code = code;
    observed_state_root = state_root h db.tables;
    observed_ledger_head = head_entry_hash db.ledger;
    failed_precondition = failed;
    replacement_preconditions =
        replacements failed.target [] (proposal_preconditions h reg db.tables p);
  }

  unfoldable pub hint_for : Database → Proposal → Receipt → Code → Option Precondition → Option Hint
  unfolding hint_of
  hint_for db p receipt code none = none
  hint_for db p receipt code (some failed) = some (hint_of db p receipt code failed)

  unfoldable pub hint_by_reason : Database → Proposal → Receipt → List Code → Option Hint
  unfolding hint_for first_failed proposal_preconditions
  hint_by_reason db p receipt [] = none
  hint_by_reason db p receipt (code ∷ _) =
      hint_for db p receipt code (first_failed code (proposal_preconditions h reg db.tables p))

  unfoldable pub build_rebase_hint : Database → Proposal → Receipt → Option Hint
  unfolding hint_by_reason
  build_rebase_hint db p receipt = elim receipt.outcome [
    | transaction_conflict ↦ hint_by_reason db p receipt receipt.reason_codes
    | _ ↦ none
  ]
