-- ===== src/Documents/Proposals.antt =====
-- Proposals: the versions they pin, what they have read, their guards and their operations.
use shared_mind.Base.{ℕ, String, List}
use shared_mind.Documents.Epistemic.{
  Actor, RecordType, SourceRevision, Claim, EvidenceLink, Resolution, ConflictStatus, Conflict,
}
use shared_mind.Documents.Continuity.{
  DecisionStatus, QuestionStatus, WorkItemStatus, ContinuityOperation, ContinuityEvent,
}

pub record VersionBundle : Type 0 where
  pub schema : String
  pub predicate_registry : String
  pub predicate_registry_hash : String
  pub conflict_rules : String
  pub guard_dsl : String
  pub projection : String

pub data ReadRef : Type 0 where
  collection : (family_key expected_digest : String) → ReadRef
  aggregate : RecordType → (aggregate_id : String) (expected_version : ℕ) → ReadRef

pub data ClaimStatus : Type 0 where
  active superseded retracted : ClaimStatus

pub data Guard : Type 0 where
  claim_status_eq : (claim_id : String) → ClaimStatus → Guard
  claim_version_eq : (claim_id : String) → ℕ → Guard
  conflict_status_eq : (conflict_id : String) → ConflictStatus → Guard
  conflict_member_digest_eq : (conflict_id expected_digest : String) → Guard
  active_set_digest_eq : (family_key expected_digest : String) → Guard
  source_hash_eq : (source_revision_id expected_hash : String) → Guard
  no_active_claim : (family_key : String) → Guard
  decision_status_eq : (decision_id : String) → DecisionStatus → Guard
  decision_version_eq : (decision_id : String) → ℕ → Guard
  question_status_eq : (question_id : String) → QuestionStatus → Guard
  question_version_eq : (question_id : String) → ℕ → Guard
  work_item_status_eq : (work_item_id : String) → WorkItemStatus → Guard
  work_item_version_eq : (work_item_id : String) → ℕ → Guard

pub data Operation : Type 0 where
  register_source_revision : SourceRevision → Operation
  assert_claim : Claim → List EvidenceLink → Operation
  attach_evidence : EvidenceLink → Operation
  supersede_claim : (target : String) → Claim → List EvidenceLink → (rationale : String) → Operation
  retract_claim :
      (target : String) (evidence_link_ids : List String)
      (authority_policy_version rationale : String)
      → Operation
  resolve_conflict : (conflict_id expected_member_digest : String) → Resolution → Operation
  continuity : ContinuityOperation → Operation

pub data Event : Type 0 where
  source_revision_registered : SourceRevision → Event
  claim_asserted : Claim → List EvidenceLink → Event
  evidence_attached : EvidenceLink → Event
  claim_superseded : (target replacement rationale : String) → Event
  claim_retracted :
      (target : String) → Actor → (authority_policy_version rationale : String) → Event
  conflict_opened : Conflict → Event
  conflict_resolved : (conflict_id : String) → Resolution → Event
  continuity : ContinuityEvent → Event

pub record Proposal : Type 0 where
  pub proposal_id : String
  pub idempotency_key : String
  pub proposer : Actor
  pub proposed_at : String
  pub versions : VersionBundle
  pub reads : List ReadRef
  pub guards : List Guard
  pub operations : List Operation
  pub rest : String

unfoldable pub ClaimStatus-discrete : Discrete ClaimStatus
ClaimStatus-discrete = hlevel
