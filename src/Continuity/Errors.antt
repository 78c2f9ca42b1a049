-- ===== src/Continuity/Errors.antt =====
-- The reason codes of a receipt, and the exceptions that carry them.
use shared_mind.Base.{ℕ, Result}

pub data Code : Type 0 where
  -- continuity.py
  decision_version_mismatch question_version_mismatch work_item_version_mismatch : Code
  decision_status_mismatch question_status_mismatch work_item_status_mismatch : Code
  invalid_decision_disposition duplicate_object_id invalid_work_item_status : Code
  invalid_work_item_blocker invalid_new_decision_state invalid_new_question_state : Code
  invalid_new_work_item_state replay_event_transition_mismatch : Code
  -- kernel.py, validation
  schema_validation_failed unsupported_schema_version unsupported_predicate_registry : Code
  predicate_registry_content_mismatch unsupported_conflict_rules_version : Code
  unsupported_guard_dsl_version unsupported_projection_version : Code
  missing_required_claim_read missing_required_conflict_read missing_required_decision_read : Code
  missing_required_question_read missing_required_work_item_read : Code
  active_set_digest_mismatch claim_version_mismatch conflict_version_mismatch : Code
  source_revision_version_mismatch claim_status_mismatch conflict_status_mismatch : Code
  conflict_member_digest_mismatch source_hash_mismatch active_claim_exists : Code
  reference_type_mismatch reference_not_found integrity_constraint_violation : Code
  -- kernel.py, operations
  source_revision_immutability_violation source_content_unavailable : Code
  source_content_hash_mismatch actor_not_authorized evidence_reference_not_found : Code
  conflict_resolution_epoch_mismatch invalid_conflict_resolution proposition_hash_mismatch : Code
  unknown_predicate subject_type_mismatch insufficient_evidence evidence_claim_mismatch : Code
  source_revision_not_found evidence_selector_mismatch object_kind_mismatch : Code
  object_entity_type_mismatch object_enum_value_not_allowed scope_field_not_allowed : Code
  required_scope_missing valid_time_required valid_time_forbidden invalid_valid_time_range : Code
  evidence_interpretation_not_allowed : Code
  -- kernel.py, commit and replay
  malformed_proposal proposal_too_deep proposal_too_large idempotency_key_reuse : Code
  ledger_document_not_found ledger_entry_schema_invalid decision_receipt_schema_invalid : Code
  replay_event_precondition_failed unsupported_ledger_event conflict_member_not_found : Code
  conflict_family_key_mismatch replay_event_invalid : Code
  replay_pre_state_root_mismatch replay_post_state_root_mismatch previous_hash_mismatch : ℕ → Code

-- The exceptions of continuity.py (the first two), of kernel.py (the next two), of SQLite's
-- constraints, and Python's ValueError.
pub data Failure : Type 0 where
  continuity_conflict continuity_validation : Code → Failure
  transaction_conflict validation_failure : Code → Failure
  integrity_error : Code → Failure
  value_error : Failure
  -- an exception that no handler of the kernel catches: of sqlite3 on a value that it cannot bind or
  -- store, or of json on a value that it cannot encode
  uncaught : Failure

-- A check that raises or passes.
abbrev pub Checked : Type 0
Checked = Result Failure (Unit {0})
