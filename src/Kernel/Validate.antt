-- ===== src/Kernel/Validate.antt =====
-- What kernel.py checks of a proposal before its operations run: versions, required reads, reads,
-- guards, and the references of continuity records.
use shared_mind.Base.{
  String, Bool, true, false, not, ◌&&◌, ◌||◌, none, some, List, [], ◌∷◌, map, ◌==◌, nat_eq,
  if◌then◌else◌, is_some, equal, place_row, Table, find, ok, ◌>>=◌, ◌>>◌, raise_if, for_each,
}
use shared_mind.Documents.{
  RecordType, source_revision, claim, conflict, decision_record, open_question, work_item,
  RecordType-discrete, ClaimStatus-discrete, ConflictStatus-discrete, Registry, Proposition,
  VersionBundle, ReadRef, collection, aggregate, Guard, claim_status_eq, claim_version_eq,
  conflict_status_eq, conflict_member_digest_eq, active_set_digest_eq, source_hash_eq,
  no_active_claim, Operation, supersede_claim, retract_claim, resolve_conflict, Proposal,
}
use shared_mind.Continuity.Errors.{
  Code, Failure, Checked, transaction_conflict, validation_failure, value_error,
}
use shared_mind.Continuity.Errors
use shared_mind.Continuity.Reads
use shared_mind.Continuity.Reads.{mismatch, RequiredRead}
use shared_mind.Kernel.Host.{Host, Member, sha256_json, active_set, registry}
use shared_mind.Kernel.State.{SourceRow, ClaimRow, ConflictRow, Tables}
use shared_mind.Kernel.Semantics.{predicate_of, family_key}
use shared_mind.Kernel.Conflicts.{is_active_claim}
use shared_mind.Kernel.Operations.{translate}

-- Kernel.SUPPORTED_VERSIONS
abbrev pub schema_version : String
schema_version = "1.3.0"

abbrev pub conflict_rules_version : String
conflict_rules_version = "conflict-rules@1"

abbrev pub projection_version : String
projection_version = "markdown-projection@3"

-- (type, id) in aggregate_reads
unfoldable pub has_read : RecordType → String → List ReadRef → Bool
has_read type id [] = false
has_read type id (collection _ _ ∷ reads) = has_read type id reads
has_read type id (aggregate t i _ ∷ reads) =
    (equal RecordType-discrete t type && i == id) || has_read type id reads

missing_read_code : RecordType → Code
missing_read_code decision_record = Errors.missing_required_decision_read
missing_read_code open_question = Errors.missing_required_question_read
missing_read_code work_item = Errors.missing_required_work_item_read
missing_read_code _ = Errors.malformed_proposal

unfoldable pub check_required_reads : List ReadRef → Operation → Checked
unfolding has_read missing_read_code
check_required_reads reads (supersede_claim target _ _ _) =
    raise_if (not (has_read claim target reads))
      (validation_failure Errors.missing_required_claim_read)
check_required_reads reads (retract_claim target _ _ _) =
    raise_if (not (has_read claim target reads))
      (validation_failure Errors.missing_required_claim_read)
check_required_reads reads (resolve_conflict id _ _) =
    raise_if (not (has_read conflict id reads))
      (validation_failure Errors.missing_required_conflict_read)
check_required_reads reads (Operation.continuity op) =
    for_each
      (λ (r : RequiredRead).
        raise_if (not (has_read r.aggregate_type r.aggregate_id reads))
          (validation_failure (missing_read_code r.aggregate_type)))
      (Reads.required_reads op)
check_required_reads reads _ = ok tt

unfoldable pub validate_required_operation_reads : Proposal → Checked
unfolding check_required_reads
validate_required_operation_reads p = for_each (check_required_reads p.reads) p.operations

module _ (h : Host) (reg : Registry) where
  unfoldable pub validate_versions : VersionBundle → Checked
  validate_versions v = do
    raise_if (not (v.schema == schema_version))
        (validation_failure Errors.unsupported_schema_version)
    raise_if (not (v.predicate_registry == reg.version))
        (validation_failure Errors.unsupported_predicate_registry)
    raise_if (not (v.predicate_registry_hash == sha256_json h (registry reg)))
        (validation_failure Errors.predicate_registry_content_mismatch)
    raise_if (not (v.conflict_rules == conflict_rules_version))
        (validation_failure Errors.unsupported_conflict_rules_version)
    raise_if (not (v.guard_dsl == reg.guard_dsl_version))
        (validation_failure Errors.unsupported_guard_dsl_version)
    raise_if (not (v.projection == projection_version))
        (validation_failure Errors.unsupported_projection_version)

  in_family : String → Proposition → Bool
  in_family key p = elim (predicate_of reg p.predicate) [
    | none ↦ false
    | some predicate ↦ family_key h p predicate == key
  ]

  family_rows : String → Table ClaimRow → Table ClaimRow
  unfolding in_family
  family_rows key [] = []
  family_rows key ((id, row) ∷ rows) =
      let rest = family_rows key rows in
      if is_active_claim row.status && in_family key row.proposition
      then place_row (id, row) rest
      else rest

  abbrev member_of : String × ClaimRow → Member
  member_of (id, row) = record {
    claim_id = id;
    proposition_hash = row.proposition_hash;
    version = row.version;
  }

  unfoldable pub active_family_members : String → Tables → List Member
  unfolding family_rows
  active_family_members key t = map member_of (family_rows key t.claims)

  unfoldable pub active_set_digest : String → Tables → String
  unfolding active_family_members
  active_set_digest key t = sha256_json h (active_set (active_family_members key t))

  -- The branches of the loop over the reads that continuity has not handled.
  unfoldable pub check_read : Tables → ReadRef → Checked
  unfolding mismatch
  check_read t (aggregate claim id version) =
      raise_if (mismatch nat_eq (λ (row : ClaimRow). row.version) (find id t.claims) version)
        (transaction_conflict Errors.claim_version_mismatch)
  check_read t (aggregate conflict id version) =
      raise_if (mismatch nat_eq (λ (row : ConflictRow). row.version) (find id t.conflicts) version)
        (transaction_conflict Errors.conflict_version_mismatch)
  check_read t (aggregate source_revision id version) =
      raise_if (not (nat_eq (if is_some (find id t.sources) then 1 else 0) version))
        (transaction_conflict Errors.source_revision_version_mismatch)
  check_read t _ = ok tt

  unfoldable pub validate_read : Tables → ReadRef → Checked
  unfolding check_read
  validate_read t (collection key digest) =
      raise_if (not (active_set_digest key t == digest))
        (transaction_conflict Errors.active_set_digest_mismatch)
  validate_read t (aggregate type id version) =
      translate (Reads.validate_read t.continuity (aggregate type id version)) >>= λ handled.
      if handled then ok tt else check_read t (aggregate type id version)

  -- The branches of the loop over the guards that continuity has not handled.
  unfoldable pub check_guard : Tables → Guard → Checked
  unfolding mismatch
  check_guard t (claim_status_eq id status) =
      raise_if
        (mismatch (equal ClaimStatus-discrete) (λ (row : ClaimRow). row.status) (find id t.claims)
          status)
        (transaction_conflict Errors.claim_status_mismatch)
  check_guard t (claim_version_eq id version) =
      raise_if (mismatch nat_eq (λ (row : ClaimRow). row.version) (find id t.claims) version)
        (transaction_conflict Errors.claim_version_mismatch)
  check_guard t (conflict_status_eq id status) =
      raise_if
        (mismatch (equal ConflictStatus-discrete) (λ (row : ConflictRow). row.status)
          (find id t.conflicts) status)
        (transaction_conflict Errors.conflict_status_mismatch)
  check_guard t (conflict_member_digest_eq id digest) =
      raise_if
        (mismatch ◌==◌ (λ (row : ConflictRow). row.member_digest) (find id t.conflicts) digest)
        (transaction_conflict Errors.conflict_member_digest_mismatch)
  check_guard t (active_set_digest_eq key digest) =
      raise_if (not (active_set_digest key t == digest))
        (transaction_conflict Errors.active_set_digest_mismatch)
  check_guard t (source_hash_eq id hash) =
      raise_if (mismatch ◌==◌ (λ (row : SourceRow). row.content_hash) (find id t.sources) hash)
        (transaction_conflict Errors.source_hash_mismatch)
  check_guard t (no_active_claim key) =
      raise_if (elim (active_family_members key t) [ [] ↦ false | _ ∷ _ ↦ true ])
        (transaction_conflict Errors.active_claim_exists)
  check_guard t _ = ok tt

  unfoldable pub validate_guard : Tables → Guard → Checked
  unfolding check_guard
  validate_guard t guard = translate (Reads.validate_guard t.continuity guard) >>= λ handled.
      if handled then ok tt else check_guard t guard

  unfoldable pub validate_reads_and_guards : Tables → Proposal → Checked
  unfolding validate_read validate_guard
  validate_reads_and_guards t p =
      for_each (validate_read t) p.reads >> for_each (validate_guard t) p.guards
