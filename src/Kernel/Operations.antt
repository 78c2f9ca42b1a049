-- ===== src/Kernel/Operations.antt =====
-- The operations of a proposal: the rest of the reducers of kernel.py, and `_apply_operation`.
use shared_mind.Base.{
  ℕ, ◌+◌, String, Bool, not, ◌&&◌, Option, none, some, List, [], ◌∷◌, ◌++◌, ◌==◌, nat_eq,
  if◌then◌else◌, contains, subset, disjoint, Table, find, update, Result, ok, err, ◌>>=◌, ◌>>◌,
  raise_if, or_raise, for_each,
}
use shared_mind.Documents.{
  Actor, Claim, ClaimStatus, EvidenceLink, Registry, Resolution, resolved, Operation, assert_claim,
  attach_evidence, supersede_claim, retract_claim, resolve_conflict, Event, evidence_attached,
  claim_superseded, claim_retracted, conflict_resolved, ContinuityOperation,
}
use shared_mind.Continuity.Errors.{
  Failure, Checked, continuity_conflict, continuity_validation, transaction_conflict,
  validation_failure, integrity_error, value_error,
}
use shared_mind.Continuity.Errors
use shared_mind.Continuity.Reducers
use shared_mind.Kernel.Host.{Host}
use shared_mind.Kernel.State.{ClaimRow, EvidenceRow, ConflictRow, Tables}
use shared_mind.Kernel.Semantics.{
  predicate_of, actor_is_authorized, validate_evidence_interpretations,
}
use shared_mind.Kernel.Conflicts.{is_active_claim, is_open_conflict}
use shared_mind.Kernel.Claims

-- `except ContinuityConflict ... raise TransactionConflict(exc.code)`, and for validation errors
unfoldable pub translate {ℓ} : {A : Type ℓ} → Result Failure A → Result Failure A
translate (ok a) = ok a
translate (err (continuity_conflict code)) = err (transaction_conflict code)
translate (err (continuity_validation code)) = err (validation_failure code)
translate (err e) = err e

-- `not row or row["status"] != "ACTIVE"`
unfoldable pub active_claim : Option ClaimRow → Result Failure ClaimRow
unfolding is_active_claim
active_claim none = err (transaction_conflict Errors.claim_status_mismatch)
active_claim (some row) =
    if is_active_claim row.status
    then ok row
    else err (transaction_conflict Errors.claim_status_mismatch)

-- `not row or row["status"] != "OPEN"`
unfoldable pub open_conflict_row : Option ConflictRow → Result Failure ConflictRow
unfolding is_open_conflict
open_conflict_row none = err (transaction_conflict Errors.conflict_status_mismatch)
open_conflict_row (some row) =
    if is_open_conflict row.status
    then ok row
    else err (transaction_conflict Errors.conflict_status_mismatch)

abbrev pub touch_row : ClaimRow → ClaimRow
touch_row row = record row { version = row.version + 1 }

abbrev pub supersede_row : String → ClaimRow → ClaimRow
supersede_row replacement row = record row {
  status = ClaimStatus.superseded;
  version = row.version + 1;
  superseded_by = some replacement;
}

abbrev pub retract_row : ClaimRow → ClaimRow
retract_row row = record row { status = ClaimStatus.retracted; version = row.version + 1 }

abbrev pub resolve_row : Resolution → ConflictRow → ConflictRow
resolve_row resolution row = record row {
  status = resolved;
  version = row.version + 1;
  resolution = some resolution;
}

-- `not evidence or evidence["claim_id"] not in claim_ids`
unfoldable pub evidence_of : List String → Table EvidenceRow → String → Checked
evidence_of claim_ids evidence id =
    or_raise (find id evidence) (validation_failure Errors.evidence_reference_not_found) >>= λ row.
    raise_if (not (contains row.claim_id claim_ids))
      (validation_failure Errors.evidence_reference_not_found)

unfoldable pub reduce_retract_claim :
    Actor
    → String
    → List String
    → String
    → String
    → Tables
    → List Event
    → Result Failure (Tables × List Event)
unfolding active_claim evidence_of
reduce_retract_claim proposer target evidence_link_ids policy rationale t events = do
  row ← active_claim (find target t.claims)
  raise_if (not (actor_is_authorized proposer row.document.asserted_by))
      (validation_failure Errors.actor_not_authorized)
  for_each (evidence_of (target ∷ []) t.evidence) evidence_link_ids
  ok (
    record t { claims = update target retract_row t.claims },
    events ++ claim_retracted target proposer policy rationale ∷ [],
  )

-- selected & rejected or selected | rejected != members
unfoldable pub is_partition : List String → List String → List String → Bool
is_partition selected rejected members =
    disjoint selected rejected
    && subset (selected ++ rejected) members
    && subset members (selected ++ rejected)

unfoldable pub reduce_resolve_conflict :
    Actor
    → String
    → String
    → Resolution
    → Tables
    → List Event
    → Result Failure (Tables × List Event)
unfolding open_conflict_row evidence_of
reduce_resolve_conflict proposer id expected_member_digest resolution t events = do
  row ← open_conflict_row (find id t.conflicts)
  raise_if (not (row.member_digest == expected_member_digest))
      (transaction_conflict Errors.conflict_member_digest_mismatch)
  raise_if (not (nat_eq resolution.resolution_epoch row.episode))
      (transaction_conflict Errors.conflict_resolution_epoch_mismatch)
  raise_if (not (actor_is_authorized proposer resolution.resolver))
      (validation_failure Errors.actor_not_authorized)
  raise_if
      (not (is_partition resolution.selected_claim_ids resolution.rejected_claim_ids row.members))
      (validation_failure Errors.invalid_conflict_resolution)
  for_each (evidence_of row.members t.evidence) resolution.evidence_link_ids
  ok (
    record t { conflicts = update id (resolve_row resolution) t.conflicts },
    events ++ conflict_resolved id resolution ∷ [],
  )

unfoldable pub reduce_continuity :
    ContinuityOperation → Tables → List Event → Result Failure (Tables × List Event)
reduce_continuity op t events = Reducers.reduce t.continuity op >>= λ (s, e).
    ok (record t { continuity = s }, events ++ Event.continuity e ∷ [])

-- tables, events and the conflicts that were opened
abbrev pub Progress : Type 0
Progress = Tables × List Event × List String

abbrev pub keeping : List String → Result Failure (Tables × List Event) → Result Failure Progress
keeping conflict_ids r = r >>= λ (t, events). ok (t, events, conflict_ids)

module _ (h : Host) (registry : Registry) where
  unfoldable pub reduce_attach_evidence :
      EvidenceLink → Tables → List Event → Result Failure (Tables × List Event)
  unfolding active_claim
  reduce_attach_evidence link t events = do
    row ← active_claim (find link.claim_id t.claims)
    predicate ←
        or_raise (predicate_of registry row.proposition.predicate)
          (validation_failure Errors.unknown_predicate)
    validate_evidence_interpretations predicate (link ∷ [])
    t' ← Claims.validate_and_insert_evidence h link.claim_id link t
    ok (
      record t' { claims = update link.claim_id touch_row t'.claims },
      events ++ evidence_attached link ∷ [],
    )

  unfoldable pub reduce_supersede_claim :
      String → Claim → List EvidenceLink → String → ℕ → Progress → Result Failure Progress
  unfolding active_claim
  reduce_supersede_claim target replacement evidence rationale opened_seq
        (t, events, conflict_ids) =
      do
        active_claim (find target t.claims) >>= λ _. ok tt
        (t', events', conflict_ids') ←
            Claims.assert_claim h registry replacement evidence (target ∷ []) opened_seq t events
              conflict_ids
        ok (
          record t' { claims = update target (supersede_row replacement.claim_id) t'.claims },
          events' ++ claim_superseded target replacement.claim_id rationale ∷ [],
          conflict_ids',
        )

  module _ (proposer : Actor) (opened_seq : ℕ) where
    unfoldable pub dispatch : Operation → Progress → Result Failure Progress
    unfolding reduce_continuity reduce_attach_evidence reduce_supersede_claim
    dispatch (Operation.register_source_revision source) (t, events, conflict_ids) =
        keeping conflict_ids (Claims.register_source_revision h source t events)
    dispatch (assert_claim claim evidence) (t, events, conflict_ids) =
        Claims.assert_claim h registry claim evidence [] opened_seq t events conflict_ids
    dispatch (attach_evidence link) (t, events, conflict_ids) =
        keeping conflict_ids (reduce_attach_evidence link t events)
    dispatch (supersede_claim target replacement evidence rationale) p =
        reduce_supersede_claim target replacement evidence rationale opened_seq p
    dispatch (retract_claim target evidence_link_ids policy rationale) (t, events, conflict_ids) =
        keeping conflict_ids
          (reduce_retract_claim proposer target evidence_link_ids policy rationale t events)
    dispatch (resolve_conflict id digest resolution) (t, events, conflict_ids) =
        keeping conflict_ids (reduce_resolve_conflict proposer id digest resolution t events)
    dispatch (Operation.continuity op) (t, events, conflict_ids) =
        keeping conflict_ids (reduce_continuity op t events)

    unfoldable pub apply_operation : Operation → Progress → Result Failure Progress
    unfolding translate dispatch
    apply_operation op p = translate (dispatch op p)
