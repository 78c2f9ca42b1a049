-- ===== src/Kernel/Replay.antt =====
-- Replay: the events of the ledger applied to an empty target, `_apply_replay_event` and
-- `_replay_rows`.
pub mod Families
pub mod Separation
pub mod Traces
pub mod Opening
pub mod Conflicts
pub mod Admission
pub mod Events
pub mod History
use shared_mind.Base.{
  ℕ, ◌+◌, String, Bool, true, false, not, ◌&&◌, ◌||◌, Option, none, some, List, [], ◌∷◌, ◌++◌, ◌==◌,
  reverse, if◌then◌else◌, equal, sorted, is_some, Table, find, insert, update, Result, ok, err,
  ◌>>=◌, ◌>>◌, raise_if, or_raise, fold_result, String-discrete, Option_String-discrete,
}
use shared_mind.Documents.{
  Claim, ClaimStatus, EvidenceLink, Registry, Conflict, Event, source_revision_registered,
  claim_asserted, evidence_attached, claim_superseded, claim_retracted, conflict_opened,
  conflict_resolved, ContinuityEvent, Proposal,
}
use shared_mind.Continuity.Errors.{
  Code, Failure, Checked, continuity_conflict, continuity_validation, transaction_conflict,
  validation_failure, integrity_error, value_error,
}
use shared_mind.Continuity.Errors
use shared_mind.Continuity.Reducers
use shared_mind.Kernel.Host.{Host, sha256_json, member_ids}
use shared_mind.Kernel.State.{ClaimRow, ConflictRow, LedgerRow, Tables, no_tables}
use shared_mind.Kernel.Semantics.{predicate_of, family_key}
use shared_mind.Kernel.Conflicts.{is_active_claim, is_open_conflict}
use shared_mind.Kernel.Claims
use shared_mind.Kernel.Operations.{
  active_claim, open_conflict_row, supersede_row, retract_row, resolve_row,
}
use shared_mind.Kernel.Operations
use shared_mind.Kernel.References.{validate_continuity_references}
use shared_mind.Kernel.Commit.{state_root}

-- `except (ContinuityConflict, ContinuityValidationError) ... raise ValidationFailure(exc.code)`
unfoldable pub as_validation {ℓ} : {A : Type ℓ} → Result Failure A → Result Failure A
as_validation (ok a) = ok a
as_validation (err (continuity_conflict code)) = err (validation_failure code)
as_validation (err (continuity_validation code)) = err (validation_failure code)
as_validation (err e) = err e

-- UPDATE ... WHERE claim_id = ? AND status = 'ACTIVE', and `cursor.rowcount != 1`
unfoldable pub update_active : String → (ClaimRow → ClaimRow) → Tables → Result Failure Tables
unfolding is_active_claim
update_active id f t = elim (find id t.claims) [
  | none ↦ err (validation_failure Errors.replay_event_precondition_failed)
  | some row ↦
      if is_active_claim row.status
      then ok (record t { claims = update id f t.claims })
      else err (validation_failure Errors.replay_event_precondition_failed)
]

-- UPDATE ... WHERE conflict_id = ? AND status = 'OPEN', and `cursor.rowcount != 1`
unfoldable pub update_open : String → (ConflictRow → ConflictRow) → Tables → Result Failure Tables
unfolding is_open_conflict
update_open id f t = elim (find id t.conflicts) [
  | none ↦ err (validation_failure Errors.replay_event_precondition_failed)
  | some row ↦
      if is_open_conflict row.status
      then ok (record t { conflicts = update id f t.conflicts })
      else err (validation_failure Errors.replay_event_precondition_failed)
]

-- The row that a replayed conflict writes.
abbrev pub conflict_row : Conflict → List String → ℕ → ConflictRow
conflict_row c members version = record {
  family_key = c.family_key;
  kind = c.kind;
  member_digest = c.member_digest;
  members = members;
  status = c.status;
  episode = c.episode;
  version = version;
  resolution = c.resolution;
  opened_seq = c.opened_seq;
}

-- UPDATE of the existing row with the next version, or INSERT with version 1
unfoldable pub write_replayed : Conflict → List String → Table ConflictRow → Table ConflictRow
write_replayed c members conflicts = elim (find c.conflict_id conflicts) [
  | none ↦ insert c.conflict_id (conflict_row c members 1) conflicts
  | some row ↦ update c.conflict_id (λ _. conflict_row c members (row.version + 1)) conflicts
]

-- family_keys == {family}: not empty, and nothing else in it
unfoldable pub all_equal : String → List String → Bool
all_equal family [] = true
all_equal family (k ∷ ks) = k == family && all_equal family ks

unfoldable pub is_singleton : String → List String → Bool
unfolding all_equal
is_singleton family [] = false
is_singleton family (k ∷ ks) = all_equal family (k ∷ ks)

abbrev tables_of {ℓ} : {A : Type ℓ} → Result Failure (Tables × A) → Result Failure Tables
tables_of r = r >>= λ (t, _). ok t

-- ValidationFailure(f"{exc.code}:{seq}") and REPLAY_EVENT_INVALID; the sequence number is left out.
unfoldable pub replay_failure {ℓ} : {A : Type ℓ} → Result Failure A → Result Failure A
replay_failure (ok a) = ok a
replay_failure (err (validation_failure code)) = err (validation_failure code)
replay_failure (err value_error) = err (validation_failure Errors.replay_event_invalid)
replay_failure (err e) = err e

module _ (h : Host) (reg : Registry) where
  unfoldable pub replay_assert_claim : Claim → List EvidenceLink → Tables → Result Failure Tables
  replay_assert_claim claim evidence t =
      Claims.admit_claim h reg claim evidence t >>= λ (_, t'). ok t'

  -- The family key of a member, under its own predicate.
  unfoldable pub member_family : Table ClaimRow → String → Result Failure String
  member_family claims id = do
    row ← or_raise (find id claims) (validation_failure Errors.conflict_member_not_found)
    predicate ←
        or_raise (predicate_of reg row.proposition.predicate)
          (validation_failure Errors.unknown_predicate)
    ok (family_key h row.proposition predicate)

  -- family_keys = {...}
  unfoldable pub family_keys : Table ClaimRow → List String → Result Failure (List String)
  unfolding member_family
  family_keys claims [] = ok []
  family_keys claims (id ∷ ids) = do
    key ← member_family claims id
    keys ← family_keys claims ids
    ok (key ∷ keys)

  unfoldable pub replay_open_conflict : Conflict → Tables → Result Failure Tables
  unfolding family_keys is_singleton write_replayed
  replay_open_conflict c t = do
    let members = sorted c.member_claim_ids
    raise_if (not (sha256_json h (member_ids members) == c.member_digest))
        (validation_failure Errors.conflict_member_digest_mismatch)
    families ← family_keys t.claims members
    raise_if (not (is_singleton c.family_key families))
        (validation_failure Errors.conflict_family_key_mismatch)
    ok (record t { conflicts = write_replayed c members t.conflicts })

  unfoldable pub replay_continuity : ContinuityEvent → Tables → Result Failure Tables
  replay_continuity e t =
      as_validation (Reducers.apply_event t.continuity e) >>= λ s. ok (record t { continuity = s })

  unfoldable pub apply_replay_event : Event → Tables → Result Failure Tables
  unfolding replay_assert_claim replay_open_conflict replay_continuity update_active update_open
      as_validation
  apply_replay_event (source_revision_registered source) t =
      tables_of (Claims.register_source_revision h source t [])
  apply_replay_event (claim_asserted claim evidence) t = replay_assert_claim claim evidence t
  apply_replay_event (evidence_attached link) t =
      tables_of (Operations.reduce_attach_evidence h reg link t [])
  apply_replay_event (claim_superseded target replacement _) t =
      update_active target (supersede_row replacement) t
  apply_replay_event (claim_retracted target _ _ _) t = update_active target retract_row t
  apply_replay_event (conflict_opened conflict) t = replay_open_conflict conflict t
  apply_replay_event (conflict_resolved id resolution) t = update_open id (resolve_row resolution) t
  apply_replay_event (Event.continuity e) t = replay_continuity e t

  unfoldable pub apply_replay_events : List Event → Tables → Result Failure Tables
  apply_replay_events = fold_result apply_replay_event

  -- One row of the ledger, on the tables and the ledger of the target.
  unfoldable pub replay_row : LedgerRow → Option String → Tables → Result Failure Tables
  unfolding replay_failure apply_replay_events
  replay_row row expected_prev t = do
    raise_if (not (state_root h t == row.pre_state_root))
        (validation_failure (Errors.replay_pre_state_root_mismatch row.seq))
    t' ← replay_failure (
        validate_continuity_references h reg t row.proposal.operations
        >> apply_replay_events row.events t)
    raise_if (not (state_root h t' == row.state_root))
        (validation_failure (Errors.replay_post_state_root_mismatch row.seq))
    raise_if (not (equal Option_String-discrete row.prev_hash expected_prev))
        (validation_failure (Errors.previous_hash_mismatch row.seq))
    ok t'

  -- `_replay_rows`: the rows in the order of `seq`, the oldest first, on an empty target.
  unfoldable pub replay_from :
      List LedgerRow → Option String × Tables → Result Failure (Option String × Tables)
  replay_from = fold_result λ row (expected_prev, t).
      replay_row row expected_prev t >>= λ t'. ok (some row.entry_hash, t')

  unfoldable pub replay_rows : List LedgerRow → Result Failure Tables
  unfolding replay_row
  replay_rows ledger = replay_from (reverse ledger) (none, no_tables) >>= λ (_, t). ok t
