-- ===== src/Rebase/Tests.antt =====
-- Examples for src/shared_mind/rebase.py: a proposal that has read an older version of a claim.
use shared_mind.Base.{ℕ_discrete, ◌≡◌, refl, none, some, [], ◌∷◌, ok, Every, find, ◌↔◌}
use shared_mind.Documents.{Proposal, RecordType, aggregate}
use shared_mind.Continuity.Errors.{transaction_conflict}
use shared_mind.Continuity.Errors
use shared_mind.Continuity.Reads
use shared_mind.Kernel.State.{Database, Receipt, Outcome, new_database}
use shared_mind.Kernel.Validate.{validate_reads_and_guards}
use shared_mind.Kernel.Tests.Data.{host, colors, painting, ada}
use shared_mind.Kernel.Tests.Histories.{with_red}
use shared_mind.Rebase.{
  Hint, Precondition, on_record, read_version, number, hint_of, hint_for, hint_by_reason,
  build_rebase_hint, proposal_preconditions, enumerated, read_precondition, version_reason,
  first_failed, is_stale, aggregate_state, column, Code-discrete, Actual-discrete, Value-discrete,
}
use shared_mind.Rebase.Replacements.{IsReplaced, build_rebase_hint-IsReplaced}
use shared_mind.Rebase.Staleness.{IsMet}
use shared_mind.Rebase.Hints.{reads_and_guards, validate_reads_and_guards-IsMet}

abbrev db : Database
db = record new_database { tables = with_red }

abbrev stale : Proposal
stale = record painting { reads = aggregate RecordType.claim "claim_red" 2 ∷ [] }

abbrev receipt : Receipt
receipt = record {
  proposal_id = "painting";
  outcome = Outcome.transaction_conflict;
  reason_codes = Errors.claim_version_mismatch ∷ [];
  ledger_seq = none;
  state_root = "";
  conflict_ids = [];
  document = record {
    receipt_id = 1;
    proposal_id = some "painting";
    proposal_hash = "";
    idempotency_key = some "key_1";
    outcome = Outcome.transaction_conflict;
    reason_codes = Errors.claim_version_mismatch ∷ [];
    head_before = none;
    head_after = none;
    ledger_entry_id = none;
    conflict_ids = [];
    decided_at = "2026-01-02T00:00:00Z";
    proposer = some ada;
  };
}

validate_reads_and_guards-IsMet_example :
    (validate_reads_and_guards host colors with_red stale ≡ ok tt)
    ↔ Every IsMet (reads_and_guards host colors with_red stale)
validate_reads_and_guards-IsMet_example =
    validate_reads_and_guards-IsMet host colors with_red stale (tt, tt) tt

abbrev failed : Precondition
failed =
    on_record with_red RecordType.claim "claim_red" (read_version 0) (number 2) (λ s. s.version)
      Errors.claim_version_mismatch

abbrev given : Hint
given = hint_of host colors db stale receipt Errors.claim_version_mismatch failed

stale-hinted : build_rebase_hint host colors db stale receipt ≡ some given
unfolding build_rebase_hint hint_by_reason hint_for proposal_preconditions enumerated
    read_precondition version_reason first_failed is_stale aggregate_state column find Code-discrete
    Actual-discrete Value-discrete ℕ_discrete
stale-hinted = refl

build_rebase_hint-IsReplaced_example : IsReplaced host colors db stale given
build_rebase_hint-IsReplaced_example =
    build_rebase_hint-IsReplaced host colors db stale receipt given stale-hinted
