-- ===== src/Kernel/Tests/Ledgers.antt =====
-- A host under a strict contract, and the verification of the ledger that a proposal writes.
use shared_mind.Kernel.Depth.{json_depth_exceeds}
use shared_mind.Kernel.Commit.{after_lookup, transaction, ledger_row, commit_row, apply_operations}
use shared_mind.Kernel.Json.{Json, object, field, end, text, get, member}
use shared_mind.Kernel.Validate.{
  validate_versions, validate_required_operation_reads, validate_reads_and_guards,
}
use shared_mind.Kernel.Host.{Host, encoded, sha256_json}
use shared_mind.Base.{
  for_each, fold_result, contains, sorted, distinct, keys, find, insert, String-discrete, ◌≡◌, refl,
  ◌==◌, ◌&&◌, String, Bool, true, false, not, none, some, [], ◌∷◌, List, ok, err, Result, arith,
  is_nil, if◌then◌else◌, Option,
}
use shared_mind.Continuity.Reads.{required_reads}
use shared_mind.Kernel.References.{
  validate_continuity_references, predicted_conflict_ids, require, namespace,
}
use shared_mind.Kernel.Semantics.{
  predicate_of, family_key, conflict_kind, validate_predicate_semantics,
  validate_evidence_interpretations,
}
use shared_mind.Kernel.Conflicts.{
  resolved_conflict_of, conflict_id_of, members_of_kind, insert_unique, open_conflicts,
  open_conflict_of,
}
use shared_mind.Continuity.Reducers.{reduce, reduce_record_decision}
use shared_mind.Kernel.Receipts.{
  prior_receipt, column_text, has_entry_hash, insert_receipt, next_ledger_seq, first_receipt,
}
use shared_mind.Kernel.Operations.{apply_operation}
use shared_mind.Kernel.Claims.{assert_claim}
use shared_mind.Documents.{Event, ObjectValue-discrete, ConflictKind-discrete}
use shared_mind.Continuity.Errors.{Failure}
use shared_mind.Kernel.State.{Database, ReceiptRow, Tables, no_tables, new_database}
use shared_mind.Kernel.Commit.Chain.{Reached, start, call}
use shared_mind.Kernel.Verify.{Reader}
use shared_mind.Kernel.Verify.Documents.{conflict_ids_from_events, verify_accepted_receipt_coverage}
use shared_mind.Kernel.Verify.Counts.{verify_accepted_receipt_coverage-Reached}
use shared_mind.Kernel.Verify.Proposals.{apply_operations-conflict_ids}
use shared_mind.Kernel.Tests.Data.{
  text_field, host, colors, painting, ada, now, database_of, receipt_of, is_ok, ok_parts,
}

-- One value passes the contract, and ledger entries have events.
abbrev has_some : Option Json → Bool
has_some (some j) = true
has_some none = false

abbrev passing : Json → Bool
passing j = (text_field "idempotency_key" j == "key_1") && has_some (get "proposer" j)

abbrev strict_host : Host
strict_host = record host {
  encode = λ j. encoded (9 ∷ []);
  contract = λ j. if passing j then some painting else none;
  ledger_entry_valid = λ d. not (is_nil d.events);
}

abbrev reader : Reader
reader = record {
  proposal_bytes = λ p. 9 ∷ [];
  proposal_valid = λ p. true;
  event_valid = λ e. true;
  proposer_of = λ p. some ada;
  canonical_document = λ row. true;
  legacy_flaws = λ row. [];
}

-- a value with a proposer
abbrev signed : Json
signed = object (
    field "proposal_id" (text "painting")
      (field "idempotency_key" (text "key_1") (field "proposer" (text "ada") end)))

abbrev painted : Result Failure (Database × ReceiptRow)
painted = commit_row strict_host colors now signed new_database

painted-is_ok : is_ok painted ≡ true
unfolding commit_row json_depth_exceeds first_receipt transaction text_field member after_lookup
    prior_receipt column_text validate_versions sha256_json validate_required_operation_reads
    for_each required_reads validate_reads_and_guards validate_continuity_references
    predicted_conflict_ids fold_result predicate_of contains family_key conflict_kind
    resolved_conflict_of conflict_id_of sorted distinct reduce reduce_record_decision has_entry_hash
    insert_receipt ledger_row next_ledger_seq members_of_kind require namespace apply_operation
    assert_claim validate_predicate_semantics validate_evidence_interpretations insert_unique find
    open_conflicts insert ObjectValue-discrete String-discrete ConflictKind-discrete
    open_conflict_of keys
painted-is_ok = refl

abbrev after : Database
after = database_of new_database painted

abbrev painted_history : Reached strict_host colors after
painted_history =
    call now signed (receipt_of painted painted-is_ok) start
      (ok_parts new_database painted painted-is_ok)

verify_accepted_receipt_coverage-Reached_example : verify_accepted_receipt_coverage after ≡ []
verify_accepted_receipt_coverage-Reached_example =
    verify_accepted_receipt_coverage-Reached strict_host colors painted_history

-- The events of three operations and the conflict that they open.
abbrev Applied : Type 0
Applied = Tables × List Event × List String

abbrev applied : Result Failure Applied
applied = apply_operations host colors painting 1 no_tables

abbrev succeeds : Result Failure Applied → Bool
succeeds (ok a) = true
succeeds (err e) = false

abbrev value_of : Result Failure Applied → Applied
value_of (ok a) = a
value_of (err e) = (no_tables, [], [])

ok_value : (r : Result Failure Applied) → succeeds r ≡ true → r ≡ ok (value_of r)
ok_value (ok a) e = refl
ok_value (err x) e = absurd (ground (arith, e))

applied-succeeds : succeeds applied ≡ true
unfolding commit_row json_depth_exceeds first_receipt transaction text_field member after_lookup
    prior_receipt column_text validate_versions sha256_json validate_required_operation_reads
    for_each required_reads validate_reads_and_guards validate_continuity_references
    predicted_conflict_ids fold_result predicate_of contains family_key conflict_kind
    resolved_conflict_of conflict_id_of sorted distinct reduce reduce_record_decision has_entry_hash
    insert_receipt ledger_row next_ledger_seq members_of_kind require namespace apply_operation
    assert_claim validate_predicate_semantics validate_evidence_interpretations insert_unique find
    open_conflicts insert ObjectValue-discrete String-discrete ConflictKind-discrete
    open_conflict_of keys
applied-succeeds = refl

abbrev events_of : Applied → List Event
events_of (t, events, opened) = events

abbrev opened_of : Applied → List String
opened_of (t, events, opened) = opened

abbrev tables_of : Applied → Tables
tables_of (t, events, opened) = t

apply_operations-conflict_ids_example :
    conflict_ids_from_events (events_of (value_of applied))
    ≡ sorted (distinct (opened_of (value_of applied)))
apply_operations-conflict_ids_example =
    apply_operations-conflict_ids host colors painting 1 no_tables (tables_of (value_of applied))
      (events_of (value_of applied)) (opened_of (value_of applied))
      (ok_value applied applied-succeeds)
