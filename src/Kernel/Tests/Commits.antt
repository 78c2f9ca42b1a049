-- ===== src/Kernel/Tests/Commits.antt =====
-- Calls of `commit`: a proposal that is committed, repeated, and met by a key already in use.
use shared_mind.Kernel.Depth.{json_depth_exceeds}
use shared_mind.Kernel.Commit.{after_lookup, transaction, ledger_row, commit_row}
use shared_mind.Kernel.Json.{member}
use shared_mind.Kernel.Validate.{
  validate_versions, validate_required_operation_reads, validate_reads_and_guards,
}
use shared_mind.Kernel.Host.{sha256_json}
use shared_mind.Base.{
  for_each, fold_result, contains, sorted, distinct, keys, find, insert, String-discrete, ◌≡◌, ◌≢◌,
  ◌==◌, eq_iff, ◌⊎◌, refl, sym, subst, ◌∙◌, String, true, none, some, [], ◌∷◌, ok, Result, arith,
}
use shared_mind.Continuity.Reads.{required_reads}
use shared_mind.Kernel.References.{
  validate_continuity_references, predicted_conflict_ids, require, namespace,
}
use shared_mind.Kernel.Semantics.{
  predicate_of, family_key, conflict_kind, validate_predicate_semantics,
  validate_evidence_interpretations,
}
use shared_mind.Kernel.Conflicts.{
  resolved_conflict_of, conflict_id_of, members_of_kind, insert_unique, open_conflicts,
  open_conflict_of,
}
use shared_mind.Continuity.Reducers.{reduce, reduce_record_decision}
use shared_mind.Kernel.Receipts.{
  prior_receipt, column_text, has_entry_hash, insert_receipt, next_ledger_seq, first_receipt,
}
use shared_mind.Kernel.Operations.{apply_operation}
use shared_mind.Kernel.Claims.{assert_claim}
use shared_mind.Documents.{Predicate, ObjectValue-discrete, ConflictKind-discrete}
use shared_mind.Continuity.Errors.{Failure, Code}
use shared_mind.Continuity.Errors
use shared_mind.Kernel.Host.{sha256_bytes}
use shared_mind.Kernel.State.{Database, ReceiptRow, new_database, validation_error}
use shared_mind.Kernel.Commit.Chain.{Reached, start, call, Reached-IsConsistent, IsConsistent}
use shared_mind.Kernel.Commit.Idempotency.{
  IsWithinLimits, same, commit_row-repeated, commit_row-reused,
}
use shared_mind.Kernel.Replay.{replay_rows}
use shared_mind.Kernel.Replay.Families.{Separates}
use shared_mind.Kernel.Replay.History.{replay_rows-Reached}
use shared_mind.Kernel.Tests.Data.{
  text_field, host, colors, color, submitted, other, now, database_of, receipt_of, is_ok, ok_parts,
}

abbrev painted : Result Failure (Database × ReceiptRow)
painted = commit_row host colors now submitted new_database

painted-is_ok : is_ok painted ≡ true
unfolding commit_row json_depth_exceeds first_receipt transaction text_field member after_lookup
    prior_receipt column_text validate_versions sha256_json validate_required_operation_reads
    for_each required_reads validate_reads_and_guards validate_continuity_references
    predicted_conflict_ids fold_result predicate_of contains family_key conflict_kind
    resolved_conflict_of conflict_id_of sorted distinct reduce reduce_record_decision has_entry_hash
    insert_receipt ledger_row next_ledger_seq members_of_kind require namespace keys apply_operation
    assert_claim validate_predicate_semantics validate_evidence_interpretations insert_unique find
    open_conflicts insert ObjectValue-discrete String-discrete ConflictKind-discrete
    open_conflict_of
painted-is_ok = refl

abbrev after : Database
after = database_of new_database painted

abbrev receipt : ReceiptRow
receipt = receipt_of painted painted-is_ok

painted-ok : painted ≡ ok (after, receipt)
painted-ok = ok_parts new_database painted painted-is_ok

-- Every predicate of the registry is the one that it has.
one_predicate : (key : String) (d : Predicate) → predicate_of colors key ≡ some d → color ≡ d
unfolding predicate_of
one_predicate key d e = ground (arith, e)

pub separates : Separates host colors
separates p q d e known known' same_key =
    subst (λ x. family_key host q x ≡ family_key host p d)
      (sym (one_predicate p.predicate d known) ∙ one_predicate q.predicate e known') same_key

painting-Reached : Reached host colors after
painting-Reached = call now submitted receipt start painted-ok

replay_rows-Reached_example : replay_rows host colors after.ledger ≡ ok after.tables
replay_rows-Reached_example = replay_rows-Reached host colors separates painting-Reached

Reached-IsConsistent_example : IsConsistent host after
Reached-IsConsistent_example = Reached-IsConsistent host colors painting-Reached

submitted-IsWithinLimits : IsWithinLimits host submitted (3 ∷ [])
unfolding json_depth_exceeds
submitted-IsWithinLimits = record { encodes = refl; depth = refl; size = refl }

commit_row-repeated_example : commit_row host colors now submitted after ≡ ok (after, receipt)
unfolding first_receipt prior_receipt member
commit_row-repeated_example =
    commit_row-repeated host colors now now submitted (3 ∷ []) new_database after after receipt
      submitted-IsWithinLimits refl painted-ok same

-- another value, which the contract refuses, under the same key
abbrev refused : Result Failure (Database × ReceiptRow)
refused = commit_row host colors now other new_database

refused-is_ok : is_ok refused ≡ true
unfolding commit_row json_depth_exceeds first_receipt transaction text_field member after_lookup
    prior_receipt column_text insert_receipt sha256_bytes
refused-is_ok = refl

abbrev later : Database
later = database_of new_database refused

abbrev refusal : ReceiptRow
refusal = receipt_of refused refused-is_ok

refused-ok : refused ≡ ok (later, refusal)
refused-ok = ok_parts new_database refused refused-is_ok

abbrev reused : Result Failure (Database × ReceiptRow)
reused = commit_row host colors now submitted later

reused-is_ok : is_ok reused ≡ true
unfolding commit_row json_depth_exceeds first_receipt transaction text_field member after_lookup
    prior_receipt column_text insert_receipt sha256_bytes
reused-is_ok = refl

abbrev last : Database
last = database_of later reused

abbrev reuse_receipt : ReceiptRow
reuse_receipt = receipt_of reused reused-is_ok

differ : refusal.proposal_hash ≢ sha256_bytes host (3 ∷ [])
unfolding commit_row json_depth_exceeds first_receipt transaction text_field member after_lookup
    prior_receipt column_text insert_receipt sha256_bytes
differ e =
    let q : (refusal.proposal_hash == sha256_bytes host (3 ∷ [])) ≡ true =
      (eq_iff refusal.proposal_hash (sha256_bytes host (3 ∷ []))).1 e in
    cc q

commit_row-reused_example :
    (last ≡ record later { receipts = reuse_receipt ∷ later.receipts })
    × (reuse_receipt.outcome ≡ validation_error)
    × ((reuse_receipt.reason_codes ≡ Errors.idempotency_key_reuse ∷ [])
        ⊎ (reuse_receipt.reason_codes ≡ Errors.decision_receipt_schema_invalid ∷ []))
    × (reuse_receipt.ledger_seq ≡ none)
unfolding commit_row json_depth_exceeds first_receipt transaction text_field member after_lookup
    prior_receipt column_text insert_receipt sha256_bytes
commit_row-reused_example =
    commit_row-reused host colors now submitted (3 ∷ []) later last refusal reuse_receipt
      submitted-IsWithinLimits refl differ (ok_parts later reused reused-is_ok)
