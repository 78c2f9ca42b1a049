-- ===== src/Kernel/Verify/Documents.antt =====
-- `_conflict_ids_from_events`, `_verify_accepted_receipt_coverage` and `_verify_receipt_documents` of
-- src/shared_mind/kernel.py. A receipt of this model has a document with a proposer; the receipts of
-- contracts 1.0.0 and 1.1.0, which have none, and those of 1.2.0 without a proposer are left out.
use shared_mind.Base.{
  ℕ, ◌+◌, String, Bool, true, false, not, ◌||◌, ◌&&◌, Option, none, some, List, [], ◌∷◌, ◌++◌, ◌==◌,
  reverse, nat_eq, if◌then◌else◌, equal, sorted, distinct, String-discrete, Option_String-discrete,
  ℕ_discrete,
}
use shared_mind.Documents.{Actor, Event, conflict_opened}
use shared_mind.Continuity.Errors.{Code}
use shared_mind.Kernel.Host.{Host}
use shared_mind.Kernel.State.{
  LedgerRow, LedgerDocument, ReceiptRow, ReceiptDocument, Database, Outcome, committed,
  fact_conflict,
}
use shared_mind.Kernel.Validate.{schema_version}
use shared_mind.Kernel.Receipts.{ledger_entry, filter_text}
use shared_mind.Kernel.Commit.{state_root, outcome_of}
use shared_mind.Kernel.Verify.{
  Flaw, Reader, flag, receipt_document_mismatch, accepted_receipt_coverage_mismatch,
}

unfoldable pub Outcome-discrete : Discrete Outcome
Outcome-discrete = hlevel

unfoldable pub ReceiptDocument-discrete : Discrete ReceiptDocument
unfolding String-discrete
ReceiptDocument-discrete = hlevel (String-discrete, ℕ_discrete)

unfoldable pub Codes-discrete : Discrete (List Code)
unfolding String-discrete
Codes-discrete = hlevel (String-discrete, ℕ_discrete)

unfoldable pub Strings-discrete : Discrete (List String)
unfolding String-discrete
Strings-discrete = hlevel String-discrete

unfoldable pub Proposer-discrete : Discrete (Option Actor)
unfolding String-discrete
Proposer-discrete = hlevel String-discrete

-- The conflicts that the events open, in their order.
unfoldable pub opened_in : List Event → List String
opened_in [] = []
opened_in (conflict_opened c ∷ events) = c.conflict_id ∷ opened_in events
opened_in (_ ∷ events) = opened_in events

unfoldable pub conflict_ids_from_events : List Event → List String
unfolding opened_in
conflict_ids_from_events events = sorted (distinct (opened_in events))

-- outcome IN ('COMMITTED', 'FACT_CONFLICT')
abbrev pub is_accepted : Outcome → Bool
is_accepted committed = true
is_accepted fact_conflict = true
is_accepted _ = false

abbrev pub names_entry : ℕ → Option ℕ → Bool
names_entry seq none = false
names_entry seq (some n) = nat_eq n seq

-- SELECT COUNT(*) ... WHERE outcome IN (...) GROUP BY ledger_seq
unfoldable pub receipt_count : ℕ → List ReceiptRow → ℕ
receipt_count seq [] = 0
receipt_count seq (r ∷ rs) =
    let rest = receipt_count seq rs in
    if names_entry seq r.ledger_seq && is_accepted r.outcome then rest + 1 else rest

-- for ledger in ledger_rows: ...
unfoldable pub coverage_from : List ReceiptRow → List LedgerRow → List Flaw
unfolding receipt_count
coverage_from receipts [] = []
coverage_from receipts (row ∷ rows) =
    let count = receipt_count row.seq receipts in
    flag (not (nat_eq count 1)) (accepted_receipt_coverage_mismatch row.seq count)
    ++ coverage_from receipts rows

unfoldable pub verify_accepted_receipt_coverage : Database → List Flaw
unfolding coverage_from
verify_accepted_receipt_coverage db = coverage_from db.receipts (reverse db.ledger)

-- the state root before the first entry
unfoldable pub oldest_pre_root : String → List LedgerRow → String
oldest_pre_root root [] = root
oldest_pre_root root (row ∷ rows) = oldest_pre_root row.pre_state_root rows

unfoldable pub root_of_entry : String → List LedgerRow → Option String
root_of_entry hash [] = none
root_of_entry hash (row ∷ rows) =
    let rest = root_of_entry hash rows in
    if row.entry_hash == hash then some row.state_root else rest

-- row["schema_version"] in the versions whose receipts have a proposer
abbrev pub has_schema : String → Bool
has_schema version = version == schema_version || version == "1.2.0"

module _ (h : Host) where
  -- What the document of a rejection must be; its time is not compared.
  unfoldable pub rejected_document : Option String → ReceiptRow → ReceiptDocument
  rejected_document head row = record {
    receipt_id = row.id;
    proposal_id = filter_text h.is_record_id row.proposal_id;
    proposal_hash = row.proposal_hash;
    idempotency_key = filter_text h.is_idempotency_key row.idempotency_key;
    outcome = row.outcome;
    reason_codes = row.reason_codes;
    head_before = head;
    head_after = head;
    ledger_entry_id = none;
    conflict_ids = row.conflict_ids;
    decided_at = row.document.decided_at;
    proposer = row.proposer;
  }

module _ (h : Host) (reader : Reader) where
  -- What the document of an accepted proposal must be, by its ledger row.
  unfoldable pub accepted_document : LedgerRow → LedgerDocument → ReceiptRow → ReceiptDocument
  unfolding conflict_ids_from_events outcome_of
  accepted_document entry document row = record {
    receipt_id = row.id;
    proposal_id = some entry.proposal.proposal_id;
    proposal_hash = entry.proposal_hash;
    idempotency_key = some entry.proposal.idempotency_key;
    outcome = outcome_of (conflict_ids_from_events entry.events);
    reason_codes = [];
    head_before = entry.prev_hash;
    head_after = some entry.entry_hash;
    ledger_entry_id = some document.entry_id;
    conflict_ids = conflict_ids_from_events entry.events;
    decided_at = entry.committed_at;
    proposer = reader.proposer_of entry.proposal;
  }

  -- row_mismatch
  unfoldable pub row_mismatch : LedgerRow → ReceiptRow → Bool
  unfolding conflict_ids_from_events outcome_of Outcome-discrete Codes-discrete Strings-discrete
  row_mismatch entry row =
      let opened = conflict_ids_from_events entry.events in
      not (row.proposal_id == entry.proposal.proposal_id)
      || not (row.proposal_hash == entry.proposal_hash)
      || not (row.idempotency_key == entry.proposal.idempotency_key)
      || not (equal Outcome-discrete row.outcome (outcome_of opened))
      || not (equal Codes-discrete row.reason_codes [])
      || not (equal Strings-discrete row.conflict_ids opened)
      || not (row.state_root == entry.state_root)

  unfoldable pub accepted_mismatch : Option String → LedgerRow → LedgerDocument → ReceiptRow → Bool
  unfolding row_mismatch accepted_document Option_String-discrete ReceiptDocument-discrete
      Proposer-discrete
  accepted_mismatch head entry document row =
      not (equal Option_String-discrete entry.prev_hash head)
      || row_mismatch entry row
      || not (has_schema row.schema_version)
      || not (entry.proposal.versions.schema == row.schema_version)
      || not (equal Proposer-discrete row.proposer (reader.proposer_of entry.proposal))
      || not (h.receipt_valid row.document)
      || not (equal ReceiptDocument-discrete row.document (accepted_document entry document row))

module _ (h : Host) (db : Database) where
  -- state_root_by_head.get(head)
  unfoldable pub state_root_by_head : Option String → Option String
  unfolding oldest_pre_root root_of_entry
  state_root_by_head none = some (oldest_pre_root (state_root h db.tables) db.ledger)
  state_root_by_head (some hash) = root_of_entry hash db.ledger

  unfoldable pub rejected_mismatch : Option String → ReceiptRow → Bool
  unfolding state_root_by_head rejected_document Option_String-discrete ReceiptDocument-discrete
  rejected_mismatch head row =
      not (equal Option_String-discrete (some row.state_root) (state_root_by_head head))
      || not (has_schema row.schema_version)
      || not (h.receipt_valid row.document)
      || not (equal ReceiptDocument-discrete row.document (rejected_document h head row))

module _ (h : Host) (reader : Reader) (db : Database) where
  -- A receipt that names this ledger row, by the document of the row.
  unfoldable pub entry_receipt_flaws :
      Option String → ReceiptRow → LedgerRow → Option LedgerDocument → List Flaw
  unfolding accepted_mismatch
  entry_receipt_flaws head row entry none = receipt_document_mismatch row.id ∷ []
  entry_receipt_flaws head row entry (some document) =
      flag (accepted_mismatch h reader head entry document row) (receipt_document_mismatch row.id)

  -- A receipt that names a ledger row, with the row that is found.
  unfoldable pub linked_flaws :
      Option String → ReceiptRow → Option LedgerRow → List Flaw × Option String
  unfolding entry_receipt_flaws
  linked_flaws head row none = (receipt_document_mismatch row.id ∷ [], head)
  linked_flaws head row (some entry) =
      (entry_receipt_flaws head row entry entry.document, some entry.entry_hash)

  unfoldable pub flaws_by_entry : Option String → ReceiptRow → Option ℕ → List Flaw × Option String
  unfolding rejected_mismatch linked_flaws ledger_entry
  flaws_by_entry head row none =
      (flag (rejected_mismatch h db head row) (receipt_document_mismatch row.id), head)
  flaws_by_entry head row (some seq) = linked_flaws head row (ledger_entry seq db.ledger)

  -- One receipt, and the head that it leaves.
  unfoldable pub receipt_flaws : Option String → ReceiptRow → List Flaw × Option String
  unfolding flaws_by_entry
  receipt_flaws head row = flaws_by_entry head row row.ledger_seq

  unfoldable pub receipts_from : Option String → List ReceiptRow → List Flaw
  unfolding receipt_flaws
  receipts_from head [] = []
  receipts_from head (row ∷ rows) =
      let done = receipt_flaws head row in done.0 ++ receipts_from done.1 rows

  unfoldable pub verify_receipt_documents : List Flaw
  unfolding receipts_from
  verify_receipt_documents = receipts_from none (reverse db.receipts)
