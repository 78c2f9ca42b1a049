-- ===== src/Kernel/Commit.antt =====
-- `Kernel.commit`: the preflight, the transaction, and the receipt of every outcome.
pub mod Receipts
pub mod Outcomes
pub mod Encodings
pub mod Chain
pub mod Idempotency
use shared_mind.Base.{
  ℕ, String, Bool, true, false, not, ◌&&◌, Option, none, some, List, [], ◌∷◌, ◌==◌, ltb,
  if◌then◌else◌, length, map, sorted, distinct, order_by_key, Table, Result, ok, err, ◌>>=◌, ◌>>◌,
  raise_if, or_raise, fold_result,
}
use shared_mind.Documents.{Actor, Registry, Event, Proposal}
use shared_mind.Continuity.Errors.{
  Code, Failure, continuity_conflict, continuity_validation, validation_failure, integrity_error,
  value_error, uncaught,
}
use shared_mind.Continuity.Errors
use shared_mind.Kernel.Json.{Json, object, text, field, end, get, member}
use shared_mind.Kernel.Depth.{json_depth_exceeds}
use shared_mind.Kernel.Host.{
  Host, StateDocument, Encoding, encoded, recursion_error, type_error, sha256_bytes, sha256_json,
  envelope, state,
}
use shared_mind.Kernel.State.{
  Bytes, SourceRow, Tables, Envelope, LedgerDocument, LedgerRow, Outcome, committed, fact_conflict,
  transaction_conflict, validation_error, ReceiptRow, Database, Receipt,
}
use shared_mind.Kernel.Operations
use shared_mind.Kernel.Operations.{Progress}
use shared_mind.Kernel.Validate.{
  validate_versions, validate_required_operation_reads, validate_reads_and_guards,
}
use shared_mind.Kernel.References.{validate_continuity_references}
use shared_mind.Kernel.Receipts.{
  ReceiptRequest, insert_receipt, next_ledger_seq, head_entry_hash, has_entry_hash, prior_receipt,
  row_to_receipt,
}

abbrev pub max_proposal_bytes : ℕ
max_proposal_bytes = 1048576

abbrev pub max_proposal_depth : ℕ
max_proposal_depth = 64

-- {"content": sha256_bytes(...)} beside the columns of a source
hash_contents : Host → Table SourceRow → Table (SourceRow × String)
hash_contents h [] = []
hash_contents h ((k, row) ∷ rows) = (k, (row, sha256_bytes h row.content)) ∷ hash_contents h rows

-- `_state_root_for_schema`, for the contracts after 1.0.0
unfoldable pub state_root : Host → Tables → String
unfolding hash_contents
state_root h t = sha256_json h (
    state (record {
      sources = hash_contents h (order_by_key t.sources);
      claims = order_by_key t.claims;
      evidence = order_by_key t.evidence;
      conflicts = order_by_key t.conflicts;
      continuity = record {
        decision_records = order_by_key t.continuity.decision_records;
        open_questions = order_by_key t.continuity.open_questions;
        work_items = order_by_key t.continuity.work_items;
      };
    }))

-- `_ledger_envelope`
abbrev pub envelope_of : LedgerRow → Envelope
envelope_of row = record {
  seq = row.seq;
  prev_hash = row.prev_hash;
  proposal_hash = row.proposal_hash;
  pre_state_root = row.pre_state_root;
  post_state_root = row.state_root;
  versions = row.proposal.versions;
  events = row.events;
  committed_at = row.committed_at;
}

-- `_ledger_document`, before it is validated
abbrev pub document_of : LedgerRow → LedgerDocument
document_of row = record {
  entry_id = row.seq;
  seq = row.seq;
  prev_hash = row.prev_hash;
  entry_hash = row.entry_hash;
  pre_state_root = row.pre_state_root;
  post_state_root = row.state_root;
  proposal_id = row.proposal.proposal_id;
  proposal_hash = row.proposal_hash;
  versions = row.proposal.versions;
  events = row.events;
  committed_at = row.committed_at;
}

-- What `_commit` has computed of a submitted value when its transaction begins.
pub record Submission : Type 0 where
  pub key : Json
  pub proposal_hash : String
  pub proposal_id : Json
  pub proposer : Option Actor
  pub decided_at : String
  pub head_before : Option String
  -- what `_validate_contract_object` and the checks after it raise of a value that is no proposal
  pub refusal : Failure

-- `_insert_receipt(..., outcome, reasons, None, self.state_root(), ())` of a rejection
abbrev pub rejection : Host → Tables → Submission → Outcome → Code → Option String → ReceiptRequest
rejection h t s outcome reason decided_at = record {
  key = s.key;
  proposal_hash = s.proposal_hash;
  proposal_id = s.proposal_id;
  outcome = outcome;
  reasons = reason ∷ [];
  ledger_seq = none;
  root = state_root h t;
  conflicts = [];
  proposer = s.proposer;
  head_before = s.head_before;
  decided_at = decided_at;
}

-- FACT_CONFLICT if any conflict was opened
unfoldable pub outcome_of : List String → Outcome
outcome_of [] = committed
outcome_of (_ ∷ _) = fact_conflict

-- `_insert_receipt(...)` of an accepted proposal
unfoldable pub acceptance : Submission → Proposal → LedgerRow → List String → ReceiptRequest
unfolding outcome_of
acceptance s p row conflict_ids = record {
  key = s.key;
  proposal_hash = s.proposal_hash;
  proposal_id = text p.proposal_id;
  outcome = outcome_of conflict_ids;
  reasons = [];
  ledger_seq = some row.seq;
  root = row.state_root;
  conflicts = conflict_ids;
  proposer = s.proposer;
  head_before = s.head_before;
  decided_at = some p.proposed_at;
}

-- {"malformed_proposal_type": ..., "proposal_id": ..., "idempotency_key": ...}
unfoldable pub stand_in : String → Json → Json
unfolding member
stand_in type j = object (
    field "malformed_proposal_type" (text type) (
      field "proposal_id" (member "proposal_id" j)
        (field "idempotency_key" (member "idempotency_key" j) end)))

abbrev pub encoded_bytes : Encoding → Option Bytes
encoded_bytes (encoded bytes) = some bytes
encoded_bytes _ = none

module _ (h : Host) (reg : Registry) where
  -- The checks of a proposal, in their order.
  unfoldable pub validate_proposal : Tables → Proposal → Result Failure (Unit {0})
  validate_proposal t p = do
    validate_versions h reg p.versions
    validate_required_operation_reads p
    validate_reads_and_guards h reg t p
    validate_continuity_references h reg t p.operations

  -- for operation in proposal["operations"]: self._apply_operation(...)
  unfoldable pub apply_operations : Proposal → ℕ → Tables → Result Failure Progress
  apply_operations p seq t =
      fold_result (Operations.apply_operation h reg p.proposer seq) p.operations (t, [], [])

  -- The ledger row of an accepted proposal, its document and its hash still open.
  unfoldable pub open_row : Proposal → String → Database → Tables → List Event → String → LedgerRow
  open_row p proposal_hash db t' events entry_hash = record {
    seq = next_ledger_seq db.ledger;
    prev_hash = head_entry_hash db.ledger;
    entry_hash = entry_hash;
    proposal_hash = proposal_hash;
    proposal = p;
    events = events;
    pre_state_root = state_root h db.tables;
    state_root = state_root h t';
    committed_at = p.proposed_at;
    document = some record {
      entry_id = next_ledger_seq db.ledger;
      seq = next_ledger_seq db.ledger;
      prev_hash = head_entry_hash db.ledger;
      entry_hash = entry_hash;
      pre_state_root = state_root h db.tables;
      post_state_root = state_root h t';
      proposal_id = p.proposal_id;
      proposal_hash = proposal_hash;
      versions = p.versions;
      events = events;
      committed_at = p.proposed_at;
    };
  }

  -- `entry_hash = sha256_json(envelope)`; the envelope has no entry hash
  unfoldable pub ledger_row : Proposal → String → Database → Tables → List Event → LedgerRow
  unfolding open_row
  ledger_row p proposal_hash db t' events =
      open_row p proposal_hash db t' events
        (sha256_json h (envelope (envelope_of (open_row p proposal_hash db t' events ""))))

  -- The transaction of a new idempotency key, from the contract check to the COMMIT.
  unfoldable pub transaction :
      String → Submission → Option Proposal → Database → Result Failure (Database × ReceiptRow)
  unfolding validate_proposal apply_operations acceptance
  transaction now s contract db = do
    p ← or_raise contract s.refusal
    validate_proposal db.tables p
    (t', events, opened) ← apply_operations p (next_ledger_seq db.ledger) db.tables
    let row = ledger_row p s.proposal_hash db t' events
    let conflict_ids = sorted (distinct opened)
    raise_if (not (h.ledger_entry_valid (document_of row)))
        (validation_failure Errors.ledger_entry_schema_invalid)
    raise_if (has_entry_hash row.entry_hash db.ledger) (integrity_error Errors.duplicate_object_id)
    insert_receipt h now (acceptance s p row conflict_ids)
        (record db { tables = t'; ledger = row ∷ db.ledger })

  -- The `except` clauses: ROLLBACK, and the receipt of the rejection in a transaction of its own.
  unfoldable pub recover :
      String
      → Submission
      → Database
      → Result Failure (Database × ReceiptRow)
      → Result Failure (Database × ReceiptRow)
  recover now s db (ok done) = ok done
  recover now s db (err (Failure.transaction_conflict code)) =
      insert_receipt h now (rejection h db.tables s transaction_conflict code (some s.decided_at))
        db
  recover now s db (err (integrity_error code)) =
      insert_receipt h now (rejection h db.tables s validation_error code (some s.decided_at)) db
  recover now s db (err (validation_failure code)) =
      insert_receipt h now (rejection h db.tables s validation_error code (some s.decided_at)) db
  recover now s db (err value_error) =
      insert_receipt h now
        (rejection h db.tables s validation_error Errors.malformed_proposal (some s.decided_at)) db
  recover now s db (err e) = err e

  -- A key that has a receipt: the same proposal gets it back, another one is rejected.
  unfoldable pub known_key :
      String → Submission → Database → ReceiptRow → Result Failure (Database × ReceiptRow)
  known_key now s db prior =
      if prior.proposal_hash == s.proposal_hash
      then ok (db, prior)
      else insert_receipt h now
          (rejection h db.tables s validation_error Errors.idempotency_key_reuse
            (some s.decided_at))
          db

  unfoldable pub after_lookup :
      String
      → Submission
      → Option Proposal
      → Database
      → Option ReceiptRow
      → Result Failure (Database × ReceiptRow)
  unfolding known_key transaction
  after_lookup now s contract db (some prior) = known_key now s db prior
  after_lookup now s contract db none = transaction now s contract db

  unfoldable pub submit :
      String → Submission → Option Proposal → Database → Result Failure (Database × ReceiptRow)
  unfolding recover after_lookup prior_receipt
  submit now s contract db =
      recover now s db
        (prior_receipt h s.key db.receipts >>= λ found. after_lookup now s contract db found)

  -- The failure on a value for which the contract has no proposal: a document of another type passes
  -- the contract, and fails on its versions or on the first field that it does not have.
  unfoldable pub contract_failure : Json → Failure
  contract_failure j = elim (h.other_document j) [
    | none ↦ validation_failure Errors.schema_validation_failed
    | some none ↦ value_error
    | some (some versions) ↦ elim (validate_versions h reg versions) [
      | ok _ ↦ value_error
      | err e ↦ e
    ]
  ]

  -- `_proposal_decided_at`
  unfoldable pub proposal_decided_at : String → Json → String
  proposal_decided_at now j = elim (get "proposed_at" j) [
    | some (text t) ↦ if h.has_offset t then t else now
    | _ ↦ now
  ]

  -- `_representable_proposer`
  unfoldable pub representable_proposer : Json → Option Actor
  representable_proposer j = elim (get "proposer" j) [
    | some candidate ↦ h.actor_ref candidate
    | none ↦ none
  ]

  unfoldable pub submission : String → Json → Database → String → Submission
  unfolding member contract_failure
  submission now j db proposal_hash = record {
    key = member "idempotency_key" j;
    proposal_hash = proposal_hash;
    proposal_id = member "proposal_id" j;
    proposer = representable_proposer j;
    decided_at = proposal_decided_at now j;
    head_before = head_entry_hash db.ledger;
    refusal = contract_failure j;
  }

  -- The receipt of a value that has no canonical JSON.
  unfoldable pub reject_hashed :
      String → Json → Bool → String → Database → Result Failure (Database × ReceiptRow)
  unfolding submission
  reject_hashed now j too_deep hash db =
      let s = submission now j db hash in
      if too_deep
      then insert_receipt h now
          (rejection h db.tables s validation_error Errors.proposal_too_deep (some s.decided_at)) db
      else insert_receipt h now
          (rejection h db.tables s validation_error Errors.malformed_proposal none) db

  -- A value that has no canonical JSON, nor has its stand-in if its identifier or key has none.
  unfoldable pub reject_unencodable :
      String → Json → Bool → Database → Result Failure (Database × ReceiptRow)
  unfolding reject_hashed stand_in
  reject_unencodable now j too_deep db =
      or_raise (encoded_bytes (h.encode (stand_in (h.type_name j) j))) uncaught >>= λ bytes.
      reject_hashed now j too_deep (sha256_bytes h bytes) db

  unfoldable pub preflight :
      String → Json → Bool → Bytes → Database → Result Failure (Database × ReceiptRow)
  unfolding submission submit
  preflight now j too_deep bytes db =
      let s = submission now j db (sha256_bytes h bytes) in
      if too_deep
      then insert_receipt h now
          (rejection h db.tables s validation_error Errors.proposal_too_deep (some s.decided_at)) db
      else if ltb max_proposal_bytes (length bytes)
      then insert_receipt h now
          (rejection h db.tables s validation_error Errors.proposal_too_large (some s.decided_at))
          db
      else submit now s (h.contract j) db

  -- `commit` at the time `now`, of a submitted value.
  unfoldable pub commit_row : String → Json → Database → Result Failure (Database × ReceiptRow)
  unfolding reject_unencodable preflight
  commit_row now j db =
      let too_deep = json_depth_exceeds j max_proposal_depth in
      elim (h.encode j) [
        | encoded bytes ↦ preflight now j too_deep bytes db
        | recursion_error ↦ reject_unencodable now j too_deep db
        | type_error ↦ reject_unencodable now j false db
      ]

  unfoldable pub commit : String → Json → Database → Result Failure (Database × Receipt)
  unfolding commit_row
  commit now j db = commit_row now j db >>= λ (db', row). ok (db', row_to_receipt row)
