-- ===== src/Kernel/Verify.antt =====
-- `_verify_ledger_rows` of src/shared_mind/kernel.py, for the contracts after 1.0.0.
pub mod Rows
pub mod Entries
pub mod Histories
pub mod Documents
pub mod Whole
pub mod Opened
pub mod Proposals
pub mod Receipts
pub mod Recorded
pub mod Calls
pub mod Counts
pub mod Valid
use shared_mind.Base.{
  ℕ, ◌+◌, String, Bool, true, false, not, ◌||◌, ◌&&◌, Option, none, some, List, [], ◌∷◌, ◌++◌, ◌==◌,
  reverse, nat_eq, is_nil, if◌then◌else◌, equal, contains, String-discrete, Option_String-discrete,
  ℕ_discrete,
}
use shared_mind.Documents.{Actor, Registry, Event, Proposal}
use shared_mind.Continuity.Errors.{Code}
use shared_mind.Kernel.Host.{Host, sha256_bytes, sha256_json, envelope, registry}
use shared_mind.Kernel.State.{Bytes, LedgerDocument, LedgerRow}
use shared_mind.Kernel.Commit.{envelope_of, document_of}

-- An error of the verification, with the number that its text ends with.
pub data Flaw : Type 0 where
  ledger_sequence_gap previous_hash_mismatch proposal_hash_mismatch proposal_schema_invalid :
      ℕ → Flaw
  predicate_registry_content_mismatch ledger_event_schema_invalid ledger_document_mismatch :
      ℕ → Flaw
  incomplete_ledger_entry entry_hash_mismatch unsupported_ledger_schema : ℕ → Flaw
  receipt_document_mismatch materialized_state_root_mismatch : ℕ → Flaw
  accepted_receipt_coverage_mismatch : ℕ → ℕ → Flaw
  replay_state_root_mismatch : Flaw
  -- the code of the ValidationFailure that replay has raised
  replay_failed : Code → Flaw

-- What the verification calls outside the repository on the stored columns, beside `Host`.
pub record Reader : Type 0 where
  -- the canonical JSON of a stored proposal
  pub proposal_bytes : Proposal → Bytes
  -- contract_validator and ledger_event_validator
  pub proposal_valid : Proposal → Bool
  pub event_valid : Event → Bool
  -- the actor_ref validator on the proposer of a stored proposal
  pub proposer_of : Proposal → Option Actor
  -- whether the text in the document column of a row is the canonical JSON of the document
  pub canonical_document : LedgerRow → Bool
  -- the checks of a row of contract 1.0.0, whose events have another form
  pub legacy_flaws : LedgerRow → List Flaw

unfoldable pub LedgerDocument-discrete : Discrete LedgerDocument
unfolding String-discrete Option_String-discrete
LedgerDocument-discrete = hlevel (String-discrete, ℕ_discrete)

abbrev pub flag : Bool → Flaw → List Flaw
flag true flaw = flaw ∷ []
flag false flaw = []

unfoldable pub all_events : (Event → Bool) → List Event → Bool
all_events f [] = true
all_events f (e ∷ es) = f e && all_events f es

-- READABLE_SCHEMA_VERSIONS - {"1.0.0"}
abbrev pub readable_versions : List String
readable_versions = "1.1.0" ∷ "1.2.0" ∷ "1.3.0" ∷ []

module _ (h : Host) (reader : Reader) (reg : Registry) where
  -- The checks of a row that has the columns of a complete entry.
  unfoldable pub entry_flaws : LedgerRow → List Flaw
  entry_flaws row =
      if row.pre_state_root == "" || row.committed_at == ""
      then incomplete_ledger_entry row.seq ∷ []
      else flag (not (sha256_json h (envelope (envelope_of row)) == row.entry_hash))
          (entry_hash_mismatch row.seq)

  -- A row of contract 1.1.0 need not have a document.
  unfoldable pub document_mismatch : LedgerRow → Option LedgerDocument → Bool
  unfolding LedgerDocument-discrete
  document_mismatch row none = not (row.proposal.versions.schema == "1.1.0")
  document_mismatch row (some document) =
      not (h.ledger_entry_valid document)
      || not (equal LedgerDocument-discrete document (document_of row))
      || not (reader.canonical_document row)

  unfoldable pub document_flaws : LedgerRow → List Flaw
  unfolding document_mismatch
  document_flaws row = flag (document_mismatch row row.document) (ledger_document_mismatch row.seq)

  unfoldable pub schema_flaws : LedgerRow → List Flaw
  unfolding contains all_events document_flaws entry_flaws
  schema_flaws row =
      let schema = row.proposal.versions.schema in
      if schema == "1.0.0"
      then reader.legacy_flaws row
      else if contains schema readable_versions
      then flag
          (not (row.proposal.versions.predicate_registry_hash == sha256_json h (registry reg)))
          (predicate_registry_content_mismatch row.seq)
        ++ flag (is_nil row.events || not (all_events reader.event_valid row.events))
            (ledger_event_schema_invalid row.seq)
        ++ document_flaws row
        ++ entry_flaws row
      else unsupported_ledger_schema row.seq ∷ []

  unfoldable pub row_flaws : ℕ → Option String → LedgerRow → List Flaw
  unfolding Option_String-discrete schema_flaws
  row_flaws expected_seq expected_prev row =
      flag (not (nat_eq row.seq expected_seq)) (ledger_sequence_gap row.seq)
      ++ flag (not (equal Option_String-discrete row.prev_hash expected_prev))
          (previous_hash_mismatch row.seq)
      ++ flag (not (sha256_bytes h (reader.proposal_bytes row.proposal) == row.proposal_hash))
          (proposal_hash_mismatch row.seq)
      ++ flag (not (reader.proposal_valid row.proposal)) (proposal_schema_invalid row.seq)
      ++ schema_flaws row

  -- The loop over the rows, in the order of `seq`.
  unfoldable pub rows_from : ℕ → Option String → List LedgerRow → List Flaw
  unfolding row_flaws
  rows_from expected_seq expected_prev [] = []
  rows_from expected_seq expected_prev (row ∷ rows) =
      row_flaws expected_seq expected_prev row
      ++ rows_from (expected_seq + 1) (some row.entry_hash) rows

  unfoldable pub verify_ledger_rows : List LedgerRow → List Flaw
  unfolding rows_from
  verify_ledger_rows ledger = rows_from 1 none (reverse ledger)
