-- ===== src/Kernel/State.antt =====
-- The tables of the kernel's database. A column that stores a document as canonical JSON holds the
-- document. `ledger` and `receipts` are in the descending order of `seq` and `id`.
use shared_mind.Base.{ℕ, String, Option, List, [], Table}
use shared_mind.Documents.{
  Actor, SourceRevision, Proposition, Claim, ClaimStatus, EvidenceLink, ConflictKind,
  ConflictStatus, Resolution, VersionBundle, Event, Proposal,
}
use shared_mind.Continuity.Errors.{Code}
use shared_mind.Continuity.Rows

abbrev pub Bytes : Type 0
Bytes = List ℕ

pub record SourceRow : Type 0 where
  pub content_hash : String
  pub document : SourceRevision
  pub content : Bytes

pub record ClaimRow : Type 0 where
  pub proposition_hash : String
  pub proposition : Proposition
  pub document : Claim
  pub status : ClaimStatus
  pub version : ℕ
  pub superseded_by : Option String

pub record EvidenceRow : Type 0 where
  pub claim_id : String
  pub source_revision_id : String
  pub document : EvidenceLink

pub record ConflictRow : Type 0 where
  pub family_key : String
  pub kind : ConflictKind
  pub member_digest : String
  pub members : List String
  pub status : ConflictStatus
  pub episode : ℕ
  pub version : ℕ
  pub resolution : Option Resolution
  pub opened_seq : ℕ

-- The materialized state: all that an operation can change.
pub record Tables : Type 0 where
  pub sources : Table SourceRow
  pub claims : Table ClaimRow
  pub evidence : Table EvidenceRow
  pub conflicts : Table ConflictRow
  pub continuity : Rows.State

-- The hashed part of a ledger entry.
pub record Envelope : Type 0 where
  pub seq : ℕ
  pub prev_hash : Option String
  pub proposal_hash : String
  pub pre_state_root : String
  pub post_state_root : String
  pub versions : VersionBundle
  pub events : List Event
  pub committed_at : String

-- The document of a ledger entry; `entry_id` is the number in its text.
pub record LedgerDocument : Type 0 where
  pub entry_id : ℕ
  pub seq : ℕ
  pub prev_hash : Option String
  pub entry_hash : String
  pub pre_state_root : String
  pub post_state_root : String
  pub proposal_id : String
  pub proposal_hash : String
  pub versions : VersionBundle
  pub events : List Event
  pub committed_at : String

pub record LedgerRow : Type 0 where
  pub seq : ℕ
  pub prev_hash : Option String
  pub entry_hash : String
  pub proposal_hash : String
  pub proposal : Proposal
  pub events : List Event
  pub pre_state_root : String
  pub state_root : String
  pub committed_at : String
  -- NULL in rows of an older contract
  pub document : Option LedgerDocument

pub data Outcome : Type 0 where
  committed fact_conflict transaction_conflict validation_error : Outcome

-- The document of a decision receipt; `receipt_id` is the number in its text.
pub record ReceiptDocument : Type 0 where
  pub receipt_id : ℕ
  pub proposal_id : Option String
  pub proposal_hash : String
  pub idempotency_key : Option String
  pub outcome : Outcome
  pub reason_codes : List Code
  pub head_before : Option String
  pub head_after : Option String
  pub ledger_entry_id : Option ℕ
  pub conflict_ids : List String
  pub decided_at : String
  pub proposer : Option Actor

pub record ReceiptRow : Type 0 where
  pub id : ℕ
  pub idempotency_key : String
  pub proposal_hash : String
  pub proposal_id : String
  pub outcome : Outcome
  pub reason_codes : List Code
  pub ledger_seq : Option ℕ
  pub state_root : String
  pub conflict_ids : List String
  pub proposer : Option Actor
  pub document : ReceiptDocument
  pub schema_version : String

pub record Database : Type 0 where
  pub tables : Tables
  pub ledger : List LedgerRow
  pub receipts : List ReceiptRow

-- What `commit` returns.
pub record Receipt : Type 0 where
  pub proposal_id : String
  pub outcome : Outcome
  pub reason_codes : List Code
  pub ledger_seq : Option ℕ
  pub state_root : String
  pub conflict_ids : List String
  pub document : ReceiptDocument

abbrev pub no_tables : Tables
no_tables = record {
  sources = [];
  claims = [];
  evidence = [];
  conflicts = [];
  continuity = Rows.empty;
}

abbrev pub new_database : Database
new_database = record { tables = no_tables; ledger = []; receipts = [] }
