-- ===== src/Kernel/Receipts.antt =====
-- Receipts: `_insert_receipt`, and the queries over the ledger and the receipts.
use shared_mind.Base.{
  ℕ, ◌+◌, max, String, Bool, false, not, ◌||◌, Option, none, some, List, [], ◌∷◌, ◌==◌, nat_eq,
  if◌then◌else◌, Result, ok, err, ◌>>=◌, ◌>>◌, raise_if, or_raise,
}
use shared_mind.Documents.{Actor}
use shared_mind.Continuity.Errors.{
  Code, Failure, continuity_conflict, continuity_validation, validation_failure, integrity_error,
  value_error, uncaught,
}
use shared_mind.Continuity.Errors
use shared_mind.Kernel.Json.{Json, null, text, literal}
use shared_mind.Kernel.Host.{Host}
use shared_mind.Kernel.State.{
  LedgerRow, LedgerDocument, Outcome, ReceiptDocument, ReceiptRow, Database, Receipt,
}
use shared_mind.Kernel.Validate.{schema_version}

-- COALESCE(MAX(seq), 0)
unfoldable pub max_seq : List LedgerRow → ℕ
max_seq [] = 0
max_seq (row ∷ rows) = max row.seq (max_seq rows)

unfoldable pub next_ledger_seq : List LedgerRow → ℕ
unfolding max_seq
next_ledger_seq rows = max_seq rows + 1

unfoldable pub max_id : List ReceiptRow → ℕ
max_id [] = 0
max_id (row ∷ rows) = max row.id (max_id rows)

-- SELECT entry_hash FROM ledger ORDER BY seq DESC LIMIT 1
unfoldable pub head_entry_hash : List LedgerRow → Option String
head_entry_hash [] = none
head_entry_hash (row ∷ _) = some row.entry_hash

-- SELECT ... FROM ledger WHERE seq = ?
unfoldable pub ledger_entry : ℕ → List LedgerRow → Option LedgerRow
ledger_entry seq [] = none
ledger_entry seq (row ∷ rows) = if nat_eq row.seq seq then some row else ledger_entry seq rows

unfoldable pub has_entry_hash : String → List LedgerRow → Bool
has_entry_hash hash [] = false
has_entry_hash hash (row ∷ rows) = row.entry_hash == hash || has_entry_hash hash rows

-- SELECT * FROM receipts WHERE idempotency_key = ? ORDER BY id LIMIT 1: the oldest one.
unfoldable pub first_receipt : String → List ReceiptRow → Option ReceiptRow
first_receipt key [] = none
first_receipt key (row ∷ rows) = elim (first_receipt key rows) [
  | some older ↦ some older
  | none ↦ if row.idempotency_key == key then some row else none
]

unfoldable pub row_to_receipt : ReceiptRow → Receipt
row_to_receipt row = record {
  proposal_id = row.proposal_id;
  outcome = row.outcome;
  reason_codes = row.reason_codes;
  ledger_seq = row.ledger_seq;
  state_root = row.state_root;
  conflict_ids = row.conflict_ids;
  document = row.document;
}

-- The arguments of `_insert_receipt`; the key and the identifier are as they were submitted.
pub record ReceiptRequest : Type 0 where
  pub key : Json
  pub proposal_hash : String
  pub proposal_id : Json
  pub outcome : Outcome
  pub reasons : List Code
  pub ledger_seq : Option ℕ
  pub root : String
  pub conflicts : List String
  pub proposer : Option Actor
  pub head_before : Option String
  pub decided_at : Option String

-- What a receipt says of the ledger: its head before and after, and the entry.
pub record Heads : Type 0 where
  pub before : Option String
  pub after : Option String
  pub entry : Option ℕ

abbrev pub filter_text : (String → Bool) → String → Option String
filter_text keep t = if keep t then some t else none

-- `value if isinstance(value, str) and PATTERN.fullmatch(value) else None`
unfoldable pub filter_value : (String → Bool) → Json → Option String
filter_value keep (text t) = filter_text keep t
filter_value keep _ = none

-- What a TEXT NOT NULL column stores for a value, and none where sqlite3 raises.
unfoldable pub column_text : Host → Json → Option String
column_text h (text t) = some t
column_text h (literal l) = h.literal_text l
column_text h _ = none

-- `execute("SELECT * FROM receipts WHERE idempotency_key = ? ...", (key,))`: NULL equals no key.
unfoldable pub prior_receipt : Host → Json → List ReceiptRow → Result Failure (Option ReceiptRow)
unfolding column_text first_receipt
prior_receipt h null rows = ok none
prior_receipt h key rows =
    or_raise (column_text h key) uncaught >>= λ stored. ok (first_receipt stored rows)

-- `decided_at or self._utc_now()`
abbrev pub or_now : String → Option String → String
or_now now none = now
or_now now (some t) = if t == "" then now else t

-- The heads at a ledger row, by its document.
unfoldable pub entry_heads : LedgerRow → Option LedgerDocument → Result Failure Heads
entry_heads row none = err (validation_failure Errors.ledger_document_not_found)
entry_heads row (some document) =
    ok (record {
      before = row.prev_hash;
      after = some row.entry_hash;
      entry = some document.entry_id;
    })

unfoldable pub receipt_heads : Option ℕ → Option String → List LedgerRow → Result Failure Heads
unfolding ledger_entry entry_heads head_entry_hash
receipt_heads (some seq) _ ledger = elim (ledger_entry seq ledger) [
  | none ↦ err (validation_failure Errors.ledger_document_not_found)
  | some row ↦ entry_heads row row.document
]
receipt_heads none (some head) _ =
    ok (record { before = some head; after = some head; entry = none })
receipt_heads none none ledger =
    ok (record { before = head_entry_hash ledger; after = head_entry_hash ledger; entry = none })

module _ (h : Host) (now : String) where
  unfoldable pub receipt_document : ReceiptRequest → Heads → ℕ → ReceiptDocument
  unfolding filter_value
  receipt_document r heads ordinal = record {
    receipt_id = ordinal;
    proposal_id = filter_value h.is_record_id r.proposal_id;
    proposal_hash = r.proposal_hash;
    idempotency_key = filter_value h.is_idempotency_key r.key;
    outcome = r.outcome;
    reason_codes = r.reasons;
    head_before = heads.before;
    head_after = heads.after;
    ledger_entry_id = heads.entry;
    conflict_ids = r.conflicts;
    decided_at = or_now now r.decided_at;
    proposer = r.proposer;
  }

  unfoldable pub insert_receipt : ReceiptRequest → Database → Result Failure (Database × ReceiptRow)
  unfolding receipt_heads receipt_document max_id column_text
  insert_receipt r db = do
    heads ← receipt_heads r.ledger_seq r.head_before db.ledger
    let ordinal = max_id db.receipts + 1
    let document = receipt_document r heads ordinal
    raise_if (not (h.receipt_valid document))
        (validation_failure Errors.decision_receipt_schema_invalid)
    key ← or_raise (column_text h r.key) uncaught
    proposal_id ← or_raise (column_text h r.proposal_id) uncaught
    let row : ReceiptRow = record {
      id = ordinal;
      idempotency_key = key;
      proposal_hash = r.proposal_hash;
      proposal_id = proposal_id;
      outcome = r.outcome;
      reason_codes = r.reasons;
      ledger_seq = r.ledger_seq;
      state_root = r.root;
      conflict_ids = r.conflicts;
      proposer = r.proposer;
      document = document;
      schema_version = schema_version;
    }
    ok (record db { receipts = row ∷ db.receipts }, row)
