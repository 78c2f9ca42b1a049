-- ===== src/Kernel/Verify/Receipts.antt =====
-- The receipts that `_insert_receipt` of src/shared_mind/kernel.py writes, as
-- `_verify_receipt_documents` reads them again.
use shared_mind.Base.{
  ℕ, ◌+◌, String, true, false, not, ◌≡◌, refl, sym, ap, ◌∙◌, subst, Option, none, some, List, [],
  ◌∷◌, ok, Result, ◌==◌, eq_iff, eq_refl, inl, inr, ◌⊎◌, arith, >>=-eq-ok, guard-eq-ok, Bool-cases,
  Bool, or_raise,
}
use shared_mind.Continuity.Errors.{Failure, uncaught}
use shared_mind.Kernel.Json.{Json}
use shared_mind.Kernel.Host.{Host}
use shared_mind.Kernel.State.{LedgerRow, LedgerDocument, ReceiptRow, Database, no_tables}
use shared_mind.Kernel.Validate.{schema_version}
use shared_mind.Kernel.Receipts.{
  ReceiptRequest, Heads, receipt_heads, receipt_document, insert_receipt, max_id, ledger_entry,
  head_entry_hash, has_entry_hash, column_text, filter_value, filter_text,
}
use shared_mind.Kernel.Commit.Receipts.{or_raise-ok}
use shared_mind.Kernel.Commit.{state_root}
use shared_mind.Kernel.Commit.Chain.{head_root}
use shared_mind.Kernel.Verify.{Reader}
use shared_mind.Kernel.Verify.Documents.{
  root_of_entry, rejected_document, accepted_mismatch, has_schema,
}

-- What a column stores of a value, where it can, agrees with what the document of a receipt names.
abbrev pub Keeps : Host → (String → Bool) → Json → Type 0
Keeps h keep v =
    (stored : String)
    → column_text h v ≡ some stored
    → filter_value keep v ≡ filter_text keep stored

-- The row of a request whose key and identifier are stored as texts.
abbrev pub receipt_row : Host → String → String × String → ReceiptRequest → Heads → ℕ → ReceiptRow
receipt_row h now stored r heads ordinal = record {
  id = ordinal;
  idempotency_key = stored.0;
  proposal_hash = r.proposal_hash;
  proposal_id = stored.1;
  outcome = r.outcome;
  reason_codes = r.reasons;
  ledger_seq = r.ledger_seq;
  state_root = r.root;
  conflict_ids = r.conflicts;
  proposer = r.proposer;
  document = receipt_document h now r heads ordinal;
  schema_version = schema_version;
}

-- The row that an insertion has written, with the heads in its document.
pub insert_receipt-row :
    (h : Host) (now : String) (r : ReceiptRequest) (db db' : Database) (row : ReceiptRow)
    → insert_receipt h now r db ≡ ok (db', row)
    → (heads : Heads) × (receipt_heads r.ledger_seq r.head_before db.ledger ≡ ok heads)
      × (h.receipt_valid (receipt_document h now r heads (max_id db.receipts + 1)) ≡ true)
      × (stored : String × String) × (column_text h r.key ≡ some stored.0)
      × (column_text h r.proposal_id ≡ some stored.1)
      × (receipt_row h now stored r heads (max_id db.receipts + 1) ≡ row)
unfolding insert_receipt
insert_receipt-row h now r db db' row e =
    let heads = >>=-eq-ok (receipt_heads r.ledger_seq r.head_before db.ledger) _ e in
    let valid =
      guard-eq-ok
        (not (h.receipt_valid (receipt_document h now r heads.0 (max_id db.receipts + 1)))) _ _
        heads.2 in
    let key = >>=-eq-ok (or_raise (column_text h r.key) uncaught) _ valid.1 in
    let id = >>=-eq-ok (or_raise (column_text h r.proposal_id) uncaught) _ key.2 in
    (
      heads.0,
      heads.1,
      ground (arith, valid.0),
      (key.0, id.0),
      or_raise-ok uncaught (column_text h r.key) key.1,
      or_raise-ok uncaught (column_text h r.proposal_id) id.1,
      ap (λ x. x.1) (injective id.2),
    )
  where
    injective :
        {a b : Database × ReceiptRow}
        → Path (Result Failure (Database × ReceiptRow)) (ok a) (ok b)
        → a ≡ b
    injective p = cc

-- The state root at a head of a ledger.
unfoldable pub root_at : Host → List LedgerRow → Option String → Option String
root_at h ledger none = some (state_root h no_tables)
root_at h ledger (some hash) = root_of_entry hash ledger

pub root_at-head :
    (h : Host) (ledger : List LedgerRow)
    → root_at h ledger (head_entry_hash ledger) ≡ some (head_root h ledger)
unfolding root_at root_of_entry head_entry_hash head_root
root_at-head h [] = refl
root_at-head h (row ∷ rows) = rw (eq_refl row.entry_hash) refl

root_of_entry-none :
    (hash : String) (rows : List LedgerRow)
    → has_entry_hash hash rows ≡ false
    → root_of_entry hash rows ≡ none
unfolding root_of_entry has_entry_hash
root_of_entry-none hash [] f = refl
root_of_entry-none hash (row ∷ rows) f = ground (arith, f, root_of_entry-none hash rows)

none≢some : {s : String} → Path (Option String) none (some s) → ⊥
none≢some h = cc

-- A new row with a new hash leaves the roots at the heads that there were.
pub root_at-grow :
    (h : Host) (new : LedgerRow) (ledger : List LedgerRow) (head : Option String) (root : String)
    → has_entry_hash new.entry_hash ledger ≡ false
    → root_at h ledger head ≡ some root
    → root_at h (new ∷ ledger) head ≡ some root
unfolding root_at root_of_entry
root_at-grow h new ledger none root fresh e = e
root_at-grow h new ledger (some hash) root fresh e = elim (Bool-cases (new.entry_hash == hash)) [
  | inr other ↦ rw other e
  | inl same ↦
      let absent =
        subst (λ x. has_entry_hash x ledger ≡ false) ((eq_iff new.entry_hash hash).0 same) fresh in
      absurd (none≢some (sym (root_of_entry-none hash ledger absent) ∙ e))
]

module _ (h : Host) (reader : Reader) where
  -- The receipt of a rejection, behind older receipts that end at a head.
  pub record IsRejection (ledger : List LedgerRow) (head : Option String) (r : ReceiptRow)
      : Type 0 where
    pub entry : r.ledger_seq ≡ none
    pub root : root_at h ledger head ≡ some r.state_root
    pub schema : has_schema r.schema_version ≡ true
    pub valid : h.receipt_valid r.document ≡ true
    pub document : r.document ≡ rejected_document h head r

  -- The receipt of an accepted proposal.
  pub record IsAcceptance (ledger : List LedgerRow) (head : Option String) (r : ReceiptRow)
      : Type 0 where
    pub seq : ℕ
    pub entry : LedgerRow
    pub document : LedgerDocument
    pub stored : entry.document ≡ some document
    pub named : r.ledger_seq ≡ some seq
    pub found : ledger_entry seq ledger ≡ some entry
    pub matches : accepted_mismatch h reader head entry document r ≡ false
    pub leaves : r.document.head_after ≡ some entry.entry_hash

  abbrev pub head_of : List ReceiptRow → Option String
  head_of [] = none
  head_of (r ∷ _) = r.document.head_after

  abbrev pub AllRecorded : List LedgerRow → List ReceiptRow → Type 0
  AllRecorded ledger [] = Unit
  AllRecorded ledger (r ∷ rs) =
      (IsRejection ledger (head_of rs) r ⊎ IsAcceptance ledger (head_of rs) r)
      × AllRecorded ledger rs
