-- ===== src/Kernel/Commit/Receipts.antt =====
-- The receipts that `Kernel._insert_receipt` writes (src/shared_mind/kernel.py).
use shared_mind.Base.{
  ◌≡◌, String, none, some, ◌∷◌, ok, err, arith, ◌⊎◌, Option, or_raise, >>=-eq-ok, guard-eq-ok, ◌+◌,
  not,
}
use shared_mind.Continuity.Errors.{Failure, validation_failure, uncaught}
use shared_mind.Continuity.Errors
use shared_mind.Kernel.Host.{Host}
use shared_mind.Kernel.State.{ReceiptRow, Database}
use shared_mind.Kernel.Receipts.{
  ReceiptRequest, column_text, insert_receipt, receipt_heads, receipt_document, max_id,
}

-- The receipt row of a request, and the database that holds it.
pub record Inserted (h : Host) (r : ReceiptRequest) (db db' : Database) (row : ReceiptRow)
    : Type 0 where
  pub database : db' ≡ record db { receipts = row ∷ db.receipts }
  pub key : column_text h r.key ≡ some row.idempotency_key
  pub proposal_hash : row.proposal_hash ≡ r.proposal_hash
  pub outcome : row.outcome ≡ r.outcome
  pub reasons : row.reason_codes ≡ r.reasons
  pub ledger_seq : row.ledger_seq ≡ r.ledger_seq
  pub root : row.state_root ≡ r.root
  pub conflicts : row.conflict_ids ≡ r.conflicts

pub or_raise-ok :
    {A : Type 0} {x : A} (raised : Failure) (o : Option A) → or_raise o raised ≡ ok x → o ≡ some x
or_raise-ok raised none e = absurd (cc e)
or_raise-ok raised (some y) e = ground (arith, e)

pub insert_receipt-Inserted :
    (h : Host) (now : String) (r : ReceiptRequest) (db db' : Database) (row : ReceiptRow)
    → insert_receipt h now r db ≡ ok (db', row)
    → Inserted h r db db' row
unfolding insert_receipt
insert_receipt-Inserted h now r db db' row e =
    let heads = >>=-eq-ok (receipt_heads r.ledger_seq r.head_before db.ledger) _ e in
    let valid =
      guard-eq-ok
        (not (h.receipt_valid (receipt_document h now r heads.0 (max_id db.receipts + 1)))) _ _
        heads.2 in
    let key = >>=-eq-ok (or_raise (column_text h r.key) uncaught) _ valid.1 in
    let id = >>=-eq-ok (or_raise (column_text h r.proposal_id) uncaught) _ key.2 in
    let stored = or_raise-ok uncaught (column_text h r.key) key.1 in
    let done = id.2 in
    record {
      database = ground (arith, done);
      key = ground (arith, stored, done);
      proposal_hash = ground (arith, done);
      outcome = ground (arith, done);
      reasons = ground (arith, done);
      ledger_seq = ground (arith, done);
      root = ground (arith, done);
      conflicts = ground (arith, done);
    }

-- A receipt without a ledger row fails only on its contract, or on what sqlite3 cannot store.
pub insert_receipt-cases :
    (h : Host) (now : String) (r : ReceiptRequest) (db : Database)
    → r.ledger_seq ≡ none
    → ((done : Database × ReceiptRow) × (insert_receipt h now r db ≡ ok done))
      ⊎ (insert_receipt h now r db
          ≡ err (validation_failure Errors.decision_receipt_schema_invalid))
      ⊎ (insert_receipt h now r db ≡ err uncaught)
unfolding insert_receipt receipt_heads
insert_receipt-cases h now r db e = ground (arith, e)
