-- ===== src/Kernel/Commit/Outcomes.antt =====
-- The branches of `Kernel._commit` (src/shared_mind/kernel.py), the receipts included.
use shared_mind.Base.{
  ◌≡◌, refl, sym, subst, String, Bool, true, false, Option, none, some, List, [], ◌∷◌, not, Result,
  ok, err, >>=-eq-ok, raise_if, or_raise, arith, ◌⊎◌, inl, inr, Bool-cases, ◌==◌, eq_iff, length,
  ltb, sorted, distinct,
}
use shared_mind.Documents.{Registry, Proposal, Event}
use shared_mind.Continuity.Errors.{
  Code, Failure, transaction_conflict, validation_failure, value_error, integrity_error,
  continuity_conflict, continuity_validation, uncaught,
}
use shared_mind.Continuity.Errors
use shared_mind.Kernel.Json.{Json}
use shared_mind.Kernel.Host.{Host, Encoding, encoded, recursion_error, type_error, sha256_bytes}
use shared_mind.Kernel.Depth.{json_depth_exceeds}
use shared_mind.Kernel.State.{
  Tables, LedgerRow, ReceiptRow, Database, Outcome, committed, fact_conflict, validation_error,
}
use shared_mind.Kernel.State.{Bytes}
use shared_mind.Kernel.State
use shared_mind.Kernel.Receipts.{
  insert_receipt, next_ledger_seq, has_entry_hash, prior_receipt, column_text,
}
use shared_mind.Kernel.Commit.{
  Submission, state_root, rejection, outcome_of, validate_proposal, apply_operations, ledger_row,
  document_of, transaction, recover, known_key, submit, submission, acceptance, preflight,
  reject_unencodable, reject_hashed, after_lookup, stand_in, encoded_bytes, commit_row,
  max_proposal_depth, max_proposal_bytes,
}
use shared_mind.Kernel.Commit.Receipts.{insert_receipt-Inserted}

-- The submission left the state and the ledger as they were, and one receipt says why.
pub record Rejected (h : Host) (s : Submission) (db db' : Database) (row : ReceiptRow)
    : Type 0 where
  pub database : db' ≡ record db { receipts = row ∷ db.receipts }
  pub key : column_text h s.key ≡ some row.idempotency_key
  pub proposal_hash : row.proposal_hash ≡ s.proposal_hash
  pub outcome : (row.outcome ≡ validation_error) ⊎ (row.outcome ≡ State.transaction_conflict)
  pub reason : (code : Code) × (row.reason_codes ≡ code ∷ [])
  pub ledger_seq : row.ledger_seq ≡ none
  pub root : row.state_root ≡ state_root h db.tables
  pub conflicts : row.conflict_ids ≡ []
  pub recorded :
      (now : String) × (outcome' : Outcome) × (code : Code) × (decided_at : Option String)
      × (insert_receipt h now (rejection h db.tables s outcome' code decided_at) db ≡ ok (db', row))

-- The proposal was applied: one ledger row, chained to the head, and one receipt for it.
pub record Accepted (h : Host) (reg : Registry) (s : Submission) (p : Proposal) (db db' : Database)
    (row : ReceiptRow) : Type 0 where
  pub tables : Tables
  pub events : List Event
  pub opened : List String
  pub checked : validate_proposal h reg db.tables p ≡ ok tt
  pub applied :
      apply_operations h reg p (next_ledger_seq db.ledger) db.tables ≡ ok (tables, events, opened)
  pub fresh :
      has_entry_hash (ledger_row h reg p s.proposal_hash db tables events).entry_hash db.ledger
      ≡ false
  pub valid :
      h.ledger_entry_valid (document_of (ledger_row h reg p s.proposal_hash db tables events))
      ≡ true
  pub database : db' ≡ record {
    tables = tables;
    ledger = ledger_row h reg p s.proposal_hash db tables events ∷ db.ledger;
    receipts = row ∷ db.receipts;
  }
  pub key : column_text h s.key ≡ some row.idempotency_key
  pub proposal_hash : row.proposal_hash ≡ s.proposal_hash
  pub outcome : row.outcome ≡ outcome_of (sorted (distinct opened))
  pub ledger_seq : row.ledger_seq ≡ some (next_ledger_seq db.ledger)
  pub root : row.state_root ≡ state_root h tables
  pub conflicts : row.conflict_ids ≡ sorted (distinct opened)
  pub unused : prior_receipt h s.key db.receipts ≡ ok none
  pub recorded :
      (now : String) × (insert_receipt h now
          (acceptance s p
            (ledger_row h reg p s.proposal_hash db tables events)
            (sorted (distinct opened)))
          (record db {
            tables = tables;
            ledger = ledger_row h reg p s.proposal_hash db tables events ∷ db.ledger;
          })
        ≡ ok (db', row))

-- The key was known with the same proposal: its receipt, and nothing changed.
pub record Repeated (h : Host) (s : Submission) (db db' : Database) (row : ReceiptRow)
    : Type 0 where
  pub database : db' ≡ db
  pub stored : prior_receipt h s.key db.receipts ≡ ok (some row)
  pub proposal_hash : row.proposal_hash ≡ s.proposal_hash

-- What a submission can come to.
unfoldable pub Submitted :
    Host → Registry → Submission → Option Proposal → Database → Database → ReceiptRow → Type 0
Submitted h reg s contract db db' row =
    Rejected h s db db' row
    ⊎ (Repeated h s db db' row
        ⊎ ((p : Proposal) × (contract ≡ some p) × Accepted h reg s p db db' row))

module _ (h : Host) (reg : Registry) (now : String) where
  pub Rejected-request :
      (s : Submission) (db db' : Database) (row : ReceiptRow) (outcome : Outcome) (code : Code)
      (decided_at : Option String)
      → (outcome ≡ validation_error) ⊎ (outcome ≡ State.transaction_conflict)
      → insert_receipt h now (rejection h db.tables s outcome code decided_at) db ≡ ok (db', row)
      → Rejected h s db db' row
  Rejected-request s db db' row outcome code decided_at o e =
      let i =
        insert_receipt-Inserted h now (rejection h db.tables s outcome code decided_at) db db' row
          e in
      record {
        database = i.database;
        key = i.key;
        proposal_hash = i.proposal_hash;
        outcome =
            subst (λ x. (x ≡ validation_error) ⊎ (x ≡ State.transaction_conflict)) (sym i.outcome)
              o;
        reason = (code, i.reasons);
        ledger_seq = i.ledger_seq;
        root = i.root;
        conflicts = i.conflicts;
        recorded = (now, outcome, code, decided_at, e);
      }

  raise_if-eq-ok : (b : Bool) (x : Failure) → raise_if b x ≡ ok tt → b ≡ false
  raise_if-eq-ok true x e = cc
  raise_if-eq-ok false x e = refl

  raise_if-not-eq-ok : (b : Bool) (x : Failure) → raise_if (not b) x ≡ ok tt → b ≡ true
  raise_if-not-eq-ok true x e = refl
  raise_if-not-eq-ok false x e = absurd (cc e)

  transaction-Accepted :
      (s : Submission) (contract : Option Proposal) (db db' : Database) (row : ReceiptRow)
      → prior_receipt h s.key db.receipts ≡ ok none
      → transaction h reg now s contract db ≡ ok (db', row)
      → (p : Proposal) × (contract ≡ some p) × Accepted h reg s p db db' row
  unfolding transaction next_ledger_seq ledger_row
  transaction-Accepted s none db db' row f e = absurd (ground (arith, e))
  transaction-Accepted s (some p) db db' row f e =
      let v = >>=-eq-ok (validate_proposal h reg db.tables p) _ e in
      let a = >>=-eq-ok (apply_operations h reg p (next_ledger_seq db.ledger) db.tables) _ v.2 in
      let new = ledger_row h reg p s.proposal_hash db a.0.0 a.0.1 in
      let w = >>=-eq-ok (raise_if (not (h.ledger_entry_valid (document_of new))) _) _ a.2 in
      let u = >>=-eq-ok (raise_if (has_entry_hash new.entry_hash db.ledger) _) _ w.2 in
      let i = insert_receipt-Inserted h now _ _ db' row u.2 in
      (
        p,
        refl,
        record {
          tables = a.0.0;
          events = a.0.1;
          opened = a.0.2;
          checked = v.1;
          applied = a.1;
          fresh = raise_if-eq-ok (has_entry_hash new.entry_hash db.ledger) _ u.1;
          valid = raise_if-not-eq-ok (h.ledger_entry_valid (document_of new)) _ w.1;
          database = i.database;
          key = i.key;
          proposal_hash = i.proposal_hash;
          outcome = i.outcome;
          ledger_seq = i.ledger_seq;
          root = i.root;
          conflicts = i.conflicts;
          unused = f;
          recorded = (now, u.2);
        },
      )

  -- Each `except` clause ends with the receipt of a rejection.
  recover-cases :
      (s : Submission) (db db' : Database) (row : ReceiptRow)
      (r : Result Failure (Database × ReceiptRow))
      → recover h reg now s db r ≡ ok (db', row)
      → Rejected h s db db' row ⊎ (r ≡ ok (db', row))
  unfolding recover
  recover-cases s db db' row (ok x) e = inr e
  recover-cases s db db' row (err (transaction_conflict code)) e =
      inl (Rejected-request s db db' row State.transaction_conflict code _ (inr refl) e)
  recover-cases s db db' row (err (validation_failure code)) e =
      inl (Rejected-request s db db' row validation_error code _ (inl refl) e)
  recover-cases s db db' row (err (integrity_error code)) e =
      inl (Rejected-request s db db' row validation_error code _ (inl refl) e)
  recover-cases s db db' row (err value_error) e =
      inl (Rejected-request s db db' row validation_error Errors.malformed_proposal _ (inl refl) e)
  recover-cases s db db' row (err uncaught) e = absurd (ground (arith, e))
  recover-cases s db db' row (err (continuity_conflict code)) e = absurd (ground (arith, e))
  recover-cases s db db' row (err (continuity_validation code)) e = absurd (ground (arith, e))

  known_key-cases :
      (s : Submission) (db db' : Database) (row prior : ReceiptRow)
      → prior_receipt h s.key db.receipts ≡ ok (some prior)
      → known_key h reg now s db prior ≡ ok (db', row)
      → Rejected h s db db' row ⊎ Repeated h s db db' row
  unfolding known_key
  known_key-cases s db db' row prior f e =
      elim (Bool-cases (prior.proposal_hash == s.proposal_hash)) [
        | inl p ↦
            let q = rw (p, known_key) at e in
            let same : prior ≡ row = ground (arith, q) in
            inr (record {
              database = ground (arith, q);
              stored = subst (λ x. prior_receipt h s.key db.receipts ≡ ok (some x)) same f;
              proposal_hash = ground (arith, q, p, eq_iff prior.proposal_hash s.proposal_hash);
            })
        | inr p ↦ inl (
            Rejected-request s db db' row validation_error Errors.idempotency_key_reuse _ (inl refl)
              (rw (p, known_key) at e))
      ]

  after_lookup-cases :
      (s : Submission) (contract : Option Proposal) (db db' : Database) (row : ReceiptRow)
      (found : Option ReceiptRow)
      → prior_receipt h s.key db.receipts ≡ ok found
      → after_lookup h reg now s contract db found ≡ ok (db', row)
      → Submitted h reg s contract db db' row
  unfolding after_lookup Submitted
  after_lookup-cases s contract db db' row none p q =
      inr (inr (transaction-Accepted s contract db db' row p q))
  after_lookup-cases s contract db db' row (some prior) p q =
      elim (known_key-cases s db db' row prior p q) [ inl r ↦ inl r | inr r ↦ inr (inl r) ]

  -- The outcome of a submitted proposal, on every branch of the transaction.
  pub submit-cases :
      (s : Submission) (contract : Option Proposal) (db db' : Database) (row : ReceiptRow)
      → submit h reg now s contract db ≡ ok (db', row)
      → Submitted h reg s contract db db' row
  unfolding submit Submitted
  submit-cases s contract db db' row e = elim (recover-cases s db db' row _ e) [
    | inl r ↦ inl r
    | inr q ↦
        let found = >>=-eq-ok (prior_receipt h s.key db.receipts) _ q in
        after_lookup-cases s contract db db' row found.0 found.1 found.2
  ]

  pub preflight-cases :
      (j : Json) (too_deep : Bool) (bytes : Bytes) (db db' : Database) (row : ReceiptRow)
      → preflight h reg now j too_deep bytes db ≡ ok (db', row)
      → Submitted h reg (submission h reg now j db (sha256_bytes h bytes)) (h.contract j) db db' row
  unfolding preflight Submitted
  preflight-cases j true bytes db db' row e =
      inl (Rejected-request _ db db' row validation_error Errors.proposal_too_deep _ (inl refl) e)
  preflight-cases j false bytes db db' row e =
      elim (Bool-cases (ltb max_proposal_bytes (length bytes))) [
        | inl p ↦ inl (
            Rejected-request (submission h reg now j db (sha256_bytes h bytes)) db db' row
              validation_error Errors.proposal_too_large _ (inl refl) (rw (p, preflight) at e))
        | inr p ↦
            submit-cases (submission h reg now j db (sha256_bytes h bytes)) (h.contract j) db db'
              row (rw (p, preflight) at e)
      ]

  reject_hashed-Rejected :
      (j : Json) (too_deep : Bool) (hash : String) (db db' : Database) (row : ReceiptRow)
      → reject_hashed h reg now j too_deep hash db ≡ ok (db', row)
      → Rejected h (submission h reg now j db hash) db db' row
  unfolding reject_hashed
  reject_hashed-Rejected j true hash db db' row e =
      Rejected-request _ db db' row validation_error Errors.proposal_too_deep _ (inl refl) e
  reject_hashed-Rejected j false hash db db' row e =
      Rejected-request _ db db' row validation_error Errors.malformed_proposal _ (inl refl) e

  pub reject_unencodable-Rejected :
      (j : Json) (too_deep : Bool) (db db' : Database) (row : ReceiptRow)
      → reject_unencodable h reg now j too_deep db ≡ ok (db', row)
      → (hash : String) × Rejected h (submission h reg now j db hash) db db' row
  unfolding reject_unencodable
  reject_unencodable-Rejected j too_deep db db' row e =
      let q =
        >>=-eq-ok (or_raise (encoded_bytes (h.encode (stand_in (h.type_name j) j))) uncaught) _ e in
      (_, reject_hashed-Rejected j too_deep (sha256_bytes h q.0) db db' row q.2)

  reject_unencodable-cases :
      (j : Json) (too_deep : Bool) (db db' : Database) (row : ReceiptRow)
      → reject_unencodable h reg now j too_deep db ≡ ok (db', row)
      → (hash : String) × Submitted h reg (submission h reg now j db hash) (h.contract j) db db' row
  unfolding Submitted
  reject_unencodable-cases j too_deep db db' row e =
      let q = reject_unencodable-Rejected j too_deep db db' row e in (q.0, inl q.1)

  pub commit_row-cases :
      (j : Json) (db db' : Database) (row : ReceiptRow)
      → commit_row h reg now j db ≡ ok (db', row)
      → (hash : String) × Submitted h reg (submission h reg now j db hash) (h.contract j) db db' row
  unfolding commit_row Submitted
  commit_row-cases j db db' row e = on (h.encode j) refl
    where
      on :
          (x : Encoding)
          → h.encode j ≡ x
          → (hash : String) × Submitted h reg
              (submission h reg now j db hash)
              (h.contract j)
              db
              db'
              row
      on (encoded bytes) p = (
        _,
        preflight-cases j (json_depth_exceeds j max_proposal_depth) bytes db db' row
            (rw (p, commit_row) at e),
      )
      on recursion_error p =
          reject_unencodable-cases j (json_depth_exceeds j max_proposal_depth) db db' row
            (rw (p, commit_row) at e)
      on type_error p = reject_unencodable-cases j false db db' row (rw (p, commit_row) at e)
