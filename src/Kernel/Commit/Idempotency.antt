-- ===== src/Kernel/Commit/Idempotency.antt =====
-- Idempotency keys in `Kernel._commit` (src/shared_mind/kernel.py).
use shared_mind.Base.{
  ap, ◌≡◌, ◌≢◌, refl, sym, ◌∙◌, String, false, Option, none, some, List, [], ◌∷◌, ok, arith, ◌⊎◌,
  inl, inr, length, ltb, ◌==◌, eq_iff, eq_refl,
}
use shared_mind.Documents.{Registry, Proposal}
use shared_mind.Continuity.Errors.{Code}
use shared_mind.Continuity.Errors
use shared_mind.Kernel.Json.{Json, null, text, literal, foreign, array, object, member}
use shared_mind.Kernel.Host.{Host, encoded, sha256_bytes}
use shared_mind.Kernel.Depth.{json_depth_exceeds}
use shared_mind.Kernel.State.{Bytes, ReceiptRow, Database, validation_error}
use shared_mind.Kernel.Receipts.{
  ReceiptRequest, insert_receipt, first_receipt, prior_receipt, column_text,
}
use shared_mind.Kernel.Commit.{
  rejection, Submission, submission, submit, after_lookup, recover, known_key, preflight,
  commit_row, max_proposal_bytes, max_proposal_depth,
}
use shared_mind.Kernel.Commit.Receipts.{insert_receipt-Inserted, insert_receipt-cases}
use shared_mind.Kernel.Commit.Outcomes.{Submitted, submit-cases, commit_row-cases}

-- A new receipt never hides the first one of a key.
first_receipt-older :
    (key : String) (new : ReceiptRow) (rows : List ReceiptRow) (r : ReceiptRow)
    → first_receipt key rows ≡ some r
    → first_receipt key (new ∷ rows) ≡ some r
unfolding first_receipt
first_receipt-older key new rows r e = ground (arith, e)

first_receipt-new :
    (key : String) (new : ReceiptRow) (rows : List ReceiptRow)
    → first_receipt key rows ≡ none
    → new.idempotency_key ≡ key
    → first_receipt key (new ∷ rows) ≡ some new
unfolding first_receipt
first_receipt-new key new rows e k =
    ground (arith, e, k, eq_iff new.idempotency_key key, eq_refl key)

-- A value that reaches the transaction: it has a canonical encoding, within the two limits.
pub record IsWithinLimits (h : Host) (j : Json) (bytes : Bytes) : Type 0 where
  pub encodes : h.encode j ≡ encoded bytes
  pub depth : json_depth_exceeds j max_proposal_depth ≡ false
  pub size : ltb max_proposal_bytes (length bytes) ≡ false

module _ (h : Host) (reg : Registry) where
  commit_row-submit :
      (now : String) (j : Json) (bytes : Bytes) (db : Database)
      → IsWithinLimits h j bytes
      → commit_row h reg now j db
        ≡ submit h reg now (submission h reg now j db (sha256_bytes h bytes)) (h.contract j) db
  unfolding commit_row preflight
  commit_row-submit now j bytes db w = rw (w.encodes, w.depth, w.size, commit_row, preflight) refl

  -- A known key with the same proposal returns the stored receipt.
  submit-known :
      (now : String) (s : Submission) (contract : Option Proposal) (db : Database)
      (prior : ReceiptRow)
      → prior_receipt h s.key db.receipts ≡ ok (some prior)
      → prior.proposal_hash ≡ s.proposal_hash
      → submit h reg now s contract db ≡ ok (db, prior)
  unfolding submit after_lookup known_key recover
  submit-known now s contract db prior f e = rw (f, e, eq_refl s.proposal_hash) refl

  -- Any call of `commit` keeps the first receipt of every key.
  pub first_receipt-commit_row :
      (key now : String) (j : Json) (db db' : Database) (row r : ReceiptRow)
      → commit_row h reg now j db ≡ ok (db', row)
      → first_receipt key db.receipts ≡ some r
      → first_receipt key db'.receipts ≡ some r
  unfolding Submitted
  first_receipt-commit_row key now j db db' row r e f =
      elim (commit_row-cases h reg now j db db' row e).1 [
        | inl c ↦ rw c.database (first_receipt-older key row db.receipts r f)
        | inr (inl c) ↦ rw c.database f
        | inr (inr (p, q, c)) ↦ rw c.database (first_receipt-older key row db.receipts r f)
      ]

  -- A key that can be stored is looked up by its stored text.
  prior_receipt-stored :
      (key : Json) (stored : String) (rows : List ReceiptRow)
      → column_text h key ≡ some stored
      → prior_receipt h key rows ≡ ok (first_receipt stored rows)
  unfolding prior_receipt column_text
  prior_receipt-stored null stored rows e = absurd (cc e)
  prior_receipt-stored (text t) stored rows e =
      ap (λ x. ok (first_receipt x rows)) (ground (arith, e))
  prior_receipt-stored (literal l) stored rows e = rw e refl
  prior_receipt-stored (foreign l) stored rows e = absurd (cc e)
  prior_receipt-stored (array items) stored rows e = absurd (cc e)
  prior_receipt-stored (object fields) stored rows e = absurd (cc e)

  -- The call that first uses a key leaves its receipt under the key.
  submit-first :
      (now : String) (s : Submission) (contract : Option Proposal) (db db' : Database)
      (row : ReceiptRow)
      → prior_receipt h s.key db.receipts ≡ ok none
      → submit h reg now s contract db ≡ ok (db', row)
      → (column_text h s.key ≡ some row.idempotency_key)
        × (first_receipt row.idempotency_key db'.receipts ≡ some row)
        × (row.proposal_hash ≡ s.proposal_hash)
  unfolding Submitted
  submit-first now s contract db db' row f e =
      elim (submit-cases h reg now s contract db db' row e) [
        | inl c ↦ (c.key, rw c.database (fresh c.key), c.proposal_hash)
        | inr (inl c) ↦ absurd (ground (arith, f, c.stored))
        | inr (inr (p, q, c)) ↦ (c.key, rw c.database (fresh c.key), c.proposal_hash)
      ]
    where
      fresh :
          column_text h s.key ≡ some row.idempotency_key
          → first_receipt row.idempotency_key (row ∷ db.receipts) ≡ some row
      fresh stored =
          let same = sym (prior_receipt-stored s.key row.idempotency_key db.receipts stored) ∙ f in
          first_receipt-new row.idempotency_key row db.receipts (ground (arith, same)) refl

  -- The databases that later calls of `commit` make of one.
  pub data Later (db : Database) : Database → Type 0 where
    same : Later db db
    call :
        {db' db'' : Database} (now : String) (j : Json) (row : ReceiptRow)
        → Later db db'
        → commit_row h reg now j db' ≡ ok (db'', row)
        → Later db db''

  first_receipt-Later :
      (key : String) (r : ReceiptRow) {db db' : Database}
      → Later db db'
      → first_receipt key db.receipts ≡ some r
      → first_receipt key db'.receipts ≡ some r
  first_receipt-Later key r same f = f
  first_receipt-Later key r (call {db'} {db''} now j row l e) f =
      first_receipt-commit_row key now j db' db'' row r e (first_receipt-Later key r l f)

  -- A value within the limits that was submitted under a key with no receipt, and was given a receipt,
  -- committed or rejected: after any further calls of `commit`, at any time, submitting it again
  -- returns the same receipt and changes nothing in the database.
  pub commit_row-repeated :
      (now now' : String) (j : Json) (bytes : Bytes) (db db' later : Database) (row : ReceiptRow)
      → IsWithinLimits h j bytes
      → prior_receipt h (member "idempotency_key" j) db.receipts ≡ ok none
      → commit_row h reg now j db ≡ ok (db', row)
      → Later db' later
      → commit_row h reg now' j later ≡ ok (later, row)
  unfolding submission
  commit_row-repeated now now' j bytes db db' later row w f e l =
      let s = submission h reg now j db (sha256_bytes h bytes) in
      let s' = submission h reg now' j later (sha256_bytes h bytes) in
      let (stored, first, same_hash) =
        submit-first now s (h.contract j) db db' row f
          (sym (commit_row-submit now j bytes db w) ∙ e) in
      commit_row-submit now' j bytes later w
      ∙ submit-known now' s' (h.contract j) later row
          (prior_receipt-stored s'.key row.idempotency_key later.receipts stored
            ∙ ap ok (first_receipt-Later _ row l first))
          same_hash

  -- A value within the limits whose key has a first receipt with another proposal hash: a call of
  -- `commit` that returns leaves the tables and the ledger as they were and adds one receipt, a
  -- validation error with no ledger row, whose reason is the reuse of the key, or the contract of
  -- receipts where the contract refuses the receipt of the reuse.
  pub commit_row-reused :
      (now : String) (j : Json) (bytes : Bytes) (db db' : Database) (prior row : ReceiptRow)
      → IsWithinLimits h j bytes
      → prior_receipt h (member "idempotency_key" j) db.receipts ≡ ok (some prior)
      → prior.proposal_hash ≢ sha256_bytes h bytes
      → commit_row h reg now j db ≡ ok (db', row)
      → (db' ≡ record db { receipts = row ∷ db.receipts })
        × (row.outcome ≡ validation_error)
        × ((row.reason_codes ≡ Errors.idempotency_key_reuse ∷ [])
            ⊎ (row.reason_codes ≡ Errors.decision_receipt_schema_invalid ∷ []))
        × (row.ledger_seq ≡ none)
  unfolding submission submit after_lookup recover known_key
  commit_row-reused now j bytes db db' prior row w f n e =
      let differ : (prior.proposal_hash == sha256_bytes h bytes) ≡ false =
        ground (arith, n, eq_iff prior.proposal_hash (sha256_bytes h bytes)) in
      let q = sym (commit_row-submit now j bytes db w) ∙ e in
      reused (rw (f, differ, submit, known_key) at q)
    where
      s : Submission
      s = submission h reg now j db (sha256_bytes h bytes)

      request : Code → ReceiptRequest
      request code = rejection h db.tables s validation_error code (some s.decided_at)

      Done : Type 0
      Done =
          (db' ≡ record db { receipts = row ∷ db.receipts })
          × (row.outcome ≡ validation_error)
          × ((row.reason_codes ≡ Errors.idempotency_key_reuse ∷ [])
              ⊎ (row.reason_codes ≡ Errors.decision_receipt_schema_invalid ∷ []))
          × (row.ledger_seq ≡ none)

      reused :
          recover h reg now s db (insert_receipt h now (request Errors.idempotency_key_reuse) db)
            ≡ ok (db', row)
          → Done
      reused q = elim (insert_receipt-cases h now (request Errors.idempotency_key_reuse) db refl) [
        | inl (done, p) ↦
            let i =
              insert_receipt-Inserted h now (request Errors.idempotency_key_reuse) db db' row
                (p ∙ rw (p, recover) at q) in
            (i.database, i.outcome, inl i.reasons, i.ledger_seq)
        | inr (inr p) ↦ absurd (cc (rw (p, recover) at q))
        | inr (inl p) ↦
            let i =
              insert_receipt-Inserted h now (request Errors.decision_receipt_schema_invalid) db db'
                row (rw (p, recover) at q) in
            (i.database, i.outcome, inr i.reasons, i.ledger_seq)
      ]
