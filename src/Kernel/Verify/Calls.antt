-- ===== src/Kernel/Verify/Calls.antt =====
-- Calls of `commit` (src/shared_mind/kernel.py) and the verification of the receipts that they leave.
use shared_mind.Base.{String, ◌≡◌, refl, sym, subst, some, ◌∷◌, inl, inr, sorted, distinct}
use shared_mind.Documents.{Registry, Proposal}
use shared_mind.Kernel.Json.{Json, member}
use shared_mind.Kernel.Host.{Host, sha256_bytes}
use shared_mind.Kernel.State.{ReceiptRow, Database}
use shared_mind.Kernel.Receipts.{head_entry_hash}
use shared_mind.Kernel.Commit.{
  Submission, submission, rejection, acceptance, ledger_row, representable_proposer,
}
use shared_mind.Kernel.Commit.Outcomes.{Submitted, Rejected, Accepted}
use shared_mind.Kernel.Commit.Encodings.{commit_row-encoded}
use shared_mind.Kernel.Commit.Chain.{
  IsConsistent, ledger_row-IsNext, Reached, start, call, Reached-IsConsistent,
}
use shared_mind.Kernel.Verify.{Reader}
use shared_mind.Kernel.Verify.Histories.{FollowsContract}
use shared_mind.Kernel.Verify.Receipts.{Keeps, insert_receipt-row, IsRejection, IsAcceptance}
use shared_mind.Kernel.Verify.Recorded.{
  IsRecorded, AllRecorded-grow, rejection-IsRejection, acceptance-IsAcceptance,
}

module _ (h : Host) where
  -- The key and the identifier of a submitted value are texts, or are stored as texts that have not the
  -- form of a key and of an identifier.
  abbrev pub IsKept : Json → Type 0
  IsKept j =
      Keeps h h.is_idempotency_key (member "idempotency_key" j)
      × Keeps h h.is_record_id (member "proposal_id" j)

  module _ (reg : Registry) where
    -- Each submitted value of a history is kept.
    unfoldable pub AllKept : {db : Database} → Reached h reg db → Type 0
    AllKept start = Unit
    AllKept (call now j row r e) = IsKept j × AllKept r

module _ (h : Host) (reader : Reader) (reg : Registry)
    (follows : FollowsContract h reader reg) where
  Rejected-IsRecorded :
      (s : Submission) (db db' : Database) (row : ReceiptRow)
      → Keeps h h.is_idempotency_key s.key
      → Keeps h h.is_record_id s.proposal_id
      → IsConsistent h db
      → s.head_before ≡ head_entry_hash db.ledger
      → Rejected h s db db' row
      → IsRecorded h reader db
      → IsRecorded h reader db'
  Rejected-IsRecorded s db db' row keys ids c before r i =
      let (now, outcome, code, decided_at, e) = r.recorded in
      let request = rejection h db.tables s outcome code decided_at in
      let (heads, located, valid, stored, key, id, same) =
        insert_receipt-row h now request db db' row e in
      let (fits, leaves) =
        rejection-IsRejection h reader s now outcome code decided_at db heads stored
          (keys stored.0 key, ids stored.1 id) c before located valid in
      let fits' =
        subst (λ x. IsRejection h reader db.ledger (head_entry_hash db.ledger) x) same fits in
      let fits'' = subst (λ x. IsRejection h reader db.ledger x row) (sym i.head) fits' in
      subst (IsRecorded h reader) (sym r.database) (record {
        head =
            subst (λ (x : ReceiptRow). x.document.head_after ≡ head_entry_hash db.ledger) same
              leaves;
        receipts = (inl fits'', i.receipts);
      })

  Accepted-IsRecorded :
      (s : Submission) (j : Json) (p : Proposal) (db db' : Database) (row : ReceiptRow)
      → IsConsistent h db
      → h.contract j ≡ some p
      → s.key ≡ member "idempotency_key" j
      → s.proposer ≡ representable_proposer h reg j
      → Accepted h reg s p db db' row
      → IsRecorded h reader db
      → IsRecorded h reader db'
  unfolding head_entry_hash acceptance
  Accepted-IsRecorded s j p db db' row c contract key proposer a i =
      let new = ledger_row h reg p s.proposal_hash db a.tables a.events in
      let next = ledger_row-IsNext h reg p s.proposal_hash db a.tables a.events c a.fresh in
      let (now, e) = a.recorded in
      let request = acceptance s p new (sorted (distinct a.opened)) in
      let (heads, located, valid, stored, stored_key, stored_id, same) =
        insert_receipt-row h now request _ db' row e in
      let (fits, leaves) =
        acceptance-IsAcceptance h reader reg follows s j p db a.tables a.events a.opened now heads
          stored contract key stored_key stored_id proposer a.checked a.applied located valid in
      let fits' =
        subst (λ x. IsAcceptance h reader (new ∷ db.ledger) (head_entry_hash db.ledger) x) same
          fits in
      let fits'' = subst (λ x. IsAcceptance h reader (new ∷ db.ledger) x row) (sym i.head) fits' in
      subst (IsRecorded h reader) (sym a.database) (record {
        head = subst (λ (x : ReceiptRow). x.document.head_after ≡ some new.entry_hash) same leaves;
        receipts = (
          inr fits'',
          AllRecorded-grow h reader new db.ledger db.receipts c.chained next i.receipts,
        );
      })

  Submitted-IsRecorded :
      (now : String) (j : Json) (hash : String) (db db' : Database) (row : ReceiptRow)
      → IsKept h j
      → IsConsistent h db
      → Submitted h reg (submission h reg now j db hash) (h.contract j) db db' row
      → IsRecorded h reader db
      → IsRecorded h reader db'
  unfolding Submitted submission
  Submitted-IsRecorded now j hash db db' row kept c (inl r) i =
      Rejected-IsRecorded (submission h reg now j db hash) db db' row kept.0 kept.1 c refl r i
  Submitted-IsRecorded now j hash db db' row kept c (inr (inl r)) i =
      subst (IsRecorded h reader) (sym r.database) i
  Submitted-IsRecorded now j hash db db' row kept c (inr (inr (p, q, a))) i =
      Accepted-IsRecorded (submission h reg now j db hash) j p db db' row c q refl refl a i

  pub Reached-IsRecorded :
      {db : Database} (r : Reached h reg db) → AllKept h reg r → IsRecorded h reader db
  unfolding submission head_entry_hash AllKept
  Reached-IsRecorded start kept = record { head = refl; receipts = tt }
  Reached-IsRecorded (call {db} {db'} now j row r e) kept =
      elim (commit_row-encoded h reg now j db db' row e) [
        | inl (hash, rejected) ↦
            Rejected-IsRecorded (submission h reg now j db hash) db db' row kept.0.0 kept.0.1
              (Reached-IsConsistent h reg r) refl rejected (Reached-IsRecorded r kept.1)
        | inr (bytes, encoding, done) ↦
            Submitted-IsRecorded now j (sha256_bytes h bytes) db db' row kept.0
              (Reached-IsConsistent h reg r) done (Reached-IsRecorded r kept.1)
      ]
