-- ===== src/Kernel/Verify/Counts.antt =====
-- `_verify_accepted_receipt_coverage` of src/shared_mind/kernel.py on the histories of `commit`.
use shared_mind.Base.{
  ℕ, ◌+◌, ◌<◌, String, Bool, true, false, ◌≡◌, refl, sym, ap, ◌∙◌, subst, Option, none, some, List,
  [], ◌∷◌, ◌++◌, inl, inr, nat_eq, length, reverse, reverse-cons, append-nil, append_assoc, arith,
}
use shared_mind.Documents.{Registry, Proposal}
use shared_mind.Kernel.Host.{Host}
use shared_mind.Kernel.State.{LedgerRow, ReceiptRow, Database}
use shared_mind.Kernel.Receipts.{next_ledger_seq}
use shared_mind.Kernel.Commit.{Submission, submission, ledger_row, open_row, outcome_of}
use shared_mind.Kernel.Commit.Outcomes.{Submitted, commit_row-cases}
use shared_mind.Kernel.Commit.Chain.{
  IsChained, IsConsistent, ledger_row-IsNext, Reached, start, call, Reached-IsConsistent,
}
use shared_mind.Kernel.Verify.Documents.{
  receipt_count, is_accepted, coverage_from, verify_accepted_receipt_coverage,
}

-- Each row has one receipt of acceptance.
abbrev AllCounted : List ReceiptRow → List LedgerRow → Type 0
AllCounted receipts [] = Unit
AllCounted receipts (row ∷ rows) = (receipt_count row.seq receipts ≡ 1) × AllCounted receipts rows

coverage_from-reverse :
    (receipts : List ReceiptRow) (ledger more : List LedgerRow)
    → AllCounted receipts ledger
    → coverage_from receipts (reverse ledger ++ more) ≡ coverage_from receipts more
unfolding coverage_from
coverage_from-reverse receipts [] more c = refl
coverage_from-reverse receipts (row ∷ rows) more c =
    ap (λ xs. coverage_from receipts (xs ++ more)) (reverse-cons row rows)
    ∙ ap (coverage_from receipts) (append_assoc (reverse rows) (row ∷ []) more)
    ∙ coverage_from-reverse receipts rows (row ∷ more) c.1
    ∙ rw c.0 refl

-- A receipt that names no row, or another one, is not counted.
receipt_count-none :
    (seq : ℕ) (r : ReceiptRow) (rs : List ReceiptRow)
    → r.ledger_seq ≡ none
    → receipt_count seq (r ∷ rs) ≡ receipt_count seq rs
unfolding receipt_count
receipt_count-none seq r rs e = rw e refl

receipt_count-other :
    (seq n : ℕ) (r : ReceiptRow) (rs : List ReceiptRow)
    → r.ledger_seq ≡ some n
    → nat_eq n seq ≡ false
    → receipt_count seq (r ∷ rs) ≡ receipt_count seq rs
unfolding receipt_count
receipt_count-other seq n r rs e other = rw (e, other) refl

receipt_count-own :
    (seq : ℕ) (r : ReceiptRow) (rs : List ReceiptRow)
    → r.ledger_seq ≡ some seq
    → is_accepted r.outcome ≡ true
    → receipt_count seq (r ∷ rs) ≡ receipt_count seq rs + 1
unfolding receipt_count
receipt_count-own seq r rs e accepted =
    let own : Path Bool (nat_eq seq seq) true = ground arith in rw (e, own, accepted) refl

is_accepted-outcome_of : (ids : List String) → is_accepted (outcome_of ids) ≡ true
unfolding outcome_of
is_accepted-outcome_of [] = refl
is_accepted-outcome_of (x ∷ xs) = refl

AllCounted-none :
    (r : ReceiptRow) (rs : List ReceiptRow) (ledger : List LedgerRow)
    → r.ledger_seq ≡ none
    → AllCounted rs ledger
    → AllCounted (r ∷ rs) ledger
AllCounted-none r rs [] e c = tt
AllCounted-none r rs (row ∷ rows) e c =
    (receipt_count-none row.seq r rs e ∙ c.0, AllCounted-none r rs rows e c.1)

module _ (h : Host) where
  AllCounted-other :
      (n : ℕ) (r : ReceiptRow) (rs : List ReceiptRow) (ledger : List LedgerRow)
      → IsChained h ledger
      → length ledger < n
      → r.ledger_seq ≡ some n
      → AllCounted rs ledger
      → AllCounted (r ∷ rs) ledger
  unfolding IsChained
  AllCounted-other n r rs [] ch b e c = tt
  AllCounted-other n r rs (row ∷ rows) ch b e c =
      let other : Path Bool (nat_eq n row.seq) false = ground (arith, ch.0.seq, b) in
      (
        receipt_count-other row.seq n r rs e other ∙ c.0,
        AllCounted-other n r rs rows ch.1 (omega (arith, b)) e c.1,
      )

  -- Each row has one receipt of acceptance, and none is there for a later row.
  pub record IsCounted (db : Database) : Type 0 where
    pub rows : AllCounted db.receipts db.ledger
    pub later : (seq : ℕ) → length db.ledger < seq → receipt_count seq db.receipts ≡ 0

  module _ (reg : Registry) where
    Submitted-IsCounted :
        (s : Submission) (contract : Option Proposal) (db db' : Database) (row : ReceiptRow)
        → Submitted h reg s contract db db' row
        → IsConsistent h db
        → IsCounted db
        → IsCounted db'
    unfolding Submitted ledger_row open_row
    Submitted-IsCounted s contract db db' row (inl r) c i =
        subst IsCounted (sym r.database) (record {
          rows = AllCounted-none row db.receipts db.ledger r.ledger_seq i.rows;
          later = λ seq b. receipt_count-none seq row db.receipts r.ledger_seq ∙ i.later seq b;
        })
    Submitted-IsCounted s contract db db' row (inr (inl r)) c i = subst IsCounted (sym r.database) i
    Submitted-IsCounted s contract db db' row (inr (inr (p, q, a))) c i =
        let next = ledger_row-IsNext h reg p s.proposal_hash db a.tables a.events c a.fresh in
        let seq = next_ledger_seq db.ledger in
        let bound : length db.ledger < seq = omega (arith, next.seq) in
        let accepted =
          subst (λ o. is_accepted o ≡ true) (sym a.outcome) (is_accepted-outcome_of _) in
        subst IsCounted (sym a.database) (record {
          rows = (
            receipt_count-own seq row db.receipts a.ledger_seq accepted
                ∙ ap (λ n. n + 1) (i.later seq bound),
            AllCounted-other seq row db.receipts db.ledger c.chained bound a.ledger_seq i.rows,
          );
          later = λ n b.
              let apart : Path Bool (nat_eq seq n) false = ground (arith, b, next.seq) in
              receipt_count-other n seq row db.receipts a.ledger_seq apart
              ∙ i.later n (omega (arith, b));
        })

    Reached-IsCounted : {db : Database} → Reached h reg db → IsCounted db
    unfolding receipt_count
    Reached-IsCounted start = record { rows = tt; later = λ seq b. refl }
    Reached-IsCounted (call {db} {db'} now j row r e) =
        let (hash, done) = commit_row-cases h reg now j db db' row e in
        Submitted-IsCounted (submission h reg now j db hash) (h.contract j) db db' row done
          (Reached-IsConsistent h reg r) (Reached-IsCounted r)

    -- Whatever values were submitted to `commit`, each ledger row has exactly one receipt of acceptance.
    pub verify_accepted_receipt_coverage-Reached :
        {db : Database} → Reached h reg db → verify_accepted_receipt_coverage db ≡ []
    unfolding verify_accepted_receipt_coverage coverage_from
    verify_accepted_receipt_coverage-Reached {db} r =
        ap (coverage_from db.receipts) (sym (append-nil (reverse db.ledger)))
        ∙ coverage_from-reverse db.receipts db.ledger [] (Reached-IsCounted r).rows
