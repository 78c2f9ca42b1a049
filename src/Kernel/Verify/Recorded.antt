-- ===== src/Kernel/Verify/Recorded.antt =====
-- The receipts of every history of `commit` (src/shared_mind/kernel.py), as their verification reads
-- them.
use shared_mind.Base.{
  ◌+◌, String, true, false, ◌≡◌, refl, sym, ap, ◌∙◌, subst, Option, none, some, List, [], ◌∷◌, ok,
  eq_iff, inl, inr, equal_self, arith, >>=-eq-ok, Option_String-discrete, sorted, distinct,
}
use shared_mind.Documents.{Registry, Proposal, Event}
use shared_mind.Continuity.Errors.{Code}
use shared_mind.Kernel.Json.{Json, text, member}
use shared_mind.Kernel.Host.{Host}
use shared_mind.Kernel.State.{LedgerRow, LedgerDocument, ReceiptRow, Database, Tables, Outcome}
use shared_mind.Kernel.Validate.{schema_version, validate_versions}
use shared_mind.Kernel.Receipts.{
  Heads, entry_heads, receipt_heads, receipt_document, max_id, ledger_entry, head_entry_hash,
  has_entry_hash, next_ledger_seq, column_text, filter_value, filter_text,
}
use shared_mind.Kernel.Commit.{
  document_of, Submission, rejection, acceptance, outcome_of, ledger_row, open_row,
  representable_proposer, validate_proposal, apply_operations,
}
use shared_mind.Kernel.Commit.Chain.{
  IsChained, IsNext, IsConsistent, ledger_entry-bound, ledger_entry-first, nat_eq-other,
}
use shared_mind.Kernel.Verify.{Reader}
use shared_mind.Kernel.Verify.Entries.{equal-of}
use shared_mind.Kernel.Verify.Histories.{FollowsContract, versions_of}
use shared_mind.Kernel.Verify.Proposals.{apply_operations-conflict_ids}
use shared_mind.Kernel.Verify.Documents.{
  Outcome-discrete, Codes-discrete, Strings-discrete, Proposer-discrete, ReceiptDocument-discrete,
  rejected_document, accepted_document, row_mismatch, accepted_mismatch, conflict_ids_from_events,
}
use shared_mind.Kernel.Verify.Receipts.{
  receipt_row, root_at-head, root_at-grow, IsRejection, IsAcceptance, AllRecorded, head_of,
}

module _ (h : Host) (reader : Reader) where
  IsRejection-grow :
      (new : LedgerRow) (ledger : List LedgerRow) (head : Option String) (r : ReceiptRow)
      → has_entry_hash new.entry_hash ledger ≡ false
      → IsRejection h reader ledger head r
      → IsRejection h reader (new ∷ ledger) head r
  IsRejection-grow new ledger head r fresh i = record {
    entry = i.entry;
    root = root_at-grow h new ledger head r.state_root fresh i.root;
    schema = i.schema;
    valid = i.valid;
    document = i.document;
  }

  IsAcceptance-grow :
      (new : LedgerRow) (ledger : List LedgerRow) (head : Option String) (r : ReceiptRow)
      → IsChained h ledger
      → IsNext h ledger new
      → IsAcceptance h reader ledger head r
      → IsAcceptance h reader (new ∷ ledger) head r
  unfolding ledger_entry
  IsAcceptance-grow new ledger head r c n i =
      let other =
        nat_eq-other new.seq i.seq
          (omega (arith, n.seq, ledger_entry-bound h i.seq ledger i.entry c i.found)) in
      record {
        seq = i.seq;
        entry = i.entry;
        document = i.document;
        stored = i.stored;
        named = i.named;
        found = rw other i.found;
        matches = i.matches;
        leaves = i.leaves;
      }

  pub AllRecorded-grow :
      (new : LedgerRow) (ledger : List LedgerRow) (rs : List ReceiptRow)
      → IsChained h ledger
      → IsNext h ledger new
      → AllRecorded h reader ledger rs
      → AllRecorded h reader (new ∷ ledger) rs
  AllRecorded-grow new ledger [] c n a = tt
  AllRecorded-grow new ledger (r ∷ rs) c n (inl i, rest) = (
    inl (IsRejection-grow new ledger (head_of h reader rs) r n.fresh i),
    AllRecorded-grow new ledger rs c n rest,
  )
  AllRecorded-grow new ledger (r ∷ rs) c n (inr i, rest) = (
    inr (IsAcceptance-grow new ledger (head_of h reader rs) r c n i),
    AllRecorded-grow new ledger rs c n rest,
  )

  -- What the receipts of a database are.
  pub record IsRecorded (db : Database) : Type 0 where
    pub head : head_of h reader db.receipts ≡ head_entry_hash db.ledger
    pub receipts : AllRecorded h reader db.ledger db.receipts

  -- the heads of a receipt without a ledger row
  receipt_heads-none :
      (ledger : List LedgerRow) (heads : Heads)
      → receipt_heads none (head_entry_hash ledger) ledger ≡ ok heads
      → (heads.before ≡ head_entry_hash ledger)
        × (heads.after ≡ head_entry_hash ledger)
        × (heads.entry ≡ none)
  unfolding receipt_heads head_entry_hash
  receipt_heads-none [] heads e = (ground (arith, e), ground (arith, e), ground (arith, e))
  receipt_heads-none (row ∷ rows) heads e =
      (ground (arith, e), ground (arith, e), ground (arith, e))

  column_text-text : (t stored : String) → column_text h (text t) ≡ some stored → stored ≡ t
  unfolding column_text
  column_text-text t stored e = ground (arith, e)

  -- A rejection is recorded behind the head of the ledger.
  pub rejection-IsRejection :
      (s : Submission) (now : String) (outcome : Outcome) (code : Code) (decided_at : Option String)
      (db : Database) (heads : Heads) (stored : String × String)
      → (filter_value h.is_idempotency_key s.key ≡ filter_text h.is_idempotency_key stored.0)
        × (filter_value h.is_record_id s.proposal_id ≡ filter_text h.is_record_id stored.1)
      → IsConsistent h db
      → s.head_before ≡ head_entry_hash db.ledger
      → receipt_heads none s.head_before db.ledger ≡ ok heads
      → (let request = rejection h db.tables s outcome code decided_at in
          let ordinal = max_id db.receipts + 1 in
          h.receipt_valid (receipt_document h now request heads ordinal) ≡ true
          → IsRejection h reader db.ledger
              (head_entry_hash db.ledger)
              (receipt_row h now stored request heads ordinal)
            × ((receipt_row h now stored request heads ordinal).document.head_after
                ≡ head_entry_hash db.ledger))
  unfolding receipt_document rejected_document
  rejection-IsRejection s now outcome code decided_at db heads stored kept c b e valid =
      let (before, after, entry) =
        receipt_heads-none db.ledger heads
          (subst (λ x. receipt_heads none x db.ledger ≡ ok heads) b e) in
      (
        record {
          entry = refl;
          root = root_at-head h db.ledger ∙ ap some (sym c.root);
          schema = refl;
          valid = valid;
          document = rw (before, after, entry, kept.0, kept.1) refl;
        },
        after,
      )

  -- A receipt that agrees with its ledger row in all that is compared.
  accepted_mismatch-false :
      (entry : LedgerRow) (stored : LedgerDocument) (row : ReceiptRow) (opened : List String)
      → conflict_ids_from_events entry.events ≡ opened
      → row.proposal_id ≡ entry.proposal.proposal_id
      → row.proposal_hash ≡ entry.proposal_hash
      → row.idempotency_key ≡ entry.proposal.idempotency_key
      → row.outcome ≡ outcome_of opened
      → row.reason_codes ≡ []
      → row.conflict_ids ≡ opened
      → row.state_root ≡ entry.state_root
      → row.schema_version ≡ schema_version
      → entry.proposal.versions.schema ≡ schema_version
      → row.proposer ≡ reader.proposer_of entry.proposal
      → h.receipt_valid row.document ≡ true
      → row.document ≡ accepted_document h reader entry stored row
      → accepted_mismatch h reader entry.prev_hash entry stored row ≡ false
  unfolding accepted_mismatch row_mismatch
  accepted_mismatch-false entry stored row opened ids id hash key outcome reasons conflicts root
        schema pinned proposer valid document =
      rw
        (
          equal_self Option_String-discrete entry.prev_hash,
          (eq_iff _ _).1 id,
          (eq_iff _ _).1 hash,
          (eq_iff _ _).1 key,
          equal-of Outcome-discrete row.outcome (outcome_of (conflict_ids_from_events entry.events))
              (outcome ∙ ap outcome_of (sym ids)),
          equal-of Codes-discrete row.reason_codes [] reasons,
          equal-of Strings-discrete row.conflict_ids (conflict_ids_from_events entry.events)
              (conflicts ∙ sym ids),
          (eq_iff _ _).1 root,
          (eq_iff _ _).1 schema,
          (eq_iff _ _).1 (pinned ∙ sym schema),
          equal-of Proposer-discrete row.proposer (reader.proposer_of entry.proposal) proposer,
          valid,
          equal-of ReceiptDocument-discrete row.document
              (accepted_document h reader entry stored row) document,
        )
        refl

  module _ (reg : Registry) (follows : FollowsContract h reader reg) where
    pinned_schema :
        (t : Tables) (p : Proposal)
        → validate_proposal h reg t p ≡ ok tt
        → p.versions.schema ≡ schema_version
    unfolding validate_proposal
    pinned_schema t p e =
        let versions = >>=-eq-ok (validate_versions h reg p.versions) _ e in
        (versions_of h reader reg p.versions versions.1).0

    first_heads :
        (new : LedgerRow) (document : LedgerDocument) (rows : List LedgerRow)
        (before : Option String) (heads : Heads)
        → new.document ≡ some document
        → receipt_heads (some new.seq) before (new ∷ rows) ≡ ok heads
        → (heads.before ≡ new.prev_hash)
          × (heads.after ≡ some new.entry_hash)
          × (heads.entry ≡ some document.entry_id)
    unfolding receipt_heads entry_heads
    first_heads new document rows before heads d e =
        let q =
          rw (ledger_entry-first h new.seq new rows refl, receipt_heads, d, entry_heads) at e in
        (ground (arith, q), ground (arith, q), ground (arith, q))

    acceptance_heads :
        (s : Submission) (p : Proposal) (db : Database) (a_tables : Tables) (events : List Event)
        (heads : Heads)
        → (let new = ledger_row h reg p s.proposal_hash db a_tables events in
            receipt_heads (some new.seq) s.head_before (new ∷ db.ledger) ≡ ok heads
            → (heads.before ≡ head_entry_hash db.ledger)
              × (heads.after ≡ some new.entry_hash)
              × (heads.entry ≡ some new.seq))
    unfolding ledger_row open_row
    acceptance_heads s p db a_tables events heads e =
        first_heads (ledger_row h reg p s.proposal_hash db a_tables events)
          (document_of (ledger_row h reg p s.proposal_hash db a_tables events)) db.ledger
          s.head_before heads refl e

    pub acceptance-IsAcceptance :
        (s : Submission) (j : Json) (p : Proposal) (db : Database) (tables : Tables)
        (events : List Event) (opened : List String) (now : String) (heads : Heads)
        (stored : String × String)
        → h.contract j ≡ some p
        → s.key ≡ member "idempotency_key" j
        → column_text h s.key ≡ some stored.0
        → column_text h (text p.proposal_id) ≡ some stored.1
        → s.proposer ≡ representable_proposer h reg j
        → validate_proposal h reg db.tables p ≡ ok tt
        → apply_operations h reg p (next_ledger_seq db.ledger) db.tables
          ≡ ok (tables, events, opened)
        → (let new = ledger_row h reg p s.proposal_hash db tables events in
            let request = acceptance s p new (sorted (distinct opened)) in
            let row = receipt_row h now stored request heads (max_id db.receipts + 1) in
            receipt_heads (some new.seq) s.head_before (new ∷ db.ledger) ≡ ok heads
            → h.receipt_valid row.document ≡ true
            → IsAcceptance h reader (new ∷ db.ledger) (head_entry_hash db.ledger) row
              × (row.document.head_after ≡ some new.entry_hash))
    unfolding acceptance ledger_row open_row receipt_document accepted_document filter_value
    acceptance-IsAcceptance s j p db tables events opened now heads stored contract key kept kept_id
          proposer checked applied located valid =
        let new = ledger_row h reg p s.proposal_hash db tables events in
        let request = acceptance s p new (sorted (distinct opened)) in
        let row = receipt_row h now stored request heads (max_id db.receipts + 1) in
        let named = key ∙ follows.key j p contract in
        let same_key : stored.0 ≡ p.idempotency_key =
          column_text-text p.idempotency_key stored.0
            (subst (λ k. column_text h k ≡ some stored.0) named kept) in
        let same_id : stored.1 ≡ p.proposal_id = column_text-text p.proposal_id stored.1 kept_id in
        let (before, after, entry) = acceptance_heads s p db tables events heads located in
        let ids =
          apply_operations-conflict_ids h reg p (next_ledger_seq db.ledger) db.tables tables events
            opened applied in
        (
          record {
            seq = new.seq;
            entry = new;
            document = document_of new;
            stored = refl;
            named = refl;
            found = ledger_entry-first h new.seq new db.ledger refl;
            matches =
                accepted_mismatch-false new (document_of new) row (sorted (distinct opened)) ids
                  same_id refl same_key refl refl refl refl refl (pinned_schema db.tables p checked)
                  (proposer ∙ follows.proposer j p contract) valid
                  (rw
                    (
                      before,
                      after,
                      entry,
                      ids,
                      named,
                      follows.record_id j p contract,
                      follows.idempotency_key j p contract,
                      follows.time j p contract,
                      proposer ∙ follows.proposer j p contract,
                    )
                    refl);
            leaves = after;
          },
          after,
        )
