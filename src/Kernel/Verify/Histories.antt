-- ===== src/Kernel/Verify/Histories.antt =====
-- `_verify_ledger_rows` of src/shared_mind/kernel.py on the histories of `commit`.
use Prim.Native.String.{len, ◌++◌ as join}
use package.text.Mathlib.TextPositions.{len-append}
use shared_mind.Base.{
  ℕ, ◌+◌, String, true, false, not, ◌≡◌, refl, sym, ap, ◌∙◌, subst, some, List, [], ◌∷◌, ◌==◌, ok,
  is_nil, contains, arith, eq_iff, inl, inr, Bool-cases, >>=-eq-ok, guard-eq-ok,
}
use shared_mind.Documents.{Registry, Proposal, VersionBundle}
use shared_mind.Kernel.Json.{Json, text, member}
use shared_mind.Kernel.Host.{Host, encoded, sha256_bytes, sha256_json, registry}
use shared_mind.Kernel.State.{Bytes, LedgerDocument, LedgerRow, Database, ReceiptRow, Tables}
use shared_mind.Kernel.Validate.{validate_versions, schema_version}
use shared_mind.Kernel.Commit.{
  document_of, Submission, submission, state_root, ledger_row, open_row, validate_proposal,
  representable_proposer,
}
use shared_mind.Kernel.Commit.Outcomes.{Submitted, Accepted}
use shared_mind.Kernel.Commit.Encodings.{commit_row-encoded}
use shared_mind.Kernel.Commit.Chain.{
  IsConsistent, Reached, start, call, Reached-IsConsistent, ledger_row-IsNext,
}
use shared_mind.Kernel.Verify.{Reader, all_events, readable_versions, verify_ledger_rows}
use shared_mind.Kernel.Verify.Rows.{IsVerified, AllFlawless, verify_ledger_rows-AllFlawless}
use shared_mind.Kernel.Verify.Entries.{IsVerified-row_flaws}

-- The contract of the schema: a value that passes it is stored as it is, still passes it, and has a
-- time, a key, a proposer and identifiers of the required form; a ledger entry that passes it has
-- events, which all pass theirs. The document that `commit` stores for a ledger row is canonical JSON.
pub record FollowsContract (h : Host) (reader : Reader) (reg : Registry) : Type 0 where
  pub valid : (j : Json) (p : Proposal) → h.contract j ≡ some p → reader.proposal_valid p ≡ true
  pub time : (j : Json) (p : Proposal) → h.contract j ≡ some p → p.proposed_at == "" ≡ false
  pub stored :
      (j : Json) (p : Proposal) (bytes : Bytes)
      → h.contract j ≡ some p
      → h.encode j ≡ encoded bytes
      → reader.proposal_bytes p ≡ bytes
  pub key :
      (j : Json) (p : Proposal)
      → h.contract j ≡ some p
      → member "idempotency_key" j ≡ text p.idempotency_key
  pub proposer :
      (j : Json) (p : Proposal)
      → h.contract j ≡ some p
      → representable_proposer h reg j ≡ reader.proposer_of p
  pub record_id :
      (j : Json) (p : Proposal) → h.contract j ≡ some p → h.is_record_id p.proposal_id ≡ true
  pub idempotency_key :
      (j : Json) (p : Proposal)
      → h.contract j ≡ some p
      → h.is_idempotency_key p.idempotency_key ≡ true
  pub canonical :
      (row : LedgerRow)
      → row.document ≡ some (document_of row)
      → reader.canonical_document row ≡ true
  pub some_event : (d : LedgerDocument) → h.ledger_entry_valid d ≡ true → is_nil d.events ≡ false
  pub events :
      (d : LedgerDocument)
      → h.ledger_entry_valid d ≡ true
      → all_events reader.event_valid d.events ≡ true

prefixed_not_empty : (s : String) → join "sha256:" s == "" ≡ false
prefixed_not_empty s = elim (Bool-cases (join "sha256:" s == "")) [
  | inr other ↦ other
  | inl empty ↦
      let lengths : Path ℕ (len "sha256:" + len s) 0 =
        sym (len-append "sha256:" s) ∙ ap len ((eq_iff (join "sha256:" s) "").0 empty) in
      absurd (omega (arith, lengths))
]

module _ (h : Host) (reader : Reader) (reg : Registry) where
  -- Every row of a ledger, the newest first, is verified at its place.
  abbrev pub AllVerified : List LedgerRow → Type 0
  AllVerified [] = Unit
  AllVerified (row ∷ rows) = IsVerified h reader reg rows row × AllVerified rows

  AllVerified-AllFlawless :
      (ledger : List LedgerRow) → AllVerified ledger → AllFlawless h reader reg ledger
  AllVerified-AllFlawless [] v = tt
  AllVerified-AllFlawless (row ∷ rows) v =
      (IsVerified-row_flaws h reader reg rows row v.0, AllVerified-AllFlawless rows v.1)

  -- No row is of contract 1.0.0.
  abbrev pub AllCurrent : List LedgerRow → Type 0
  AllCurrent [] = Unit
  AllCurrent (row ∷ rows) = (row.proposal.versions.schema == "1.0.0" ≡ false) × AllCurrent rows

  pub versions_of :
      (v : VersionBundle)
      → validate_versions h reg v ≡ ok tt
      → (v.schema ≡ schema_version) × (v.predicate_registry_hash ≡ sha256_json h (registry reg))
  unfolding validate_versions
  versions_of v e =
      let schema = guard-eq-ok (not (v.schema == schema_version)) _ _ e in
      let version = guard-eq-ok (not (v.predicate_registry == reg.version)) _ _ schema.1 in
      let hash =
        guard-eq-ok (not (v.predicate_registry_hash == sha256_json h (registry reg))) _ _
          version.1 in
      (
        (eq_iff v.schema schema_version).0 (ground (arith, schema.0)),
        (eq_iff v.predicate_registry_hash (sha256_json h (registry reg))).0
            (ground (arith, hash.0)),
      )

  readable_version : (s : String) → s ≡ schema_version → contains s readable_versions ≡ true
  unfolding contains
  readable_version s e = rw e refl

  root_not_empty : (t : Tables) → state_root h t == "" ≡ false
  unfolding state_root sha256_json
  root_not_empty t = prefixed_not_empty (h.sha256_hex _)

  module _ (follows : FollowsContract h reader reg) where
    Accepted-IsVerified :
        (s : Submission) (j : Json) (bytes : Bytes) (p : Proposal) (db db' : Database)
        (row : ReceiptRow)
        → IsConsistent h db
        → h.encode j ≡ encoded bytes
        → h.contract j ≡ some p
        → s.proposal_hash ≡ sha256_bytes h bytes
        → (a : Accepted h reg s p db db' row)
        → IsVerified h reader reg db.ledger
            (ledger_row h reg p s.proposal_hash db a.tables a.events)
    unfolding ledger_row open_row validate_proposal
    Accepted-IsVerified s j bytes p db db' row c encoding contract hash a =
        let new = ledger_row h reg p s.proposal_hash db a.tables a.events in
        let next = ledger_row-IsNext h reg p s.proposal_hash db a.tables a.events c a.fresh in
        let versions = >>=-eq-ok (validate_versions h reg p.versions) _ a.checked in
        let pinned = versions_of p.versions versions.1 in
        record {
          seq = next.seq;
          prev_hash = next.prev_hash;
          proposal_hash =
              ap (sha256_bytes h) (follows.stored j p bytes contract encoding) ∙ sym hash;
          proposal = follows.valid j p contract;
          readable = readable_version p.versions.schema pinned.0;
          registry_hash = pinned.1;
          not_empty = follows.some_event (document_of new) a.valid;
          events = follows.events (document_of new) a.valid;
          document = inr (next.document, a.valid, follows.canonical new next.document);
          pre_root = root_not_empty db.tables;
          time = follows.time j p contract;
          entry_hash = sym next.entry_hash;
        }

    Submitted-AllVerified :
        (now : String) (j : Json) (bytes : Bytes) (db db' : Database) (row : ReceiptRow)
        → IsConsistent h db
        → h.encode j ≡ encoded bytes
        → Submitted h reg
            (submission h reg now j db (sha256_bytes h bytes))
            (h.contract j)
            db
            db'
            row
        → AllVerified db.ledger
        → AllVerified db'.ledger
    unfolding Submitted submission
    Submitted-AllVerified now j bytes db db' row c e (inl r) v =
        subst (λ x. AllVerified x.ledger) (sym r.database) v
    Submitted-AllVerified now j bytes db db' row c e (inr (inl r)) v =
        subst (λ x. AllVerified x.ledger) (sym r.database) v
    Submitted-AllVerified now j bytes db db' row c e (inr (inr (p, q, a))) v =
        subst (λ x. AllVerified x.ledger) (sym a.database)
          (
            Accepted-IsVerified (submission h reg now j db (sha256_bytes h bytes)) j bytes p db db'
                row c e q refl a,
            v,
          )

    Reached-AllVerified : {db : Database} → Reached h reg db → AllVerified db.ledger
    Reached-AllVerified start = tt
    Reached-AllVerified (call {db} {db'} now j row r e) =
        elim (commit_row-encoded h reg now j db db' row e) [
          | inl (hash, rejected) ↦
              subst (λ x. AllVerified x.ledger) (sym rejected.database) (Reached-AllVerified r)
          | inr (bytes, encoding, done) ↦
              Submitted-AllVerified now j bytes db db' row (Reached-IsConsistent h reg r) encoding
                done (Reached-AllVerified r)
        ]

    -- Whatever values were submitted to `commit`, the ledger has no flaw.
    pub verify_ledger_rows-Reached :
        {db : Database} → Reached h reg db → verify_ledger_rows h reader reg db.ledger ≡ []
    verify_ledger_rows-Reached {db} r =
        (verify_ledger_rows-AllFlawless h reader reg db.ledger).1
          (AllVerified-AllFlawless db.ledger (Reached-AllVerified r))
