-- ===== src/Kernel/Verify/Entries.antt =====
-- One row of the ledger under `_verify_ledger_rows` of src/shared_mind/kernel.py.
use shared_mind.Base.{
  ℕ, ◌+◌, String, Bool, true, false, not, ◌||◌, ◌≡◌, refl, ap, ◌∙◌, Option, none, some, subst, List,
  [], ◌∷◌, ◌==◌, nat_eq, is_nil, equal, equal_self, contains, arith, eq_iff, inl, inr, Bool-cases,
  if◌then◌else◌, Option_String-discrete, length,
}
use shared_mind.Documents.{Registry}
use shared_mind.Kernel.Host.{Host, sha256_bytes, sha256_json, envelope, registry}
use shared_mind.Kernel.State.{LedgerDocument, LedgerRow}
use shared_mind.Kernel.Receipts.{head_entry_hash}
use shared_mind.Kernel.Commit.{envelope_of, document_of}
use shared_mind.Kernel.Verify.{
  Flaw, Reader, LedgerDocument-discrete, flag, all_events, readable_versions, entry_flaws,
  document_mismatch, document_flaws, schema_flaws, row_flaws,
}
use shared_mind.Kernel.Verify.Rows.{IsVerified, IsDocumented, flag-nil, append-nil-both}

equal-true {ℓ} : {A : Type ℓ} (d : Discrete A) (a b : A) → equal d a b ≡ true → a ≡ b
equal-true d a b e = ground (arith, e)

pub equal-of {ℓ} : {A : Type ℓ} (d : Discrete A) (a b : A) → a ≡ b → equal d a b ≡ true
equal-of d a b e = subst (λ x. equal d a x ≡ true) e (equal_self d a)

not-false : (b : Bool) → not b ≡ false → b ≡ true
not-false true h = refl
not-false false h = absurd (cc h)

pub not-true : (b : Bool) → b ≡ true → not b ≡ false
not-true true h = refl
not-true false h = absurd (cc h)

complete :
    (a b : Bool) (f : Flaw) (rest : List Flaw)
    → (if a || b then f ∷ [] else rest) ≡ []
    → (a ≡ false) × (b ≡ false) × (rest ≡ [])
complete true b f rest e = absurd (cc e)
complete false true f rest e = absurd (cc e)
complete false false f rest e = (refl, refl, e)

supported :
    (legacy readable : Bool) (old body : List Flaw) (f : Flaw)
    → legacy ≡ false
    → (if legacy then old else if readable then body else f ∷ []) ≡ []
    → (readable ≡ true) × (body ≡ [])
supported true readable old body f l e = absurd (cc l)
supported false true old body f l e = (refl, e)
supported false false old body f l e = absurd (cc e)

false≢true : false ≡ true → ⊥
false≢true h = cc

either : (a b : Bool) → a ≡ false → b ≡ true → (a || not b) ≡ false
either a b p q = rw (p, q) refl

module _ (h : Host) (reader : Reader) (reg : Registry) where
  flagged : (b : Bool) (f : Flaw) → flag (not b) f ≡ [] → b ≡ true
  flagged b f e = not-false b ((flag-nil (not b) f).0 e)

  unflagged : (b : Bool) (f : Flaw) → b ≡ true → flag (not b) f ≡ []
  unflagged b f e = (flag-nil (not b) f).1 (not-true b e)

  all_three :
      (a b c : Bool) → (not a || not b || not c) ≡ false → (a ≡ true) × (b ≡ true) × (c ≡ true)
  all_three true true true e = (refl, refl, refl)
  all_three true true false e = absurd (cc e)
  all_three true false c e = absurd (cc e)
  all_three false b c e = absurd (cc e)

  neither : (a b : Bool) (f : Flaw) → flag (a || not b) f ≡ [] → (a ≡ false) × (b ≡ true)
  neither false b f e = (refl, flagged b f e)
  neither true b f e = absurd (cc e)

  same_number : (a b : ℕ) → nat_eq a b ≡ true → a ≡ b
  same_number a b e = ground (arith, e)

  entry_flaws-nil :
      (row : LedgerRow)
      → entry_flaws h reader reg row ≡ []
      → (row.pre_state_root == "" ≡ false)
        × (row.committed_at == "" ≡ false)
        × (sha256_json h (envelope (envelope_of row)) ≡ row.entry_hash)
  unfolding entry_flaws
  entry_flaws-nil row e =
      let (root, time, rest) = complete (row.pre_state_root == "") (row.committed_at == "") _ _ e in
      (root, time, (eq_iff _ row.entry_hash).0 (flagged _ _ rest))

  entry_flaws-none :
      (row : LedgerRow)
      → row.pre_state_root == "" ≡ false
      → row.committed_at == "" ≡ false
      → sha256_json h (envelope (envelope_of row)) ≡ row.entry_hash
      → entry_flaws h reader reg row ≡ []
  unfolding entry_flaws
  entry_flaws-none row r t e = rw (r, t) (unflagged _ _ (equal-texts _ _ e))
    where
      equal-texts : (s t : String) → s ≡ t → s == t ≡ true
      equal-texts s t e = (eq_iff s t).1 e

  -- The part of `IsVerified` that is behind the version of the contract.
  schema_flaws-nil :
      (row : LedgerRow)
      → row.proposal.versions.schema == "1.0.0" ≡ false
      → schema_flaws h reader reg row ≡ []
      → (contains row.proposal.versions.schema readable_versions ≡ true)
        × (row.proposal.versions.predicate_registry_hash == sha256_json h (registry reg) ≡ true)
        × (is_nil row.events ≡ false)
        × (all_events reader.event_valid row.events ≡ true)
        × (document_flaws h reader reg row ≡ [])
        × (entry_flaws h reader reg row ≡ [])
  unfolding schema_flaws
  schema_flaws-nil row current e =
      let (readable, body) =
        supported (row.proposal.versions.schema == "1.0.0")
          (contains row.proposal.versions.schema readable_versions) _ _ _ current e in
      let entries = (append-nil-both _ _).0 body in
      let documents = (append-nil-both _ _).0 entries.0 in
      let parts = (append-nil-both _ _).0 documents.0 in
      let events =
        neither (is_nil row.events) (all_events reader.event_valid row.events) _ parts.1 in
      (readable, flagged _ _ parts.0, events.0, events.1, documents.1, entries.1)

  document_mismatch-IsDocumented :
      (row : LedgerRow) (document : Option LedgerDocument)
      → row.document ≡ document
      → document_mismatch h reader reg row document ≡ false
      → IsDocumented h reader reg row
  unfolding document_mismatch
  document_mismatch-IsDocumented row none e clean =
      inl (e, (eq_iff _ _).0 (not-false (row.proposal.versions.schema == "1.1.0") clean))
  document_mismatch-IsDocumented row (some document) e clean =
      let (valid, equals, canonical) =
        all_three (h.ledger_entry_valid document)
          (equal LedgerDocument-discrete document (document_of row)) (reader.canonical_document row)
          clean in
      let same = equal-true LedgerDocument-discrete document (document_of row) equals in
      inr (e ∙ ap some same, subst (λ d. h.ledger_entry_valid d ≡ true) same valid, canonical)

  document_flaws-nil :
      (row : LedgerRow) → document_flaws h reader reg row ≡ [] → IsDocumented h reader reg row
  unfolding document_flaws
  document_flaws-nil row e =
      document_mismatch-IsDocumented row row.document refl ((flag-nil _ _).0 e)

  IsDocumented-document_mismatch :
      (row : LedgerRow)
      → IsDocumented h reader reg row
      → document_mismatch h reader reg row row.document ≡ false
  unfolding document_mismatch
  IsDocumented-document_mismatch row (inl (missing, version)) =
      rw (missing, document_mismatch) (not-true _ ((eq_iff _ _).1 version))
  IsDocumented-document_mismatch row (inr (stored, valid, canonical)) =
      rw
        (
          stored,
          document_mismatch,
          valid,
          canonical,
          equal_self LedgerDocument-discrete (document_of row),
        )
        refl

  -- A row without a flaw is verified.
  pub row_flaws-IsVerified :
      (rows : List LedgerRow) (row : LedgerRow)
      → row.proposal.versions.schema == "1.0.0" ≡ false
      → row_flaws h reader reg (length rows + 1) (head_entry_hash rows) row ≡ []
      → IsVerified h reader reg rows row
  unfolding row_flaws
  row_flaws-IsVerified rows row current e =
      let whole = (append-nil-both _ _).0 e in
      let checked = (append-nil-both _ _).0 whole.0 in
      let hashed = (append-nil-both _ _).0 checked.0 in
      let placed = (append-nil-both _ _).0 hashed.0 in
      let (readable, registered, some_event, events, documents, entries) =
        schema_flaws-nil row current whole.1 in
      let document = document_flaws-nil row documents in
      let (root, time, hash) = entry_flaws-nil row entries in
      record {
        seq = same_number row.seq (length rows + 1) (flagged _ _ placed.0);
        prev_hash = equal-true Option_String-discrete _ _ (flagged _ _ placed.1);
        proposal_hash = (eq_iff _ row.proposal_hash).0 (flagged _ _ hashed.1);
        proposal = flagged _ _ checked.1;
        readable = readable;
        registry_hash = (eq_iff _ _).0 registered;
        not_empty = some_event;
        events = events;
        document = document;
        pre_root = root;
        time = time;
        entry_hash = hash;
      }

  number : (a b : ℕ) → a ≡ b → nat_eq a b ≡ true
  number a b e = ground (arith, e)

  not_legacy : (s : String) → contains s readable_versions ≡ true → s == "1.0.0" ≡ false
  unfolding contains
  not_legacy s r = elim (Bool-cases (s == "1.0.0")) [
    | inr other ↦ other
    | inl legacy ↦ absurd (
        false≢true
          (subst (λ x. contains x readable_versions ≡ true) ((eq_iff s "1.0.0").0 legacy) r))
  ]

  IsVerified-schema_flaws :
      (rows : List LedgerRow) (row : LedgerRow)
      → IsVerified h reader reg rows row
      → schema_flaws h reader reg row ≡ []
  unfolding schema_flaws document_flaws
  IsVerified-schema_flaws rows row v =
      rw (not_legacy row.proposal.versions.schema v.readable, v.readable)
        ((append-nil-both _ _).1 (
          (append-nil-both _ _).1 (
            (append-nil-both _ _).1 (
              unflagged _ _ ((eq_iff _ _).1 v.registry_hash),
              (flag-nil _ _).1 (either _ _ v.not_empty v.events),
            ),
            (flag-nil _ _).1 (IsDocumented-document_mismatch row v.document),
          ),
          entry_flaws-none row v.pre_root v.time v.entry_hash,
        ))

  -- A verified row has no flaw.
  pub IsVerified-row_flaws :
      (rows : List LedgerRow) (row : LedgerRow)
      → IsVerified h reader reg rows row
      → row_flaws h reader reg (length rows + 1) (head_entry_hash rows) row ≡ []
  unfolding row_flaws
  IsVerified-row_flaws rows row v =
      let place = (append-nil-both _ _).1 (
        unflagged (nat_eq row.seq (length rows + 1)) _ (number row.seq (length rows + 1) v.seq),
        unflagged (equal Option_String-discrete row.prev_hash (head_entry_hash rows)) _
            (equal-of Option_String-discrete _ _ v.prev_hash),
      ) in
      let hashed = (append-nil-both _ _).1 (
        place,
        unflagged (sha256_bytes h (reader.proposal_bytes row.proposal) == row.proposal_hash) _
            ((eq_iff _ row.proposal_hash).1 v.proposal_hash),
      ) in
      let checked =
        (append-nil-both _ _).1
          (hashed, unflagged (reader.proposal_valid row.proposal) _ v.proposal) in
      (append-nil-both _ _).1 (checked, IsVerified-schema_flaws rows row v)
