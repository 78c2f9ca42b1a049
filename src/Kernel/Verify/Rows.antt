-- ===== src/Kernel/Verify/Rows.antt =====
-- What the absence of flaws says of the rows that `_verify_ledger_rows` of src/shared_mind/kernel.py
-- has checked.
use shared_mind.Base.{
  ℕ, suc, ◌+◌, Bool, true, false, ◌≡◌, refl, sym, ap, ◌∙◌, none, some, List, [], ◌∷◌, ◌++◌, ◌==◌,
  ◌↔◌, reverse, reverse-cons, append-nil, append_assoc, is_nil, contains, arith, length, ◌⊎◌,
}
use shared_mind.Documents.{Registry}
use shared_mind.Kernel.Host.{Host, sha256_bytes, sha256_json, envelope, registry}
use shared_mind.Kernel.State.{LedgerRow}
use shared_mind.Kernel.Receipts.{head_entry_hash}
use shared_mind.Kernel.Commit.{envelope_of, document_of}
use shared_mind.Kernel.Verify.{
  Flaw, Reader, flag, all_events, readable_versions, row_flaws, rows_from, verify_ledger_rows,
}

pub flag-nil : (b : Bool) (f : Flaw) → (flag b f ≡ []) ↔ (b ≡ false)
flag-nil true f = (λ h. absurd (cc h), λ h. absurd (cc h))
flag-nil false f = (λ h. refl, λ h. refl)

pub append-nil-both : (xs ys : List Flaw) → (xs ++ ys ≡ []) ↔ ((xs ≡ []) × (ys ≡ []))
append-nil-both [] ys = (λ h. (refl, h), λ h. h.1)
append-nil-both (x ∷ xs) ys = (λ h. absurd (cc h), λ h. absurd (cc h.0))

module _ (h : Host) (reader : Reader) (reg : Registry) where
  -- The rows of a ledger, the newest first, each without a flaw at its place.
  abbrev pub AllFlawless : List LedgerRow → Type 0
  AllFlawless [] = Unit
  AllFlawless (row ∷ rows) =
      (row_flaws h reader reg (length rows + 1) (head_entry_hash rows) row ≡ []) × AllFlawless rows

  abbrev loop : List LedgerRow → List Flaw
  loop = rows_from h reader reg 1 none

  abbrev flaws_of : LedgerRow → List LedgerRow → List Flaw
  flaws_of row rows = row_flaws h reader reg (length rows + 1) (head_entry_hash rows) row

  abbrev Splits : List LedgerRow → Type 0
  Splits ledger =
      (more : List LedgerRow)
      → loop (reverse ledger ++ more)
        ≡ verify_ledger_rows h reader reg ledger
          ++ rows_from h reader reg (length ledger + 1) (head_entry_hash ledger) more

  Splits-cons :
      (row : LedgerRow) (rows more : List LedgerRow)
      → Splits rows
      → loop (reverse (row ∷ rows) ++ more)
        ≡ verify_ledger_rows h reader reg rows
          ++ (flaws_of row rows
              ++ rows_from h reader reg (length rows + 1 + 1) (some row.entry_hash) more)
  unfolding rows_from
  Splits-cons row rows more splits =
      ap (λ xs. loop (xs ++ more)) (reverse-cons row rows)
      ∙ ap loop (append_assoc (reverse rows) (row ∷ []) more)
      ∙ splits (row ∷ more)

  verify_ledger_rows-cons :
      (row : LedgerRow) (rows : List LedgerRow)
      → Splits rows
      → verify_ledger_rows h reader reg (row ∷ rows)
        ≡ verify_ledger_rows h reader reg rows ++ flaws_of row rows
  unfolding verify_ledger_rows rows_from
  verify_ledger_rows-cons row rows splits =
      ap loop (sym (append-nil (reverse (row ∷ rows))))
      ∙ Splits-cons row rows [] splits
      ∙ ap (λ xs. verify_ledger_rows h reader reg rows ++ xs) (append-nil (flaws_of row rows))

  ledger-Splits : (ledger : List LedgerRow) → Splits ledger
  unfolding verify_ledger_rows rows_from head_entry_hash
  ledger-Splits [] more = refl
  ledger-Splits (row ∷ rows) more =
      let splits = ledger-Splits rows in
      let place : Path ℕ (length rows + 1 + 1) (suc (length rows) + 1) = omega arith in
      Splits-cons row rows more splits
      ∙ sym (append_assoc (verify_ledger_rows h reader reg rows) (flaws_of row rows) _)
      ∙ ap (λ xs. xs ++ rows_from h reader reg (length rows + 1 + 1) (some row.entry_hash) more)
          (sym (verify_ledger_rows-cons row rows splits))
      ∙ ap
          (λ n.
            verify_ledger_rows h reader reg (row ∷ rows)
            ++ rows_from h reader reg n (some row.entry_hash) more)
          place

  -- The loop finds nothing exactly where each row has no flaw at its place.
  pub verify_ledger_rows-AllFlawless :
      (ledger : List LedgerRow) → (verify_ledger_rows h reader reg ledger ≡ []) ↔ AllFlawless ledger
  unfolding verify_ledger_rows rows_from
  verify_ledger_rows-AllFlawless [] = (λ e. tt, λ e. refl)
  verify_ledger_rows-AllFlawless (row ∷ rows) =
      let whole = verify_ledger_rows-cons row rows (ledger-Splits rows) in
      let both = append-nil-both (verify_ledger_rows h reader reg rows) (flaws_of row rows) in
      let older = verify_ledger_rows-AllFlawless rows in
      (
        λ e. let parts = both.0 (sym whole ∙ e) in (parts.1, older.0 parts.0),
        λ e. whole ∙ both.1 (older.1 e.1, e.0),
      )

  -- A row has the valid document of its columns, as canonical JSON, or is of contract 1.1.0 and has none.
  abbrev pub IsDocumented : LedgerRow → Type 0
  IsDocumented row =
      ((row.document ≡ none) × (row.proposal.versions.schema ≡ "1.1.0"))
      ⊎ ((row.document ≡ some (document_of row))
          × (h.ledger_entry_valid (document_of row) ≡ true)
          × (reader.canonical_document row ≡ true))

  -- A row of a contract after 1.0.0 that stands at its place with all that it claims.
  pub record IsVerified (rows : List LedgerRow) (row : LedgerRow) : Type 0 where
    pub seq : row.seq ≡ length rows + 1
    pub prev_hash : row.prev_hash ≡ head_entry_hash rows
    pub proposal_hash : sha256_bytes h (reader.proposal_bytes row.proposal) ≡ row.proposal_hash
    pub proposal : reader.proposal_valid row.proposal ≡ true
    pub readable : contains row.proposal.versions.schema readable_versions ≡ true
    pub registry_hash : row.proposal.versions.predicate_registry_hash ≡ sha256_json h (registry reg)
    pub not_empty : is_nil row.events ≡ false
    pub events : all_events reader.event_valid row.events ≡ true
    pub document : IsDocumented row
    pub pre_root : row.pre_state_root == "" ≡ false
    pub time : row.committed_at == "" ≡ false
    pub entry_hash : sha256_json h (envelope (envelope_of row)) ≡ row.entry_hash
