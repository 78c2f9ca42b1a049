-- ===== src/Kernel/Commit/Chain.antt =====
-- The ledger and the receipts that calls of `Kernel.commit` leave (src/shared_mind/kernel.py).
use shared_mind.Base.{
  ◌≡◌, ◌≢◌, refl, sym, subst, ◌+◌, ◌≤◌, ℕ, String, true, false, Option, some, List, [], ◌∷◌, ok,
  arith, inl, inr, Bool-cases, length, nat_eq,
}
use shared_mind.Documents.{Registry, Proposal, Event}
use shared_mind.Kernel.Json.{Json}
use shared_mind.Kernel.Host.{Host, sha256_json, envelope}
use shared_mind.Kernel.State.{Tables, LedgerRow, ReceiptRow, Database, no_tables, new_database}
use shared_mind.Kernel.Receipts.{
  next_ledger_seq, max_seq, head_entry_hash, has_entry_hash, ledger_entry,
}
use shared_mind.Kernel.Commit.{
  Submission, state_root, envelope_of, document_of, submission, open_row, ledger_row, commit_row,
}
use shared_mind.Kernel.Commit.Outcomes.{Submitted, commit_row-cases}

nat_eq-same : (a b : ℕ) → nat_eq a b ≡ true → a ≡ b
nat_eq-same a b e = ground (arith, e)

pub nat_eq-other : (a b : ℕ) → a ≢ b → nat_eq a b ≡ false
nat_eq-other a b n = ground (arith, n)

module _ (h : Host) where
  -- the root that the ledger ends with
  unfoldable pub head_root : List LedgerRow → String
  head_root [] = state_root h no_tables
  head_root (row ∷ _) = row.state_root

  -- A row continues a ledger: its number, its link, its two roots, its hash and its document.
  pub record IsNext (rows : List LedgerRow) (row : LedgerRow) : Type 0 where
    pub seq : row.seq ≡ length rows + 1
    pub prev_hash : row.prev_hash ≡ head_entry_hash rows
    pub pre_root : row.pre_state_root ≡ head_root rows
    pub entry_hash : row.entry_hash ≡ sha256_json h (envelope (envelope_of row))
    pub document : row.document ≡ some (document_of row)
    pub fresh : has_entry_hash row.entry_hash rows ≡ false

  unfoldable pub IsChained : List LedgerRow → Type 0
  IsChained [] = Unit
  IsChained (row ∷ rows) = IsNext rows row × IsChained rows

  -- A receipt that names a ledger row agrees with it.
  unfoldable pub IsBacked : List LedgerRow → ReceiptRow → Type 0
  IsBacked ledger receipt =
      (seq : ℕ)
      → receipt.ledger_seq ≡ some seq
      → (row : LedgerRow) × (ledger_entry seq ledger ≡ some row)
        × (row.state_root ≡ receipt.state_root)
        × (row.proposal_hash ≡ receipt.proposal_hash)

  unfoldable pub AllBacked : List LedgerRow → List ReceiptRow → Type 0
  AllBacked ledger [] = Unit
  AllBacked ledger (r ∷ rs) = IsBacked ledger r × AllBacked ledger rs

  pub record IsConsistent (db : Database) : Type 0 where
    pub chained : IsChained db.ledger
    pub root : state_root h db.tables ≡ head_root db.ledger
    pub backed : AllBacked db.ledger db.receipts

  pub new_database-IsConsistent : IsConsistent new_database
  unfolding IsChained head_root AllBacked
  new_database-IsConsistent = record { chained = tt; root = refl; backed = tt }

  -- The number of a row is its position from the start.
  max_seq-length : (rows : List LedgerRow) → IsChained rows → max_seq rows ≡ length rows
  unfolding max_seq IsChained
  max_seq-length [] c = refl
  max_seq-length (row ∷ rows) c = omega (arith, c.0.seq, max_seq-length rows c.1)

  pub ledger_entry-bound :
      (seq : ℕ) (rows : List LedgerRow) (row : LedgerRow)
      → IsChained rows
      → ledger_entry seq rows ≡ some row
      → seq ≤ length rows
  unfolding ledger_entry IsChained
  ledger_entry-bound seq [] row c e = absurd (ground (arith, e))
  ledger_entry-bound seq (r ∷ rows) row c e = elim (Bool-cases (nat_eq r.seq seq)) [
    | inl p ↦ omega (arith, nat_eq-same r.seq seq p, c.0.seq)
    | inr p ↦ omega (arith, ledger_entry-bound seq rows row c.1 (rw (p, ledger_entry) at e))
  ]

  pub ledger_entry-first :
      (seq : ℕ) (row : LedgerRow) (rows : List LedgerRow)
      → row.seq ≡ seq
      → ledger_entry seq (row ∷ rows) ≡ some row
  unfolding ledger_entry
  ledger_entry-first seq row rows e = ground (arith, e)

  -- An old receipt stays backed when a row is added.
  IsBacked-grow :
      (new : LedgerRow) (rows : List LedgerRow) (r : ReceiptRow)
      → IsChained rows
      → IsNext rows new
      → IsBacked rows r
      → IsBacked (new ∷ rows) r
  unfolding IsBacked ledger_entry
  IsBacked-grow new rows r c n b seq e =
      let (row, found, root, hash) = b seq e in
      let other =
        nat_eq-other new.seq seq (omega (arith, n.seq, ledger_entry-bound seq rows row c found)) in
      (row, rw other found, root, hash)

  AllBacked-grow :
      (new : LedgerRow) (rows : List LedgerRow) (rs : List ReceiptRow)
      → IsChained rows
      → IsNext rows new
      → AllBacked rows rs
      → AllBacked (new ∷ rows) rs
  unfolding AllBacked
  AllBacked-grow new rows [] c n b = tt
  AllBacked-grow new rows (r ∷ rs) c n b =
      (IsBacked-grow new rows r c n b.0, AllBacked-grow new rows rs c n b.1)

  module _ (reg : Registry) where
    -- The row of an accepted proposal continues the ledger.
    pub ledger_row-IsNext :
        (p : Proposal) (hash : String) (db : Database) (t : Tables) (events : List Event)
        → IsConsistent db
        → has_entry_hash (ledger_row h reg p hash db t events).entry_hash db.ledger ≡ false
        → IsNext db.ledger (ledger_row h reg p hash db t events)
    unfolding ledger_row open_row next_ledger_seq
    ledger_row-IsNext p hash db t events s f = record {
      seq = omega (arith, max_seq-length db.ledger s.chained);
      prev_hash = refl;
      pre_root = s.root;
      entry_hash = refl;
      document = refl;
      fresh = f;
    }

    Submitted-IsConsistent :
        (s : Submission) (contract : Option Proposal) (db db' : Database) (row : ReceiptRow)
        → Submitted h reg s contract db db' row
        → IsConsistent db
        → IsConsistent db'
    unfolding Submitted IsChained AllBacked IsBacked head_root ledger_row open_row
    Submitted-IsConsistent s contract db db' row (inl r) c =
        subst IsConsistent (sym r.database) (record {
          chained = c.chained;
          root = c.root;
          backed = (λ seq e. cc (e, r.ledger_seq), c.backed);
        })
    Submitted-IsConsistent s contract db db' row (inr (inl r)) c =
        subst IsConsistent (sym r.database) c
    Submitted-IsConsistent s contract db db' row (inr (inr (p, q, a))) c =
        let new = ledger_row h reg p s.proposal_hash db a.tables a.events in
        let next = ledger_row-IsNext p s.proposal_hash db a.tables a.events c a.fresh in
        subst IsConsistent (sym a.database) (record {
          chained = (next, c.chained);
          root = refl;
          backed = (
            λ seq e. (
              new,
              ledger_entry-first seq new db.ledger (ground (arith, e, a.ledger_seq)),
              sym a.root,
              sym a.proposal_hash,
            ),
            AllBacked-grow new db.ledger db.receipts c.chained next c.backed,
          );
        })

    -- Every call of `commit` keeps the database consistent.
    pub commit_row-IsConsistent :
        (now : String) (j : Json) (db db' : Database) (row : ReceiptRow)
        → commit_row h reg now j db ≡ ok (db', row)
        → IsConsistent db
        → IsConsistent db'
    commit_row-IsConsistent now j db db' row e c =
        let (hash, done) = commit_row-cases h reg now j db db' row e in
        Submitted-IsConsistent (submission h reg now j db hash) (h.contract j) db db' row done c

    -- The databases that calls of `commit` make from a new one.
    pub data Reached : Database → Type 0 where
      start : Reached new_database
      call :
          {db db' : Database} (now : String) (j : Json) (row : ReceiptRow)
          → Reached db
          → commit_row h reg now j db ≡ ok (db', row)
          → Reached db'

    -- Whatever values were submitted to `commit`, in whatever order, from a new database on: each ledger
    -- row has the number after the row before it, links to its hash, starts at its state root, and
    -- carries the hash of its own envelope, which no earlier row has; the tables have the state root of
    -- the last row; and a receipt that names a ledger row agrees with it on the proposal and the root.
    pub Reached-IsConsistent : {db : Database} → Reached db → IsConsistent db
    Reached-IsConsistent start = new_database-IsConsistent
    Reached-IsConsistent (call {db} {db'} now j row r e) =
        commit_row-IsConsistent now j db db' row e (Reached-IsConsistent r)
