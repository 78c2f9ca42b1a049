-- ===== src/Kernel/Replay/History.antt =====
-- `Kernel._replay_rows` on the ledgers of `Kernel._commit` (src/shared_mind/kernel.py).
use shared_mind.Base.{
  find, ◌≡◌, refl, sym, ap, subst, ◌∙◌, inl, inr, ℕ, String, Option, none, some, List, [], ◌∷◌,
  arith, reverse, reverse-cons, Result, ok, ◌>>=◌, >>=-eq-ok, fold_result, fold_result-append,
  equal_self, Option_String-discrete, eq_refl,
}
use shared_mind.Documents.{Registry, Proposal, Operation, Actor}
use shared_mind.Continuity.Errors.{Failure}
use shared_mind.Kernel.Json.{Json}
use shared_mind.Kernel.Host.{Host}
use shared_mind.Kernel.State.{Tables, LedgerRow, ReceiptRow, Database, no_tables, new_database}
use shared_mind.Kernel.Operations.{Progress, apply_operation}
use shared_mind.Kernel.References.{validate_continuity_references}
use shared_mind.Kernel.Validate.{
  validate_versions, validate_required_operation_reads, validate_reads_and_guards,
}
use shared_mind.Kernel.Receipts.{next_ledger_seq, head_entry_hash}
use shared_mind.Kernel.Commit.{
  Submission, submission, state_root, validate_proposal, apply_operations, ledger_row, open_row,
  commit_row,
}
use shared_mind.Kernel.Commit.Outcomes.{Accepted, Submitted, commit_row-cases}
use shared_mind.Kernel.Commit.Chain.{Reached, start, call}
use shared_mind.Kernel.Replay.{
  apply_replay_events, replay_failure, replay_row, replay_from, replay_rows,
}
use shared_mind.Kernel.Replay.Families.{IsSound, Separates}
use shared_mind.Kernel.Replay.Traces.{ReplaysTo, ReplaysTo-refl, ReplaysTo-trans}
use shared_mind.Kernel.Replay.Events.{Replayed, apply_operation-Replayed}

pub no_tables-IsSound : (h : Host) (reg : Registry) → IsSound h reg no_tables
unfolding find
no_tables-IsSound h reg = record {
  claim_keys = tt;
  conflict_keys = tt;
  known = λ id row found. absurd (ground (arith, found));
  sound = λ id row found. absurd (ground (arith, found));
}

module _ (h : Host) (reg : Registry) (separates : Separates h reg) where
  operations-Replayed :
      (proposer : Actor) (opened_seq : ℕ) (ops : List Operation) (p p' : Progress)
      → IsSound h reg p.0
      → fold_result (apply_operation h reg proposer opened_seq) ops p ≡ ok p'
      → Replayed h reg p.0 p.1 p'.0 p'.1
  unfolding fold_result Replayed
  operations-Replayed proposer opened_seq [] p p' s e =
      let same : Path Progress p p' = ground (arith, e) in
      subst (λ (x : Progress). Replayed h reg p.0 p.1 x.0 x.1) same
        (s, ReplaysTo-refl h reg p.0 p.1)
  operations-Replayed proposer opened_seq (op ∷ ops) p p' s e =
      let r = >>=-eq-ok (apply_operation h reg proposer opened_seq op p) _ e in
      let first = apply_operation-Replayed h reg separates proposer opened_seq op p r.0 s r.1 in
      let rest = operations-Replayed proposer opened_seq ops r.0 p' first.0 r.2 in
      (rest.0, ReplaysTo-trans h reg p.0 r.0.0 p'.0 p.1 r.0.1 p'.1 first.1 rest.1)

  checked_references :
      (t : Tables) (p : Proposal)
      → validate_proposal h reg t p ≡ ok tt
      → validate_continuity_references h reg t p.operations ≡ ok tt
  unfolding validate_proposal
  checked_references t p e =
      let a = >>=-eq-ok (validate_versions h reg p.versions) _ e in
      let b = >>=-eq-ok (validate_required_operation_reads p) _ a.2 in
      let c = >>=-eq-ok (validate_reads_and_guards h reg t p) _ b.2 in c.2

  -- The ledger row of an accepted proposal replays to the tables that the proposal left.
  Accepted-replay_row :
      (s : Submission) (p : Proposal) (db db' : Database) (row : ReceiptRow)
      (a : Accepted h reg s p db db' row)
      → IsSound h reg db.tables
      → IsSound h reg a.tables
        × (replay_row h reg
              (ledger_row h reg p s.proposal_hash db a.tables a.events)
              (head_entry_hash db.ledger)
              db.tables
            ≡ ok a.tables)
  unfolding replay_row replay_failure ledger_row open_row apply_operations Replayed ReplaysTo
  Accepted-replay_row s p db db' row a sound =
      let r =
        operations-Replayed p.proposer (next_ledger_seq db.ledger) p.operations (db.tables, [], [])
          (a.tables, a.events, a.opened) sound a.applied in
      let replayed : apply_replay_events h reg a.events db.tables ≡ ok a.tables = rw r.1.1 r.1.2 in
      (
        r.0,
        rw (
          eq_refl (state_root h db.tables),
          checked_references db.tables p a.checked,
          replayed,
          eq_refl (state_root h a.tables),
          equal_self Option_String-discrete (head_entry_hash db.ledger),
        ),
      )

  -- The tables are sound and are what the ledger replays to.
  Replays : Database → Type 0
  Replays db =
      IsSound h reg db.tables
      × (replay_from h reg (reverse db.ledger) (none, no_tables)
          ≡ ok (head_entry_hash db.ledger, db.tables))

  replay_from-row :
      (new : LedgerRow) (ledger : List LedgerRow) (t t' : Tables)
      → replay_from h reg (reverse ledger) (none, no_tables) ≡ ok (head_entry_hash ledger, t)
      → replay_row h reg new (head_entry_hash ledger) t ≡ ok t'
      → replay_from h reg (reverse (new ∷ ledger)) (none, no_tables) ≡ ok (some new.entry_hash, t')
  unfolding replay_from fold_result
  replay_from-row new ledger t t' old next =
      ap (λ (rows : List LedgerRow). replay_from h reg rows (none, no_tables))
        (reverse-cons new ledger)
      ∙ fold_result-append _ (reverse ledger) (new ∷ []) (none, no_tables)
      ∙ after (replay_from h reg (reverse ledger) (none, no_tables)) old
    where
      after :
          (r : Result Failure (Option String × Tables))
          → r ≡ ok (head_entry_hash ledger, t)
          → (r >>= replay_from h reg (new ∷ [])) ≡ ok (some new.entry_hash, t')
      after r p = rw (p, next)

  Submitted-Replays :
      (s : Submission) (contract : Option Proposal) (db db' : Database) (row : ReceiptRow)
      → Submitted h reg s contract db db' row
      → Replays db
      → Replays db'
  unfolding Submitted Replays head_entry_hash
  Submitted-Replays s contract db db' row (inl r) c = subst Replays (sym r.database) c
  Submitted-Replays s contract db db' row (inr (inl r)) c = subst Replays (sym r.database) c
  Submitted-Replays s contract db db' row (inr (inr (p, q, a))) c =
      let r = Accepted-replay_row s p db db' row a c.0 in
      let new = ledger_row h reg p s.proposal_hash db a.tables a.events in
      subst Replays (sym a.database) (r.0, replay_from-row new db.ledger db.tables a.tables c.1 r.1)

  commit_row-Replays :
      (now : String) (j : Json) (db db' : Database) (row : ReceiptRow)
      → commit_row h reg now j db ≡ ok (db', row)
      → Replays db
      → Replays db'
  commit_row-Replays now j db db' row e c =
      let (hash, done) = commit_row-cases h reg now j db db' row e in
      Submitted-Replays (submission h reg now j db hash) (h.contract j) db db' row done c

  new_database-Replays : Replays new_database
  unfolding Replays replay_from fold_result head_entry_hash
  new_database-Replays = (no_tables-IsSound h reg, refl)

  Reached-Replays : {db : Database} → Reached h reg db → Replays db
  Reached-Replays start = new_database-Replays
  Reached-Replays (call {db} {db'} now j row r e) =
      commit_row-Replays now j db db' row e (Reached-Replays r)

  -- Whatever values were submitted to `commit`, in whatever order, from a new database on: replaying
  -- the ledger on an empty target succeeds, its checks of the state roots and of the links included,
  -- and gives exactly the tables of the database. The registry must separate families: two claims
  -- that share a family under the predicate of one share it under the predicate of the other.
  pub replay_rows-Reached :
      {db : Database} → Reached h reg db → replay_rows h reg db.ledger ≡ ok db.tables
  unfolding replay_rows Replays
  replay_rows-Reached r = rw (Reached-Replays r).1
