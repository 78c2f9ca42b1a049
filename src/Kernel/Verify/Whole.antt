-- ===== src/Kernel/Verify/Whole.antt =====
-- `verify_ledger` and `replay` of src/shared_mind/kernel.py. The target of a replay is a new database
-- in memory.
use shared_mind.Base.{
  ℕ, String, Bool, Option, List, [], ◌∷◌, ◌++◌, ◌==◌, if◌then◌else◌, is_nil, length, Result, ok,
  err, ◌>>=◌,
}
use shared_mind.Documents.{Registry}
use shared_mind.Continuity.Errors.{Failure, validation_failure}
use shared_mind.Kernel.Host.{Host}
use shared_mind.Kernel.State.{LedgerRow, Database, Tables}
use shared_mind.Kernel.Receipts.{head_entry_hash}
use shared_mind.Kernel.Commit.{state_root}
use shared_mind.Kernel.Replay.{replay_rows}
use shared_mind.Kernel.Verify.{
  Flaw, Reader, verify_ledger_rows, materialized_state_root_mismatch, replay_state_root_mismatch,
  replay_failed,
}
use shared_mind.Kernel.Verify.Documents.{verify_receipt_documents, verify_accepted_receipt_coverage}

pub record Report : Type 0 where
  pub valid : Bool
  pub checked_entries : ℕ
  pub head_hash : Option String
  pub state_root : String
  pub errors : List Flaw

-- What `replay` raises: the first flaw of the ledger, or what the replay of its rows has raised.
pub data Refusal : Type 0 where
  flawed : Flaw → Refusal
  raised : Failure → Refusal

unfoldable pub as_refusal : Result Failure Tables → Result Refusal Tables
as_refusal (ok t) = ok t
as_refusal (err e) = err (raised e)

module _ (h : Host) (reader : Reader) (reg : Registry) where
  -- The flaws that `replay` and `verify_ledger` look for first.
  unfoldable pub stored_flaws : Database → List Flaw
  unfolding verify_ledger_rows verify_receipt_documents verify_accepted_receipt_coverage
  stored_flaws db =
      verify_ledger_rows h reader reg db.ledger
      ++ verify_receipt_documents h reader db
      ++ verify_accepted_receipt_coverage db

  unfoldable pub replay_unless : List Flaw → Database → Result Refusal Tables
  unfolding as_refusal replay_rows
  replay_unless (flaw ∷ _) db = err (flawed flaw)
  replay_unless [] db = as_refusal (replay_rows h reg db.ledger)

  unfoldable pub replay : Database → Result Refusal Tables
  unfolding replay_unless stored_flaws
  replay db = replay_unless (stored_flaws db) db

  unfoldable pub root_flaws_of : String → List LedgerRow → List Flaw
  root_flaws_of root [] = []
  root_flaws_of root (row ∷ _) =
      if row.state_root == root then [] else materialized_state_root_mismatch row.seq ∷ []

  -- rows[-1]["state_root"] != current_root
  unfoldable pub root_flaws : Database → List Flaw
  unfolding state_root root_flaws_of
  root_flaws db = root_flaws_of (state_root h db.tables) db.ledger

  -- What the replay adds to the errors; an error that is no ValidationFailure leaves `verify_ledger`.
  unfoldable pub replayed_flaws : String → Result Refusal Tables → Result Failure (List Flaw)
  unfolding state_root
  replayed_flaws root (ok t) =
      ok (if state_root h t == root then [] else replay_state_root_mismatch ∷ [])
  replayed_flaws root (err (flawed flaw)) = ok (flaw ∷ [])
  replayed_flaws root (err (raised (validation_failure code))) = ok (replay_failed code ∷ [])
  replayed_flaws root (err (raised e)) = err e

  abbrev pub report : Database → List Flaw → Report
  report db errors = record {
    valid = is_nil errors;
    checked_entries = length db.ledger;
    head_hash = head_entry_hash db.ledger;
    state_root = state_root h db.tables;
    errors = errors;
  }

  -- `if not errors and rows`
  unfoldable pub replay_flaws : List Flaw → Database → Result Failure (List Flaw)
  unfolding replayed_flaws replay state_root
  replay_flaws (_ ∷ _) db = ok []
  replay_flaws [] db =
      if is_nil db.ledger then ok [] else replayed_flaws (state_root h db.tables) (replay db)

  unfoldable pub verify_ledger : Database → Result Failure Report
  unfolding replay_flaws stored_flaws root_flaws
  verify_ledger db = do
    let errors = stored_flaws db ++ root_flaws db
    more ← replay_flaws errors db
    ok (report db (errors ++ more))
