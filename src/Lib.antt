-- ===== src/Lib.antt =====
-- A verification library for the kernel of Shared Mind, the store of facts, conflicts and project
-- continuity in src/shared_mind. A caller submits a proposal; `Kernel.commit` checks it, applies its
-- operations to the tables in one transaction, appends their events to a ledger chained by hashes, and
-- stores a receipt. `Kernel.replay` rebuilds the tables from the ledger alone.
--
-- The parts of the program and the files that model them:
--   Documents (Epistemic, Continuity, Proposals): the documents of
--     contracts/shared-mind-kernel.schema.v1.json. `rest` holds the fields that the code only carries.
--   Continuity: src/shared_mind/continuity.py. Rows has the three tables, Reducers the operations
--     (`_record_decision` is `reduce_record_decision`, and so on) with `apply_operation` and
--     `apply_event`, Reads the required reads and the checks of reads and guards.
--   Kernel: src/shared_mind/kernel.py. State has the tables and the documents of ledger and receipts,
--     Semantics the checks of a claim under its predicate and `_family_key`, Conflicts
--     `_open_conflicts`, Claims the sources, claims and evidence, Operations `_apply_operation` and the
--     other reducers, Validate and References the checks that come before the operations, Depth
--     `_json_depth_exceeds`, Receipts `_insert_receipt`, Commit `commit`, Replay `_replay_rows` and
--     `_apply_replay_event`.
--   Kernel/Verify: `verify_ledger` and `replay`. Verify has `_verify_ledger_rows`, Documents the checks of
--     receipts and their coverage, Whole the report. `Flaw` is an error with the number that it names.
--   RemotePolicy: src/shared_mind/remote_policy.py, what a remote caller may do and see. Values has the
--     readers of JSON, SourceRef the references and roots of sources, Frozen the frozen documents,
--     Compile `compile_policy`, Evaluate `_denial_reason` and its lookups, Decide `evaluate_request`
--     and the decision with its integrity check. It uses the JSON values of the kernel and calls
--     nothing else of it.
--   Rebase: src/shared_mind/rebase.py, the hint for a proposal that the kernel rejected as stale. It reads
--     the tables of the kernel and computes the digest of a family as `Kernel.Validate` does. Its
--     proposals have passed the contract, so the values of another form that it skips are left out.
--   Base: tables as association lists, results of code that may raise, order on texts, shared lemmas.
-- The children of Continuity, Kernel.Commit, Kernel.Replay, Kernel.Verify, RemotePolicy and Rebase that
-- hold proofs are named for what they prove; the modules called Tests hold the examples.
--
-- How the code is represented:
--   A table is a list of keys and rows, the last inserted first; a column that stores a document as
--   JSON text holds the document. The ledger and the receipts are lists, the newest first.
--   Code that raises returns a `Result`; a reducer returns no state with an error, since the
--   transaction rolls back. `Kernel.Commit.recover` is the handlers of `_commit`.
--   What the code calls outside the repository (json, hashlib, base64, urllib, datetime and the
--   validators that jsonschema builds from the contract) is the record `Kernel.Host.Host`, an argument
--   of every definition that uses it. Nothing is assumed of its hashes: they may collide.
--   `Kernel.Verify.Reader` has what the verification calls so on stored columns, and
--   `RemotePolicy.Values.Library` what the policy calls. A history of `commit` verifies under the
--   hypothesis `Kernel.Verify.Histories.FollowsContract`: a value that passes the contract is
--   stored with its own encoding, key and proposer and passes again, a ledger entry that passes has
--   events that pass, and the document that `commit` stores in a ledger row is canonical JSON.
--   A submitted key or identifier is any JSON value. sqlite3 stores a number or a Boolean in its
--   column as a text (`Host.literal_text`) and raises on the values that it cannot bind or may not
--   store, and `uncaught` is what leaves `commit` then. A receipt's document names such a key as
--   null, so `verify_ledger` finds a mismatch where the stored text has the form of a key:
--   `Kernel.Verify.Calls.AllKept` is the condition on a history that excludes it.
--   The clock is the argument `now` of `commit`.
--   A hypothesis on a registry, `Kernel.Replay.Families.Separates`, says that two claims which share a
--   family under one's predicate share it under the other's: `_open_conflicts` compares families under
--   the incoming claim's predicate, `_replay_open_conflict` under each member's own.
--   Kernel/Replay/Separation.antt relates it to the fields of the family key.
--   `_json_depth_exceeds` runs on fuel, the number of values in its argument, since each value comes
--   off its stack once. `_source_ref_is_safe` has eight rounds of unquoting, as in the code. All other
--   loops are structural recursion.
--
-- Not modelled: the creation and migration of the SQL schema, the contract 1.0.0 with its legacy
-- receipts and ledger rows (the checks of such rows are a field of `Reader`), `register_source` outside
-- a proposal, the authorizer of SQL statements, and the readers. Concurrent writers are ordered by BEGIN IMMEDIATE, so calls of
-- `commit` are a sequence. Values of `Json` have no cycles. The sequence number inside the error codes
-- of replayed events is left out. Outside the kernel: the adapters, the product and web servers, the
-- command line, projection, retrieval and the evaluation harnesses.
pub mod Base
pub mod Documents
pub mod Continuity
pub mod Kernel
pub mod RemotePolicy
pub mod Rebase
