-- ===== src/Continuity.antt =====
-- Decisions, questions and work items: the reducers of src/shared_mind/continuity.py.
-- Each `_private` function of the source has its name here without the underscore. A row is what
-- the table stores beside its key; the column `document` holds the document itself, not its text.
pub mod Errors
pub mod Rows
pub mod Reducers
pub mod Reads
pub mod Replay
pub mod Lifecycle
pub mod Outcomes
pub mod Invariant
mod Tests
