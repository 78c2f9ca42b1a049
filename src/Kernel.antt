-- ===== src/Kernel.antt =====
-- The kernel of src/shared_mind/kernel.py: its state, the reducers of claims, conflicts and sources,
-- validation, the commit of a proposal, and replay.
pub mod Json
pub mod Host
pub mod State
pub mod Semantics
pub mod Conflicts
pub mod Claims
pub mod Validate
pub mod Operations
pub mod References
pub mod Depth
pub mod Receipts
pub mod Commit
pub mod Verify
pub mod Replay
pub mod Tests
