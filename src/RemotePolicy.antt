-- ===== src/RemotePolicy.antt =====
-- src/shared_mind/remote_policy.py.
pub mod Values
pub mod SourceRef
pub mod Frozen
pub mod Evaluate
pub mod Decide
pub mod DenyByDefault
pub mod Decisions
pub mod References
pub mod Labels
pub mod Disclosures
pub mod Lists
pub mod Compiled
pub mod Answers
mod Tests
pub mod Compile
pub mod Callers
pub mod Admission
