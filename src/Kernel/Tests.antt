-- ===== src/Kernel/Tests.antt =====
-- Tests and examples for src/shared_mind/kernel.py.
pub mod Data
mod Commits
pub mod Histories
mod Values
mod Ledgers
