-- ===== src/Documents.antt =====
-- The documents that src/shared_mind/kernel.py and continuity.py exchange, after the check against
-- contracts/shared-mind-kernel.schema.v1.json. A field that the code only carries, such as a title,
-- is in `rest`; times and hashes are texts. Each enumeration has the schema's values.
mod Epistemic
mod Continuity
mod Proposals
unfoldable pub use Epistemic.*
unfoldable pub use Continuity.*
unfoldable pub use Proposals.*
