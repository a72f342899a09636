-- ===== src/Store.antt =====
-- The database of the service: its five collections with their unique indexes, the programs that
-- the repositories run against it, and rules for proving what a program guarantees.
mod Indexes
mod Actions
mod Rules
mod Noting
mod Reads
mod Failures
mod Healthy
mod Counts
unfoldable pub use Indexes.*
unfoldable pub use Actions.*
pub use Rules.*
pub use Noting.*
pub use Reads.*
pub use Failures.*
pub use Healthy.*
pub use Counts.*
