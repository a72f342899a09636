-- ===== src/History.antt =====
-- What becomes of the documents of the database while requests and relays work on it side by side.
mod Next
mod Collections
mod Evolution
mod Rely
mod Created
mod Calls
pub use Next.*
pub use Collections.*
pub use Evolution.*
pub use Rely.*
pub use Created.*
pub use Calls.*
