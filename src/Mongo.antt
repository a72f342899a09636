-- ===== src/Mongo.antt =====
-- The calls of the MongoDB driver that the repositories make, and what its documentation promises
-- of each. The server itself is not part of the repository.
mod Docs
mod Laws
pub use Docs.*
pub use Laws.*
