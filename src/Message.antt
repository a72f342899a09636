-- ===== src/Message.antt =====
-- internal/message: the message repository and the message service.
pub mod Events
pub mod Queries
pub mod Create
pub mod Mutate
pub mod ReadCursor
pub mod Service
pub mod Controller
