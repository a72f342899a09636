-- ===== src/GoText.antt =====
-- Go strings are byte sequences: what the source uses of the packages `strings` and `unicode/utf8`.
mod Equality
mod Trim
mod Utf8
pub mod Fields
pub mod ParseInt
unfoldable pub use Equality.*
unfoldable pub use Trim.*
unfoldable pub use Utf8.*
unfoldable pub use Fields.*
unfoldable pub use ParseInt.*
