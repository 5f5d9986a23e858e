-- ===== src/Text.antt =====
-- Python's `str` as the code uses it: a list of code points. `lower` is the one of ASCII, which is
-- Python's on every name that DNS can carry; other code points are left as they are.
mod Trim
mod Suffix
mod Pieces
mod Truth
mod Utf8
pub mod Labels
unfoldable pub use Trim.*
unfoldable pub use Suffix.*
unfoldable pub use Truth.*
unfoldable pub use Utf8.*
unfoldable pub use Pieces.*
