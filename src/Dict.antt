-- ===== src/Dict.antt =====
-- Python's `dict`, in insertion order, and `in` on lists and sets. A new key goes last; a known key
-- keeps its place.
mod Defs
mod Laws
mod Keys
mod Order
mod Recent
unfoldable pub use Defs.*
pub use Laws.*
pub use Keys.*
pub use Order.*
pub use Recent.*
