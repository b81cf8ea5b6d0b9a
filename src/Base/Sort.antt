-- ===== src/Base/Sort.antt =====
-- The stable sort of Go's `sort.SliceStable`, by a test `lt`. Any stable sort gives this result, and
-- so does any sort at all (`sort.Slice`, `sort.Strings`) where `lt` tells the elements apart.
mod Defs
mod Order
mod Stable
unfoldable pub use Defs.*
pub use Order.*
pub use Stable.*
