-- ===== src/Base/Dict.antt =====
-- Go's maps, as association lists with a value for a key at its first place. The order of the list
-- is the order in which a `range` loop happens to visit the map, so what is proved for every list
-- holds for every order of iteration.
mod Laws
mod Nodup
mod Defs
unfoldable pub use Defs.*
pub use Laws.*
pub use Nodup.*
