-- ===== src/Util.antt =====
-- The helpers of pkg/util on string maps, string slices and kernel command lines.
pub mod StringsMap
pub mod StringsSlice
pub mod Kernel
