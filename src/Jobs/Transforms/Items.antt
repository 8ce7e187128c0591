-- ===== src/Jobs/Transforms/Items.antt =====
-- The transforms that work on one item after another.
pub mod Filter
pub mod Fill
pub mod Rename
