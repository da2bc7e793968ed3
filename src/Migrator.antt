-- ===== src/Migrator.antt =====
-- The migration engine, src/migrator.
pub mod Types
pub mod FileName
pub mod Graph
pub mod Build
pub mod Columns
pub mod Diff
pub mod Store
pub mod Apply
pub mod Wire
mod Tests
