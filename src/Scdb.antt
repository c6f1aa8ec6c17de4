-- ===== src/Scdb.antt =====
-- c/lib/scdb: a constant database.
pub mod Pack
pub mod Buffer
pub mod Make
pub mod Find
pub mod Table
pub mod Index
mod Tests
