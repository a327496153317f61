-- ===== src/Storage.antt =====
-- internal/storage/postgres: the table of notifications and the statements that the repository runs.
pub mod Table
pub mod Repository
pub mod Listing
pub mod Templates
pub mod Control
pub mod Counts
