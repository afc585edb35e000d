-- ===== src/Store.antt =====
-- internal/store: the SQLite database. Each child module models one file's statements over the
-- tables of `Store.Schema`; the modules below a child hold what is proved of it.
pub mod Schema
pub mod Fences
pub mod Watches
pub mod Samples
pub mod Nearest
pub mod Presence
pub mod History
pub mod KeyedRows
pub mod Saved
pub mod Rows
pub mod Deletion
pub mod Held
pub mod Lifetime
pub mod Dark
pub mod Stints
pub mod Columns
