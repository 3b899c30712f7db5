-- ===== src/StateDb.antt =====
-- lib/state-db.js: the local SQLite database, a table `files` with the primary key relativePath and
-- a key/value table `sync_state`. A handle that is not open is not modelled: every operation stands
-- for its call on an open database whose statements succeed.
pub mod Rows
pub mod Laws
pub mod Decimal
pub mod Meta
pub mod Unique
