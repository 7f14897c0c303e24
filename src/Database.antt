-- ===== src/Database.antt =====
-- The shared database (persistence/store.py and the tables.py of each component) and a transaction
-- on it: SQLAlchemy's `session.begin()`, which commits at its end and rolls back on an exception.
mod Schema
pub mod Transaction
pub mod Frame
pub mod Ensures
pub use Schema.*
