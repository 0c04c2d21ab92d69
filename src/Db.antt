-- ===== src/Db.antt =====
-- The database as the code sees it: actions over one connection, and the rules that prove what an
-- action keeps.
mod Types
pub mod Rules
pub mod Runs
unfoldable pub use Types.*
