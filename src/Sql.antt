-- ===== src/Sql.antt =====
-- lib/sqlite and server/sql_helpers.c: the query builders, the pipe protocol between the server and
-- the SQLite process, and the queries that the server makes.
pub mod Query
pub mod Process
pub mod Helpers
pub mod Protocol
pub mod Texts
pub mod Login
mod Examples
