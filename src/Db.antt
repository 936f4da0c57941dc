-- ===== src/Db.antt =====
-- What src/model and src/tools share in their use of the database: the client library's calls on a
-- connection, the SQL texts, and the connection that a ScopedConnection holds while a function runs.
pub mod Mysql
pub mod Exec
pub mod Sql
pub mod Uses
pub mod Store
pub mod Refines
