-- ===== src/Db.antt =====
-- src/supa/db: the tables of the database.
pub mod Model
