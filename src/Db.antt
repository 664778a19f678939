-- ===== src/Db.antt =====
-- The database: tables and statements on them (backend/app/db).
pub mod Table
pub mod Find
pub mod Models
