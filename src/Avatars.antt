-- ===== src/Avatars.antt =====
-- The uploads of avatars: their ledger (backend/app/db/repositories/avatar_upload_ledger_repo.py) and the janitor
-- (backend/app/jobs/avatar_upload_janitor.py).
pub mod LedgerRepo
pub mod Janitor
pub mod Cleaning
pub mod Overdue
pub mod Expired
pub mod Storage
pub mod Presign
pub mod Urls
pub mod Sweep
pub mod Tests
