-- ===== src/JoinRequests.antt =====
-- Requests to join a group (backend/app/api/v1/join_requests/service.py).
pub mod Repo
pub mod Service
pub mod Preserve
