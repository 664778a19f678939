-- ===== src/Ws.antt =====
-- Realtime transport (backend/app/ws).
pub mod Events
