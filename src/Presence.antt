-- ===== src/Presence.antt =====
-- Who is online and who is ready to play (backend/app/ws/manager.py, backend/app/ws/handlers.py and
-- backend/app/redis/status_store.py).
pub mod Status
pub mod Hub
pub mod Manager
pub mod Broadcast
pub mod Handlers
pub mod Tracked
pub mod Ready
pub mod Snapshot
pub mod Frames
pub mod Sound
pub mod Handling
pub mod Reach
pub mod Leaving
pub mod Tests
