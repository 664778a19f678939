-- ===== src/Coordination.antt =====
-- Ready windows, sessions, RSVPs and the activity feed of a group (backend/app/api/v1/coordination).
pub mod Repo
pub mod Responses
pub mod Access
pub mod Windows
pub mod Sessions
pub mod Rsvps
pub mod Routes
pub mod Listing
mod Tests
