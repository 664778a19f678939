-- ===== src/Notifications.antt =====
-- Push notifications (backend/app/notifications and backend/app/api/v1/notifications).
pub mod Models
pub mod Evaluator
pub mod Copy
pub mod Devices
pub mod Preferences
pub mod Dispatcher
pub mod Routes
pub mod Unique
pub mod Keeps
pub mod Due
pub mod Recipients
pub mod Runs
mod Tests
