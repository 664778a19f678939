-- ===== src/Accounts.antt =====
-- Signing in and a user's own account (backend/app/api/v1/auth, backend/app/api/v1/users and the tables they keep).
pub mod Site
pub mod Users
pub mod Identities
pub mod Gateway
pub mod Response
pub mod SignIn
pub mod Links
pub mod Profile
pub mod Social
pub mod Sessions
pub mod Counting
pub mod Methods
pub mod Relink
pub mod Tests
