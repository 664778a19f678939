-- ===== src/Groups.antt =====
-- Groups, their members and their roles (backend/app/api/v1/groups/service.py and
-- backend/app/db/repositories/group_repo.py).
pub mod Repo
pub mod MemberRepo
pub mod Access
pub mod Service
pub mod Membership
pub mod Invariant
pub mod RowChanges
pub mod GroupChanges
pub mod RequestChanges
pub mod Preserve
pub mod Listing
pub mod Rules
pub mod Roles
