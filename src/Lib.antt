-- ===== src/Lib.antt =====
-- The backend of InGame (backend/app): groups of players with an owner, admins and members, requests
-- to join them, the realtime events and push notifications that tell members of changes, who is
-- online and ready to play, and how users sign in.
--
-- The program is a FastAPI application over one SQL database. A route (backend/app/api/v1/*/routes.py)
-- calls a service (service.py), which calls repositories (backend/app/db/repositories) on one database
-- session; `get_db` commits the session at the end of the request or rolls it back where the handler
-- raises. Services tell others of a change through `asyncio.create_task`: events go to the channel of
-- their group (backend/app/ws/manager.py), notifications to the dispatcher
-- (backend/app/notifications/dispatcher.py).
--
-- How the files correspond to it:
--   Errors: the exceptions and error codes of backend/app/core, and the actions on a state that may
--     raise. An action returns its state beside an error too: what was written before the raise is
--     still written until the transaction is rolled back.
--   Time: the dates and times that backend/app/api/v1/coordination/service.py checks, with time zones.
--   Db.Models: the rows of backend/app/db/models. Db.Table, Db.Find: the statements of the
--     repositories over lists of rows, with the constraints they can break. `scalar_one_or_none` raises
--     where several rows meet the condition, as SQLAlchemy's does.
--   Schemas, Ws.Events, Notices: the answers, the events and the notifications.
--   World: the database of a session with the tasks created so far, and the transaction of `get_db`.
--   Groups.Repo, Groups.MemberRepo, JoinRequests.Repo: backend/app/db/repositories/group_repo.py.
--   Groups.Access, Service, Membership, Listing: backend/app/api/v1/groups/service.py.
--   JoinRequests.Service: backend/app/api/v1/join_requests/service.py.
--   Avatars.LedgerRepo: backend/app/db/repositories/avatar_upload_ledger_repo.py. Avatars.Janitor:
--     backend/app/jobs/avatar_upload_janitor.py. Avatars.Storage: backend/app/storage/avatar_uploads.py, where the loop over the
--     pages of a listing has fuel, enough where it is the number of the pages. Avatars.Presign: its presigned uploads.
--     Cleaning, Overdue, Expired and Sweep are about what is deleted.
--   Requests: the requests that change groups and join requests, each in its transaction, and runs of
--     them. Groups.Invariant, RowChanges, GroupChanges, RequestChanges, Preserve, JoinRequests.Preserve and
--     Requests.Invariant prove an invariant of the tables; Groups.Rules, Groups.Roles and Requests.Resolved say what
--     the operations do; Requests.Atomic and Requests.Final are about failures and later requests.
--   Notifications.Models, Evaluator, Copy, Devices, Preferences, Dispatcher, Routes: backend/app/notifications,
--     the repositories of devices and preferences, backend/app/api/v1/notifications/routes.py and
--     backend/app/jobs/stale_token_janitor.py. A dispatch's own session is never committed, so that only
--     its pushes stay. Notifications.Unique, Keeps and Runs prove that the rows stay unique;
--     Notifications.Due says who is to be notified, and Recipients what a dispatch sends.
--   Coordination.Repo, Responses, Access, Windows, Sessions, Routes: backend/app/api/v1/coordination/service.py and
--     backend/app/db/repositories/coordination_repo.py, with the listings in Coordination.Listing. A service
--     answers with the events that its route publishes after the commit. Coordination.Rsvps says what an answer to a
--     session changes, and who may change a session.
--   Sets: the sets and dictionaries of ids that the code keeps. Tokens: backend/app/auth/jwt.py.
--   Presence.Status: backend/app/redis/status_store.py over the keys of Redis. Presence.Hub, Manager, Broadcast:
--     `ConnectionManager` of backend/app/ws/manager.py, with Redis and what has been sent in its state. Presence.Handlers:
--     backend/app/ws/handlers.py. Presence.Reach is the step relation of the handlers, the sweep and the
--     deliveries; Tracked, Frames, Ready, Sound, Handling, Snapshot and Leaving are about what they keep and what they show.
--   Accounts.Site: the tables of linked accounts and the stored refresh tokens beside the world. Accounts.Users,
--     Identities: backend/app/db/repositories/user_repo.py, provider_identity_repo.py and revoked_auth_link_repo.py.
--     Accounts.Response: backend/app/api/v1/user_response.py. Accounts.SignIn: backend/app/api/v1/auth/service.py.
--     Accounts.Links, Profile, Social: backend/app/api/v1/users/service.py and backend/app/auth/dependencies.py.
--     Accounts.Gateway is the interface to the providers, the hashing of passwords and the functions on texts.
--     Accounts.Sessions, Counting, Methods and Relink are about refresh tokens, unlinking, and unlinked logins.
--
-- A handler of a socket and a turn of the sweep each run to their end before the next: what runs between
-- two awaits of one handler, several processes on one Redis, and failures of Redis or of a socket are
-- not modelled. One reading of the clock serves an operation, and Redis drops a key exactly at the end of
-- its time to live. What the providers answer over HTTP, the token library's signatures and the hashing of
-- passwords are parameters; an exception of theirs is a missing answer. The comparison of display names, the
-- validation by the schemas and the routes of these services are not modelled.
--
-- Ids, the clock and the random invite codes are arguments of the model, as are the answers of the
-- avatar storage and of the messaging service. The order in which the database returns rows is the
-- order of the list, and a session sees the tables alone: concurrent transactions are not
-- modelled. The loop over random codes makes at most five draws, by recursion on that number, as
-- the code does. Length limits of columns and the validation by the request schemas are not
-- modelled.
pub mod Prelude
pub mod Errors
pub mod Time
pub mod Db
pub mod Schemas
pub mod Ws
pub mod Notices
pub mod World
pub mod Sets
pub mod Tokens
pub mod Groups
pub mod JoinRequests
pub mod Requests
pub mod Avatars
pub mod Coordination
pub mod Notifications
pub mod Presence
pub mod Accounts
