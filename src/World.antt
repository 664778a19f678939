-- ===== src/World.antt =====
-- The state that the services of one request read and write.
use ingame.Prelude.{List, [], ◌∷◌, ◌++◌}
use ingame.Errors.{Exec, ok, err, modify}
use ingame.Db.Models.{
  User, Group, GroupMembership, JoinRequest, ScheduledReadyWindow, Session, SessionRsvp,
  GroupActivityEvent, AvatarUploadLedger,
}
use ingame.Ws.Events.{Event}
use ingame.Notices.{Notice}

-- The rows of the tables.
pub record Db : Type 0 where
  pub users : List User
  pub groups : List Group
  pub memberships : List GroupMembership
  pub join_requests : List JoinRequest
  pub windows : List ScheduledReadyWindow
  pub sessions : List Session
  pub rsvps : List SessionRsvp
  pub activities : List GroupActivityEvent
  pub ledger : List AvatarUploadLedger

abbrev pub empty_db : Db
empty_db = record {
  users = [];
  groups = [];
  memberships = [];
  join_requests = [];
  windows = [];
  sessions = [];
  rsvps = [];
  activities = [];
  ledger = [];
}

-- The database of a session, and the tasks that `asyncio.create_task` has been given: events to
-- publish and notifications to dispatch, the latest last.
pub record World : Type 0 where
  pub db : Db
  pub open db use *
  pub published : List Event
  pub enqueued : List Notice

-- `asyncio.create_task(ws_manager.publish_...)`
abbrev pub publish : Event → Exec World (Unit {0})
publish e = modify (λ w. record w { published = w.published ++ e ∷ [] })

-- `enqueue_notification`
abbrev pub enqueue_notification : Notice → Exec World (Unit {0})
enqueue_notification n = modify (λ w. record w { enqueued = w.enqueued ++ n ∷ [] })

-- `get_db`: the request's handler runs in one transaction, which is committed at the end and
-- rolled back if the handler raises. A task that has been created stays.
unfoldable pub transaction : {A : Type 0} → Exec World A → Exec World A
transaction m w =
    let (r, w') = m w in elim r [ ok a ↦ (ok a, w') | err e ↦ (err e, record w' { db = w.db }) ]
