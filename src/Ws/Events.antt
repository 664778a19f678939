-- ===== src/Ws/Events.antt =====
-- The realtime events (backend/app/ws/events.py) and the `publish_*` methods of
-- `ConnectionManager` (backend/app/ws/manager.py), which build one and send it to its group's
-- channel. An event's time stamp is not modelled.
use ingame.Prelude.{ℕ, String, Bool, Option, List}
use ingame.Db.Models.{Role, RequestStatus}
use ingame.Schemas.{
  GroupDict, JoinRequestDict, WindowResponse, SessionResponse, RsvpResponse, ActivityResponse,
}

pub data Connection : Type 0 where
  online away offline : Connection

-- `MemberPresence`
pub record MemberPresence : Type 0 where
  pub user_id : ℕ
  pub connection : Connection
  pub ready : Bool
  pub ready_since : Option ℕ
  pub ready_expires_at : Option ℕ

-- `GroupPresenceSnapshot`
pub record GroupPresenceSnapshot : Type 0 where
  pub group_id : ℕ
  pub members : List MemberPresence

-- The fields of each subclass of `BaseEvent` beside the group; the first is
-- `PresenceSnapshotEvent`, which has none.
pub data EventBody : Type 0 where
  presence_snapshot : List GroupPresenceSnapshot → EventBody
  user_online : ℕ → String → EventBody
  user_offline : ℕ → EventBody
  connection_changed : ℕ → Connection → EventBody
  ready_changed : ℕ → Bool → Option ℕ → Option ℕ → EventBody
  scheduled_ready_updated : WindowResponse → EventBody
  scheduled_ready_deleted : ℕ → ℕ → EventBody
  session_proposed : SessionResponse → EventBody
  session_updated : SessionResponse → EventBody
  session_deleted : ℕ → EventBody
  session_rsvp_updated : RsvpResponse → EventBody
  activity_recorded : ActivityResponse → EventBody
  member_joined : ℕ → String → Option String → Role → EventBody
  member_left : ℕ → EventBody
  member_removed : ℕ → ℕ → EventBody
  member_role_changed : ℕ → Role → EventBody
  group_updated : GroupDict → EventBody
  group_deleted : EventBody
  join_request_created : JoinRequestDict → EventBody
  join_request_resolved : ℕ → RequestStatus → ℕ → EventBody

-- An event on the channel `group:{group_id}:events`.
pub record Event : Type 0 where
  pub group_id : Option ℕ
  pub body : EventBody
