-- ===== src/Schemas.antt =====
-- The bodies of responses and events: backend/app/api/v1/*/schemas.py and the dictionaries that
-- the services build.
use ingame.Prelude.{ℕ, String, Bool, Option, List}
use ingame.Time.{DateTime}
use ingame.Db.Models.{
  InviteCode, JoinMode, Role, RequestStatus, SessionStatus, RsvpAnswer, ActivityType,
}

-- `GroupResponse`
pub record GroupDict : Type 0 where
  pub id : ℕ
  pub name : String
  pub description : Option String
  pub invite_code : InviteCode
  pub is_discoverable : Bool
  pub join_mode : JoinMode
  pub avatar_url : Option String
  pub created_by : ℕ
  pub created_at : ℕ
  pub updated_at : Option ℕ
  pub has_pending_join_request : Bool
  pub member_count : ℕ

-- `GroupMemberResponse`
pub record MemberDict : Type 0 where
  pub id : ℕ
  pub user_id : ℕ
  pub display_name : String
  pub avatar_url : Option String
  pub role : Role
  pub joined_at : ℕ

-- `JoinRequestUserInfo`
pub record JoinRequestUserInfo : Type 0 where
  pub id : ℕ
  pub display_name : String
  pub avatar_url : Option String

-- `JoinRequestResponse`
pub record JoinRequestDict : Type 0 where
  pub id : ℕ
  pub user : JoinRequestUserInfo
  pub group_id : ℕ
  pub status : RequestStatus
  pub created_at : ℕ
  pub resolved_by : Option ℕ
  pub resolved_at : Option ℕ

-- `MyJoinRequestResponse`
pub record MyJoinRequestDict : Type 0 where
  pub id : ℕ
  pub group_id : ℕ
  pub group_name : String
  pub status : RequestStatus
  pub created_at : ℕ

-- `ScheduledReadyWindowResponse`
pub record WindowResponse : Type 0 where
  pub id : ℕ
  pub group_id : ℕ
  pub user_id : ℕ
  pub display_name : String
  pub starts_at : DateTime
  pub ends_at : DateTime
  pub source : String
  pub created_at : DateTime
  pub updated_at : Option DateTime

-- `SessionRsvpResponse`
pub record RsvpResponse : Type 0 where
  pub id : ℕ
  pub session_id : ℕ
  pub user_id : ℕ
  pub display_name : String
  pub response : RsvpAnswer
  pub updated_at : DateTime

-- `SessionResponse`
pub record SessionResponse : Type 0 where
  pub id : ℕ
  pub group_id : ℕ
  pub proposed_by : ℕ
  pub proposed_by_display_name : String
  pub title : Option String
  pub game : Option String
  pub starts_at : DateTime
  pub notes : Option String
  pub status : SessionStatus
  pub created_at : DateTime
  pub updated_at : Option DateTime
  pub rsvps : List RsvpResponse

-- `ActivityEventResponse`
pub record ActivityResponse : Type 0 where
  pub id : ℕ
  pub group_id : ℕ
  pub actor_user_id : ℕ
  pub actor_display_name : String
  pub type : ActivityType
  pub message : String
  pub session_id : Option ℕ
  pub scheduled_ready_window_id : Option ℕ
  pub created_at : DateTime
