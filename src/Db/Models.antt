-- ===== src/Db/Models.antt =====
-- The tables of backend/app/db/models, one record for the rows of each. Ids are numbers: the code
-- only compares them. A length limit of a column is not modelled.
use ingame.Prelude.{ℕ, String, Bool, true, false, Option, List, [], ◌∷◌, ◌==◌, ◌&&◌}
use ingame.Time.{DateTime}

-- A membership's `role` column; `other` is any text but the three that the code compares with.
pub data Role : Type 0 where
  owner admin member : Role
  other : String → Role

abbrev pub is_owner : Role → Bool
is_owner Role.owner = true
is_owner Role.admin = false
is_owner Role.member = false
is_owner (Role.other _) = false

abbrev pub is_admin : Role → Bool
is_admin Role.owner = false
is_admin Role.admin = true
is_admin Role.member = false
is_admin (Role.other _) = false

-- `role in ("owner", "admin")`
abbrev pub is_staff : Role → Bool
is_staff Role.owner = true
is_staff Role.admin = true
is_staff Role.member = false
is_staff (Role.other _) = false

-- `role in ("admin", "member")`
abbrev pub is_assignable : Role → Bool
is_assignable Role.owner = false
is_assignable Role.admin = true
is_assignable Role.member = true
is_assignable (Role.other _) = false

-- A group's `join_mode` column.
pub data JoinMode : Type 0 where
  open_to_all approval : JoinMode
  other : String → JoinMode

abbrev pub is_approval : JoinMode → Bool
is_approval JoinMode.open_to_all = false
is_approval JoinMode.approval = true
is_approval (JoinMode.other _) = false

-- A join request's `status` column.
pub data RequestStatus : Type 0 where
  pending approved denied : RequestStatus
  other : String → RequestStatus

abbrev pub is_pending : RequestStatus → Bool
is_pending RequestStatus.pending = true
is_pending RequestStatus.approved = false
is_pending RequestStatus.denied = false
is_pending (RequestStatus.other _) = false

abbrev pub is_approved : RequestStatus → Bool
is_approved RequestStatus.pending = false
is_approved RequestStatus.approved = true
is_approved RequestStatus.denied = false
is_approved (RequestStatus.other _) = false

-- An invite code, as its code points.
abbrev pub InviteCode : Type 0
InviteCode = List ℕ

unfoldable pub code_eq : InviteCode → InviteCode → Bool
code_eq [] [] = true
code_eq (c ∷ cs) (d ∷ ds) = c == d && code_eq cs ds
code_eq _ _ = false

-- `class User`; the JSON column `preferred_gaming_hours` is kept as its text.
pub record User : Type 0 where
  pub id : ℕ
  pub email : Option String
  pub password_hash : Option String
  pub display_name : String
  pub avatar_url : Option String
  pub bio : Option String
  pub timezone : String
  pub preferred_gaming_hours : Option String
  pub steam_id : Option String
  pub apple_id : Option String
  pub created_at : ℕ
  pub updated_at : Option ℕ

-- `class Group`
pub record Group : Type 0 where
  pub id : ℕ
  pub name : String
  pub description : Option String
  pub invite_code : InviteCode
  pub is_discoverable : Bool
  pub join_mode : JoinMode
  pub avatar_url : Option String
  pub created_by : ℕ
  pub created_at : ℕ
  pub updated_at : Option ℕ

-- `class GroupMembership`
pub record GroupMembership : Type 0 where
  pub id : ℕ
  pub user_id : ℕ
  pub group_id : ℕ
  pub role : Role
  pub joined_at : ℕ

-- `class JoinRequest`
pub record JoinRequest : Type 0 where
  pub id : ℕ
  pub user_id : ℕ
  pub group_id : ℕ
  pub status : RequestStatus
  pub created_at : ℕ
  pub resolved_by : Option ℕ
  pub resolved_at : Option ℕ

-- A session's `status` column.
pub data SessionStatus : Type 0 where
  proposed confirmed cancelled : SessionStatus
  other : String → SessionStatus

-- An RSVP's `response` column: "in", "out", "maybe" or another text.
pub data RsvpAnswer : Type 0 where
  going out maybe : RsvpAnswer
  other : String → RsvpAnswer

-- `class ScheduledReadyWindow`
pub record ScheduledReadyWindow : Type 0 where
  pub id : ℕ
  pub group_id : ℕ
  pub user_id : ℕ
  pub starts_at : DateTime
  pub ends_at : DateTime
  pub source : String
  pub created_at : DateTime
  pub updated_at : Option DateTime

-- `class Session`
pub record Session : Type 0 where
  pub id : ℕ
  pub group_id : ℕ
  pub proposed_by : ℕ
  pub title : Option String
  pub game : Option String
  pub starts_at : DateTime
  pub notes : Option String
  pub status : SessionStatus
  pub created_at : DateTime
  pub updated_at : Option DateTime

-- `class SessionRsvp`
pub record SessionRsvp : Type 0 where
  pub id : ℕ
  pub session_id : ℕ
  pub user_id : ℕ
  pub response : RsvpAnswer
  pub updated_at : DateTime

pub data ActivityType : Type 0 where
  scheduled_ready_updated scheduled_ready_deleted session_proposed session_updated : ActivityType
  session_deleted session_rsvp_updated : ActivityType

-- `class GroupActivityEvent`
pub record GroupActivityEvent : Type 0 where
  pub id : ℕ
  pub group_id : ℕ
  pub actor_user_id : ℕ
  pub type : ActivityType
  pub message : String
  pub session_id : Option ℕ
  pub scheduled_ready_window_id : Option ℕ
  pub created_at : DateTime

-- `class AvatarUploadLedger`
pub record AvatarUploadLedger : Type 0 where
  pub id : ℕ
  pub user_id : ℕ
  pub object_key : String
  pub avatar_url : String
  pub created_at : ℕ
  pub committed_at : Option ℕ
