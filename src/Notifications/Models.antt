-- ===== src/Notifications/Models.antt =====
-- The tables of devices and preferences (backend/app/db/models/device_registration.py and
-- notification_preference.py), and the state of a dispatch.
use ingame.Prelude.{ℕ, String, Bool, true, false, Option, List, str_eq}
use ingame.Errors.{Exec}
use ingame.Db.Models.{Role, RsvpAnswer}
use ingame.Notices.{NoticeType}
use ingame.World.{World}

pub data Platform : Type 0 where
  ios android web : Platform
  other : String → Platform

-- `class DeviceRegistration`
pub record DeviceRegistration : Type 0 where
  pub id : ℕ
  pub user_id : ℕ
  pub platform : Platform
  pub token : String
  pub device_label : Option String
  pub app_version : Option String
  pub last_seen_at : ℕ
  pub revoked_at : Option ℕ

-- The JSON column `conditions`: its three keys, where present.
pub record Conditions : Type 0 where
  pub only_if_rsvp : Option (List RsvpAnswer)
  pub only_if_role : Option (List Role)
  pub min_rsvp_count : Option ℕ

-- The `scope` column.
pub data Scope : Type 0 where
  global group : Scope
  other : String → Scope

-- `class NotificationPreference`; a time of day is in microseconds from midnight.
pub record NotificationPreference : Type 0 where
  pub id : ℕ
  pub user_id : ℕ
  pub scope : Scope
  pub scope_id : Option ℕ
  pub event_type : Option NoticeType
  pub enabled : Bool
  pub conditions : Option Conditions
  pub quiet_hours_start : Option ℕ
  pub quiet_hours_end : Option ℕ
  pub quiet_hours_tz : Option String
  pub updated_at : ℕ

-- A call of `send_push` for a device of a user; `deep_link` follows from the group.
pub record Push : Type 0 where
  pub user_id : ℕ
  pub token : String
  pub title : String
  pub body : String
  pub event_type : NoticeType
  pub group_id : ℕ

-- The database with the two tables, and the pushes that have been tried, the latest last.
pub record Desk : Type 0 where
  pub world : World
  pub devices : List DeviceRegistration
  pub preferences : List NotificationPreference
  pub pushes : List Push

-- an action on the other tables
abbrev pub on_world : {A : Type 0} → Exec World A → Exec Desk A
on_world m d = let (r, w) = m d.world in (r, record d { world = w })

abbrev pub role_eq : Role → Role → Bool
role_eq Role.owner Role.owner = true
role_eq Role.admin Role.admin = true
role_eq Role.member Role.member = true
role_eq (Role.other s) (Role.other t) = str_eq s t
role_eq _ _ = false

abbrev pub answer_eq : RsvpAnswer → RsvpAnswer → Bool
answer_eq RsvpAnswer.going RsvpAnswer.going = true
answer_eq RsvpAnswer.out RsvpAnswer.out = true
answer_eq RsvpAnswer.maybe RsvpAnswer.maybe = true
answer_eq (RsvpAnswer.other s) (RsvpAnswer.other t) = str_eq s t
answer_eq _ _ = false

abbrev pub type_eq : NoticeType → NoticeType → Bool
type_eq NoticeType.ready_changed NoticeType.ready_changed = true
type_eq NoticeType.session_proposed NoticeType.session_proposed = true
type_eq NoticeType.session_updated NoticeType.session_updated = true
type_eq NoticeType.session_rsvp_updated NoticeType.session_rsvp_updated = true
type_eq NoticeType.join_request_pending NoticeType.join_request_pending = true
type_eq (NoticeType.other s) (NoticeType.other t) = str_eq s t
type_eq _ _ = false

abbrev pub is_global : Scope → Bool
is_global Scope.global = true
is_global Scope.group = false
is_global (Scope.other _) = false

abbrev pub is_group_scope : Scope → Bool
is_group_scope Scope.global = false
is_group_scope Scope.group = true
is_group_scope (Scope.other _) = false
