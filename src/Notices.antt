-- ===== src/Notices.antt =====
-- What `enqueue_notification` is called with (backend/app/notifications/dispatcher.py).
use ingame.Prelude.{ℕ, String, Option, none, List}
use ingame.Time.{DateTime}
use ingame.Db.Models.{RsvpAnswer}

-- The `event_type` of a notification; `other` is any text that `build_notification_copy` does not
-- know.
pub data NoticeType : Type 0 where
  ready_changed session_proposed session_updated session_rsvp_updated : NoticeType
  join_request_pending : NoticeType
  other : String → NoticeType

-- `payload`: a key that is absent is `none`. The time of a session is kept as it is.
pub record Payload : Type 0 where
  pub session_title : Option String
  pub game : Option String
  pub formatted_time : Option DateTime
  pub rsvp_response : Option RsvpAnswer
  pub user_rsvps : Option (List (ℕ × RsvpAnswer))
  pub positive_rsvp_count : Option ℕ

-- `{}`
abbrev pub empty_payload : Payload
empty_payload = record {
  session_title = none;
  game = none;
  formatted_time = none;
  rsvp_response = none;
  user_rsvps = none;
  positive_rsvp_count = none;
}

pub record Notice : Type 0 where
  pub event_type : NoticeType
  pub group_id : ℕ
  pub actor_user_id : ℕ
  pub payload : Payload
