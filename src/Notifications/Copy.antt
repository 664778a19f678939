-- ===== src/Notifications/Copy.antt =====
-- The title and the body of a notification (backend/app/notifications/copy.py).
use Prim.Native.String.{◌++◌}
use ingame.Prelude.{String, Option, none, some, str_eq, if◌then◌else◌}
use ingame.Db.Models.{RsvpAnswer}
use ingame.Notices.{NoticeType}

-- `a or b` for a text that may be `None`
abbrev pub or_text : Option String → String → String
or_text none b = b
or_text (some a) b = if str_eq a "" then b else a

abbrev answer_text : Option RsvpAnswer → String
answer_text none = "None"
answer_text (some RsvpAnswer.going) = "in"
answer_text (some RsvpAnswer.out) = "out"
answer_text (some RsvpAnswer.maybe) = "maybe"
answer_text (some (RsvpAnswer.other s)) = s

abbrev time_part : Option String → String
time_part none = ""
time_part (some t) = if str_eq t "" then "" else " — " ++ t

unfoldable pub build_notification_copy :
    NoticeType
    → String
    → String
    → Option String
    → Option String
    → Option String
    → Option RsvpAnswer
    → String × String
build_notification_copy NoticeType.ready_changed actor group title game time answer =
    (actor ++ " is ready to play", actor ++ " is ready in " ++ group)
build_notification_copy NoticeType.session_proposed actor group title game time answer = (
  "New session in " ++ group,
  actor ++ " proposed: " ++ or_text title (or_text game "a session") ++ time_part time,
)
build_notification_copy NoticeType.session_updated actor group title game time answer = (
  "Session updated in " ++ group,
  actor ++ " updated: " ++ or_text title (or_text game "a session"),
)
build_notification_copy NoticeType.session_rsvp_updated actor group title game time answer = (
  "RSVP update in " ++ group,
  actor ++ " is now " ++ answer_text answer ++ " for " ++ or_text title (or_text game "a session"),
)
build_notification_copy NoticeType.join_request_pending actor group title game time answer =
    ("Join request in " ++ group, actor ++ " wants to join " ++ group)
build_notification_copy (NoticeType.other _) actor group title game time answer =
    ("Activity in " ++ group, "New activity from " ++ actor)
