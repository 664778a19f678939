-- ===== src/Notifications/Dispatcher.antt =====
-- Sending the notifications of an event (backend/app/notifications/dispatcher.py and fcm.py).
use ingame.Prelude.{
  ℕ, String, Bool, true, false, not, Option, none, some, List, [], ◌∷◌, ◌++◌, ◌==◌, if◌then◌else◌,
}
use ingame.Errors.{Exec, ok, pure, ◌>>=◌, ◌>>◌}
use ingame.Time.{DateTime}
use ingame.Db.Models.{User, Group, GroupMembership, RsvpAnswer}
use ingame.Notices.{Notice, Payload}
use ingame.Groups.Repo.{get_by_id, get_user_by_id, list_members}
use ingame.Notifications.Models.{
  Desk, DeviceRegistration, NotificationPreference, Conditions, Push, on_world,
}
use ingame.Notifications.Evaluator.{Context, QuietHours, should_notify}
use ingame.Notifications.Copy.{build_notification_copy}
use ingame.Notifications.Devices.{list_active_for_user, revoke_by_token}
use ingame.Notifications.Preferences.{get_for_user_event, get_group_preference}

-- How `messaging.send` ends: with no exception, with one that `is_token_invalid_error` accepts, or
-- with another.
pub data Delivery : Type 0 where
  delivered token_invalid failed : Delivery

-- The settings and what is outside: the clock, the text of a time, and the messaging service.
pub record Post : Type 0 where
  pub notifications_enabled : Bool
  pub dry_run : Bool
  pub firebase : Bool
  pub now : ℕ
  pub hour : ℕ
  pub minute : ℕ
  pub show_time : DateTime → String
  pub send : Push → Delivery

-- `send_push`: whether it raises `InvalidTokenError`.
unfoldable pub send_push : Post → Push → Bool
send_push post p =
    if not post.notifications_enabled
    then false
    else if post.dry_run
    then false
    else if not post.firebase
    then false
    else elim (post.send p) [ delivered ↦ false | token_invalid ↦ true | failed ↦ false ]

abbrev push_to : Push → Exec Desk (Unit {0})
push_to p d = (ok tt, record d { pushes = d.pushes ++ p ∷ [] })

-- `except InvalidTokenError`
abbrev revoke_if : Post → Push → Bool → Exec Desk (Unit {0})
revoke_if post p false d = (ok tt, d)
revoke_if post p true d = (revoke_by_token post.now p.user_id p.token >> pure tt) d

-- `for device in devices`
unfoldable pub push_all : Post → (String → Push) → List DeviceRegistration → Exec Desk (Unit {0})
unfolding revoke_by_token
push_all post push [] d = (ok tt, d)
push_all post push (device ∷ rest) d =
    (do
      push_to (push device.token)
      revoke_if post (push device.token) (send_push post (push device.token))
      push_all post push rest)
      d

unfoldable pub find_answer : ℕ → List (ℕ × RsvpAnswer) → Option RsvpAnswer
find_answer u [] = none
find_answer u ((v, a) ∷ rest) = if v == u then some a else find_answer u rest

abbrev pub answer_of : ℕ → Option (List (ℕ × RsvpAnswer)) → Option RsvpAnswer
answer_of u none = none
answer_of u (some answers) = find_answer u answers

abbrev pub context_of : Payload → GroupMembership → Context
context_of payload m = record {
  user_role = m.role;
  user_rsvp = answer_of m.user_id payload.user_rsvps;
  positive_rsvp_count = payload.positive_rsvp_count;
}

abbrev pub is_enabled : Option NotificationPreference → Bool
is_enabled none = true
is_enabled (some p) = p.enabled

abbrev pub conditions_of : Option NotificationPreference → Option Conditions
conditions_of none = none
conditions_of (some p) = p.conditions

abbrev pub is_muted : Option NotificationPreference → Bool
is_muted none = false
is_muted (some p) = not p.enabled

abbrev pub both : Option ℕ → Option ℕ → Option QuietHours
both (some start) (some end) = some (record { start = start; end = end })
both _ _ = none

abbrev pub quiet_hours_of : Option NotificationPreference → Option QuietHours
quiet_hours_of none = none
quiet_hours_of (some p) = both p.quiet_hours_start p.quiet_hours_end

abbrev shown : Post → Option DateTime → Option String
shown post none = none
shown post (some t) = some (post.show_time t)

-- `deep_link` follows from the group.
abbrev pub push_of : Post → Notice → Group → String → ℕ → String → Push
push_of post n group actor_name u token =
    let p : Payload = n.payload in
    let copy : String × String =
      build_notification_copy n.event_type actor_name group.name p.session_title p.game
        (shown post p.formatted_time) p.rsvp_response in
    record {
      user_id = u;
      token = token;
      title = copy.0;
      body = copy.1;
      event_type = n.event_type;
      group_id = n.group_id;
    }

unfoldable pub wants :
    Post
    → Notice
    → GroupMembership
    → Option NotificationPreference
    → Option NotificationPreference
    → Bool
wants post n m pref group_pref =
    should_notify m.user_id n.actor_user_id (is_enabled pref) (is_muted group_pref)
      (conditions_of pref) (context_of n.payload m) (quiet_hours_of pref) post.hour post.minute

-- One turn of `for membership in members`.
unfoldable pub notify_member :
    Post → Notice → Group → String → GroupMembership → Exec Desk (Unit {0})
unfolding get_for_user_event get_group_preference list_active_for_user push_all
notify_member post n group actor_name m = do
  pref ← get_for_user_event m.user_id n.event_type
  group_pref ← get_group_preference m.user_id n.group_id
  devices ← list_active_for_user m.user_id
  push_all post (push_of post n group actor_name m.user_id)
      (if wants post n m pref group_pref then devices else [])

unfoldable pub notify_all :
    Post → Notice → Group → String → List GroupMembership → Exec Desk (Unit {0})
unfolding notify_member
notify_all post n group actor_name [] d = (ok tt, d)
notify_all post n group actor_name (m ∷ rest) d =
    (notify_member post n group actor_name m >> notify_all post n group actor_name rest) d

abbrev pub actor_name_of : Option User → String
actor_name_of none = "Someone"
actor_name_of (some u) = u.display_name

abbrev notify_group : Post → Notice → Option Group → Exec Desk (Unit {0})
notify_group post n none = pure tt
notify_group post n (some group) = do
  actor ← on_world (get_user_by_id n.actor_user_id)
  members ← on_world (list_members n.group_id)
  notify_all post n group (actor_name_of actor) members

unfoldable pub dispatch_notification : Post → Notice → Exec Desk (Unit {0})
unfolding get_by_id get_user_by_id list_members notify_all
dispatch_notification post n = do group ← on_world (get_by_id n.group_id); notify_group post n group

-- `_dispatch_with_own_session`: an exception is logged, and the session is closed with no commit,
-- so that what it wrote is rolled back.
unfoldable pub dispatch_with_own_session : Post → Notice → Desk → Desk
unfolding dispatch_notification
dispatch_with_own_session post n d = record d { pushes = (dispatch_notification post n d).1.pushes }
