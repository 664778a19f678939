-- ===== src/Notifications/Tests.antt =====
-- The theorems about notifications at concrete tables, and runs.
use ingame.Prelude.{ℕ, ◌+◌, ◌-◌, ◌%◌, ◌≡◌, refl, true, false, none, some, List, [], ◌∷◌, arith, ltb}
use ingame.Db.Table.{count, select, one_or_none, scalar_one_or_none}
use ingame.Db.Models.{User, Group, GroupMembership, Role, JoinMode}
use ingame.Notices.{Notice, NoticeType, empty_payload}
use ingame.World.{World, empty_db}
use ingame.Groups.Repo.{get_by_id, get_user_by_id, list_members}
use ingame.Notifications.Models.{Desk, DeviceRegistration, Platform, NotificationPreference, Scope}
use ingame.Notifications.Evaluator.{
  is_in_quiet_hours, is_in_quiet_hours_lem, time_of, day, should_notify, evaluate_conditions,
  has_role,
}
use ingame.Notifications.Copy.{build_notification_copy}
use ingame.Notifications.Devices.{list_active_for_user}
use ingame.Notifications.Preferences.{get_for_user_event, get_group_preference}
use ingame.Notifications.Dispatcher.{
  Post, Delivery, send_push, dispatch_notification, notify_all, notify_member, push_all, wants,
}
use ingame.Notifications.Unique.{IsUnique}
use ingame.Notifications.Runs.{Step, run, run-IsUnique}

abbrev user_of : ℕ → User
user_of id = record {
  id = id;
  email = none;
  password_hash = none;
  display_name = "a name";
  avatar_url = none;
  bio = none;
  timezone = "UTC";
  preferred_gaming_hours = none;
  steam_id = none;
  apple_id = none;
  created_at = 0;
  updated_at = none;
}

abbrev team : Group
team = record {
  id = 10;
  name = "raiders";
  description = none;
  invite_code = 1 ∷ [];
  is_discoverable = true;
  join_mode = JoinMode.open_to_all;
  avatar_url = none;
  created_by = 1;
  created_at = 0;
  updated_at = none;
}

abbrev membership : ℕ → ℕ → Role → GroupMembership
membership id u role = record { id = id; user_id = u; group_id = 10; role = role; joined_at = 0 }

abbrev world : World
world = record {
  db = record empty_db {
    users = user_of 1 ∷ user_of 2 ∷ user_of 3 ∷ [];
    groups = team ∷ [];
    memberships =
        membership 20 1 Role.owner ∷ membership 21 2 Role.member ∷ membership 22 3 Role.member ∷ [];
  };
  published = [];
  enqueued = [];
}

abbrev quiet : Desk
quiet = record { world = world; devices = []; preferences = []; pushes = [] }

abbrev phone : DeviceRegistration
phone = record {
  id = 40;
  user_id = 2;
  platform = Platform.ios;
  token = "token";
  device_label = none;
  app_version = none;
  last_seen_at = 100;
  revoked_at = none;
}

-- User 2 hears of this event as a member, but not at night.
abbrev by_day : NotificationPreference
by_day = record {
  id = 60;
  user_id = 2;
  scope = Scope.global;
  scope_id = none;
  event_type = some NoticeType.ready_changed;
  enabled = true;
  conditions = some (record {
    only_if_rsvp = none;
    only_if_role = some (Role.member ∷ []);
    min_rsvp_count = none;
  });
  quiet_hours_start = some (time_of 22 0);
  quiet_hours_end = some (time_of 7 0);
  quiet_hours_tz = none;
  updated_at = 100;
}

-- User 3 has muted the group.
abbrev muted : NotificationPreference
muted = record {
  id = 61;
  user_id = 3;
  scope = Scope.group;
  scope_id = some 10;
  event_type = none;
  enabled = false;
  conditions = none;
  quiet_hours_start = none;
  quiet_hours_end = none;
  quiet_hours_tz = none;
  updated_at = 100;
}

-- Users 2 and 3 have a device each.
abbrev staffed : Desk
staffed = record quiet {
  devices = phone ∷ record phone { id = 41; user_id = 3; token = "another" } ∷ [];
  preferences = by_day ∷ muted ∷ [];
}

abbrev steps : List Step
steps =
    Step.register 40 50 100 Platform.ios "token" none none (user_of 2)
    ∷ Step.register 41 60 200 Platform.web "token" none none (user_of 2)
    ∷ Step.revoke_stale_tokens 300
    ∷ []

quiet-IsUnique : IsUnique quiet
unfolding IsUnique count
quiet-IsUnique = (
  record { ids = λ id. ground arith; pairs = λ u t. ground arith },
  record { events = λ u t. ground arith; groups = λ u g. ground arith },
)

run-IsUnique_example : IsUnique (run steps quiet)
run-IsUnique_example = run-IsUnique steps quiet quiet-IsUnique

is_in_quiet_hours_lem_example :
    is_in_quiet_hours (time_of 22 0) (time_of 7 0) 23 30
    ≡ ltb ((time_of 23 30 + day - time_of 22 0) % day) ((time_of 7 0 + day - time_of 22 0) % day)
is_in_quiet_hours_lem_example =
    is_in_quiet_hours_lem (time_of 22 0) (time_of 7 0) 23 30 (omega arith) (omega arith)
      (omega arith) (omega arith)

abbrev post : Post
post = record {
  notifications_enabled = true;
  dry_run = false;
  firebase = true;
  now = 400;
  hour = 12;
  minute = 0;
  show_time = λ t. "noon";
  send = λ p. Delivery.delivered;
}

abbrev notice : Notice
notice = record {
  event_type = NoticeType.ready_changed;
  group_id = 10;
  actor_user_id = 1;
  payload = empty_payload;
}

-- Three members, of whom one is the actor and one has muted the group: one push.
staffed_pushes :
    (dispatch_notification post notice staffed).1.pushes
    ≡ record {
      user_id = 2;
      token = "token";
      title = "a name is ready to play";
      body = "a name is ready in raiders";
      event_type = NoticeType.ready_changed;
      group_id = 10;
    }
      ∷ []
unfolding dispatch_notification get_by_id get_user_by_id list_members one_or_none scalar_one_or_none
    select notify_all notify_member get_for_user_event get_group_preference list_active_for_user
    push_all send_push wants should_notify evaluate_conditions build_notification_copy
    is_in_quiet_hours has_role
staffed_pushes = refl
