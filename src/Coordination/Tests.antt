-- ===== src/Coordination/Tests.antt =====
-- The theorems about sessions at concrete tables.
use ingame.Prelude.{ℕ, ◌≤◌, ◌≡◌, refl, true, none, some, [], ◌∷◌, arith, ◌&&◌, ◌==◌, if◌then◌else◌}
use ingame.Time.{at_utc, coerce_utc, coerce_utc?, astimezone_utc}
use ingame.Db.Table.{count, select, one_or_none, scalar_one_or_none, insert_row, update_rows}
use ingame.Db.Find.{find_row}
use ingame.Db.Models.{
  User, Group, GroupMembership, Role, JoinMode, Session, SessionStatus, RsvpAnswer,
}
use ingame.World.{World, empty_db}
use ingame.Groups.Repo.{get_by_id, get_membership, get_user_by_id, exists_row}
use ingame.Groups.Invariant.{IsSound}
use ingame.Groups.Rules.{succeeded}
use ingame.Coordination.Repo.{
  SessionPatch, is_session, is_rsvp, insert_rsvp, has_owner_rows, create_activity_event,
  get_session, patched, delete_session_rows,
}
use ingame.Coordination.Responses.{
  rsvps_to_response, rsvp_to_response, activity_to_response, session_to_response,
  list_rsvps_for_session, order_by_update,
}
use ingame.Coordination.Access.{ensure_member, ensure_session_editor}
use ingame.Coordination.Sessions.{upsert_rsvp, update_session, delete_session}
use ingame.Coordination.Rsvps.{
  rsvp_of, rsvp_of-upsert_rsvp, may_edit, update_session_requires, delete_session_requires,
}

abbrev user_of : ℕ → User
user_of id = record {
  id = id;
  email = none;
  password_hash = none;
  display_name = "a name";
  avatar_url = none;
  bio = none;
  timezone = "UTC";
  preferred_gaming_hours = none;
  steam_id = none;
  apple_id = none;
  created_at = 0;
  updated_at = none;
}

abbrev team : Group
team = record {
  id = 10;
  name = "raiders";
  description = none;
  invite_code = 1 ∷ [];
  is_discoverable = true;
  join_mode = JoinMode.open_to_all;
  avatar_url = none;
  created_by = 1;
  created_at = 0;
  updated_at = none;
}

abbrev membership : ℕ → ℕ → Role → GroupMembership
membership id u role = record { id = id; user_id = u; group_id = 10; role = role; joined_at = 0 }

abbrev raid : Session
raid = record {
  id = 30;
  group_id = 10;
  proposed_by = 2;
  title = some "raid";
  game = none;
  starts_at = at_utc 1000;
  notes = none;
  status = SessionStatus.proposed;
  created_at = at_utc 5;
  updated_at = none;
}

abbrev world : World
world = record {
  db = record empty_db {
    users = user_of 1 ∷ user_of 2 ∷ [];
    groups = team ∷ [];
    memberships = membership 20 1 Role.owner ∷ membership 21 2 Role.member ∷ [];
    sessions = raid ∷ [];
  };
  published = [];
  enqueued = [];
}

world-IsSound : IsSound world.db
unfolding IsSound count
world-IsSound = (
  record {
    ids = λ g. ground arith;
    codes = λ c. ground arith;
    members = λ g u. ground arith;
    owners = λ g. ground arith;
    orphans = λ g e. ground arith;
  },
  record { ids = λ id. ground arith; pendings = λ g u. ground arith },
)

raid_lem :
    (count (is_rsvp 30 2) world.rsvps ≤ 1)
    × (count (is_session 30) world.sessions ≤ 1)
    × (find_row (is_session 30) world.sessions ≡ some raid)
unfolding count find_row
raid_lem = (omega arith, omega arith, refl)

abbrev confirm : SessionPatch
confirm = record {
  title = none;
  game = none;
  starts_at = none;
  notes = none;
  status = some (some SessionStatus.confirmed);
}

runs :
    (succeeded (upsert_rsvp 40 50 7 (at_utc 7) 10 30 (user_of 2) RsvpAnswer.going world).0 ≡ true)
    × (succeeded (update_session 50 7 none 10 30 (user_of 2) confirm world).0 ≡ true)
    × (succeeded (delete_session 50 7 10 30 (user_of 1) world).0 ≡ true)
unfolding upsert_rsvp update_session delete_session ensure_member get_by_id get_membership
    get_user_by_id exists_row one_or_none scalar_one_or_none select insert_row update_rows count
    insert_rsvp has_owner_rows create_activity_event get_session rsvps_to_response rsvp_to_response
    activity_to_response session_to_response ensure_session_editor list_rsvps_for_session
    order_by_update coerce_utc astimezone_utc patched coerce_utc? delete_session_rows
runs = (refl, refl, refl)

rsvp_of-upsert_rsvp_example :
    rsvp_of 30 2 (upsert_rsvp 40 50 7 (at_utc 7) 10 30 (user_of 2) RsvpAnswer.going world).1.rsvps
    ≡ (if 30 == 30 && 2 == 2 then some RsvpAnswer.going else rsvp_of 30 2 world.rsvps)
rsvp_of-upsert_rsvp_example =
    rsvp_of-upsert_rsvp 40 50 7 (at_utc 7) 10 30 (user_of 2) RsvpAnswer.going world raid_lem.0 30 2
      runs.0

update_session_requires_example : may_edit 10 2 raid world.memberships ≡ true
update_session_requires_example =
    update_session_requires 10 30 (user_of 2) raid world world-IsSound raid_lem.1 raid_lem.2 50 7
      none confirm runs.1

delete_session_requires_example : may_edit 10 1 raid world.memberships ≡ true
delete_session_requires_example =
    delete_session_requires 10 30 (user_of 1) raid world world-IsSound raid_lem.1 raid_lem.2 50 7
      runs.2
