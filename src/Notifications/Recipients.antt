-- ===== src/Notifications/Recipients.antt =====
-- Whom a dispatch reaches.
use ingame.Prelude.{◌&&◌, List, [], ◌∷◌, ◌==◌, String, ◌++◌, is_none, if◌then◌else◌}
use ingame.Db.Table.{select}
use ingame.Db.Find.{find_row}
use ingame.Db.Models.{Group, GroupMembership}
use ingame.Notices.{Notice}
use ingame.Notifications.Models.{Desk, DeviceRegistration, Push}
use ingame.Notifications.Dispatcher.{Post, push_of}
use ingame.Notifications.Due.{is_due, is_for_event, is_for_group}

unfoldable pub push_each : (String → Push) → List DeviceRegistration → List Push
push_each push [] = []
push_each push (r ∷ rows) = push r.token ∷ push_each push rows

module _ (post : Post) (n : Notice) (group : Group) (actor_name : String) (d : Desk) where
  -- The pushes that are due for a member: one for each device that is not revoked, if the member is to be notified.
  unfoldable pub due_member : GroupMembership → List Push
  unfolding is_due
  due_member m =
      if is_due post n m (find_row (is_for_event m.user_id n.event_type) d.preferences)
        (find_row (is_for_group m.user_id n.group_id) d.preferences)
      then push_each (push_of post n group actor_name m.user_id)
          (select (λ r. r.user_id == m.user_id && is_none r.revoked_at) d.devices)
      else []

  unfoldable pub due_all : List GroupMembership → List Push
  due_all [] = []
  due_all (m ∷ ms) = due_member m ++ due_all ms
