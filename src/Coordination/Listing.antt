-- ===== src/Coordination/Listing.antt =====
-- The listings of a group's windows, sessions and activity feed (backend/app/api/v1/coordination/service.py and
-- backend/app/db/repositories/coordination_repo.py). The database orders stamps by the instants they stand for.
use ingame.Prelude.{
  ℕ, zero, suc, ◌+◌, ◌-◌, Bool, false, ◌&&◌, ◌||◌, none, some, List, [], ◌∷◌, ◌==◌, leb, ltb,
  if◌then◌else◌,
}
use ingame.Errors.{Exec, ok, asks, pure, ◌>>=◌}
use ingame.Time.{DateTime, Zone}
use ingame.Db.Table.{select}
use ingame.Db.Models.{ScheduledReadyWindow, Session, SessionRsvp, GroupActivityEvent}
use ingame.Schemas.{WindowResponse, SessionResponse, ActivityResponse}
use ingame.World.{World}
use ingame.Db.Models.{User}
use ingame.Coordination.Access.{ensure_member}
use ingame.Coordination.Responses.{
  window_to_response, session_to_response, activity_to_response, order_by_update,
}

abbrev pub instant : DateTime → ℕ
instant t = elim t.tzinfo [
  | none ↦ t.wall
  | some zone ↦ elim zone [ Zone.east d ↦ t.wall - d | Zone.west d ↦ t.wall + d ]
]

-- `order_by(first.asc(), second.asc())`
module _ {R : Type 0} (first second : R → ℕ) where
  unfoldable pub is_before : R → R → Bool
  is_before r s = ltb (first r) (first s) || first r == first s && leb (second r) (second s)

  unfoldable pub insert_ordered : R → List R → List R
  unfolding is_before
  insert_ordered r [] = r ∷ []
  insert_ordered r (s ∷ rows) = if is_before r s then r ∷ s ∷ rows else s ∷ insert_ordered r rows

  unfoldable pub order_by : List R → List R
  unfolding insert_ordered
  order_by [] = []
  order_by (r ∷ rows) = insert_ordered r (order_by rows)

unfoldable pub windows_of : ℕ → World → List ScheduledReadyWindow
unfolding order_by
windows_of g w =
    order_by (λ r. instant r.starts_at) (λ r. instant r.created_at)
      (select (λ (r : ScheduledReadyWindow). r.group_id == g) w.windows)

unfoldable pub sessions_of : ℕ → World → List Session
unfolding order_by
sessions_of g w =
    order_by (λ r. instant r.starts_at) (λ r. instant r.created_at)
      (select (λ (r : Session). r.group_id == g) w.sessions)

unfoldable pub windows_to_response : List ScheduledReadyWindow → Exec World (List WindowResponse)
unfolding window_to_response
windows_to_response [] w = (ok [], w)
windows_to_response (r ∷ rows) w =
    (do response ← window_to_response r; rest ← windows_to_response rows; pure (response ∷ rest)) w

unfoldable pub list_scheduled_ready_windows : ℕ → User → Exec World (List WindowResponse)
unfolding ensure_member windows_of windows_to_response
list_scheduled_ready_windows g user = do
  _ ← ensure_member g user.id
  windows ← asks (λ w. ok (windows_of g w))
  windows_to_response windows

-- `SessionRsvp.session_id.in_(session_ids)`
unfoldable pub is_among : List Session → ℕ → Bool
is_among [] id = false
is_among (s ∷ sessions) id = s.id == id || is_among sessions id

-- `list_rsvps_for_sessions`, where no session leaves no row
unfoldable pub rsvps_of : List Session → World → List SessionRsvp
unfolding is_among order_by_update
rsvps_of sessions w = order_by_update (select (λ r. is_among sessions r.session_id) w.rsvps)

unfoldable pub sessions_to_response :
    List SessionRsvp → List Session → Exec World (List SessionResponse)
unfolding session_to_response
sessions_to_response rsvps [] w = (ok [], w)
sessions_to_response rsvps (r ∷ rows) w =
    (do
      response ← session_to_response r rsvps
      rest ← sessions_to_response rsvps rows
      pure (response ∷ rest))
      w

unfoldable pub list_sessions : ℕ → User → Exec World (List SessionResponse)
unfolding ensure_member sessions_of rsvps_of sessions_to_response
list_sessions g user = do
  _ ← ensure_member g user.id
  sessions ← asks (λ w. ok (sessions_of g w))
  rsvps ← asks (λ w. ok (rsvps_of sessions w))
  sessions_to_response rsvps sessions

-- `order_by(GroupActivityEvent.created_at.desc())`
unfoldable pub insert_latest :
    GroupActivityEvent → List GroupActivityEvent → List GroupActivityEvent
insert_latest r [] = r ∷ []
insert_latest r (s ∷ rows) =
    if leb (instant s.created_at) (instant r.created_at)
    then r ∷ s ∷ rows
    else s ∷ insert_latest r rows

unfoldable pub latest_first : List GroupActivityEvent → List GroupActivityEvent
unfolding insert_latest
latest_first [] = []
latest_first (r ∷ rows) = insert_latest r (latest_first rows)

-- `limit(n)`
unfoldable pub limit : {R : Type 0} → ℕ → List R → List R
limit zero rows = []
limit (suc n) [] = []
limit (suc n) (r ∷ rows) = r ∷ limit n rows

unfoldable pub activities_of : ℕ → World → List GroupActivityEvent
unfolding latest_first limit
activities_of g w =
    limit 50 (latest_first (select (λ (r : GroupActivityEvent). r.group_id == g) w.activities))

unfoldable pub activities_to_response : List GroupActivityEvent → Exec World (List ActivityResponse)
unfolding activity_to_response
activities_to_response [] w = (ok [], w)
activities_to_response (r ∷ rows) w =
    (do
      response ← activity_to_response r
      rest ← activities_to_response rows
      pure (response ∷ rest))
      w

unfoldable pub list_activity_events : ℕ → User → Exec World (List ActivityResponse)
unfolding ensure_member activities_of activities_to_response
list_activity_events g user = do
  _ ← ensure_member g user.id
  events ← asks (λ w. ok (activities_of g w))
  activities_to_response events
