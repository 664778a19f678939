-- ===== src/Notifications/Evaluator.antt =====
-- Whether a user is notified (backend/app/notifications/evaluator.py).
use ingame.Prelude.{
  ℕ, ◌+◌, ◌-◌, ◌*◌, ◌%◌, ◌<◌, ◌≡◌, Bool, true, false, not, ◌&&◌, ◌||◌, Option, none, some, List, [],
  ◌∷◌, ltb, leb, ◌==◌, if◌then◌else◌, arith,
}
use ingame.Db.Models.{Role, RsvpAnswer}
use ingame.Notifications.Models.{Conditions, role_eq, answer_eq}

-- `user_rsvp in conditions["only_if_rsvp"]`; no list holds `None`.
unfoldable pub has_answer : Option RsvpAnswer → List RsvpAnswer → Bool
has_answer none answers = false
has_answer (some a) [] = false
has_answer (some a) (b ∷ rest) = answer_eq a b || has_answer (some a) rest

unfoldable pub has_role : Role → List Role → Bool
has_role r [] = false
has_role r (s ∷ rest) = role_eq r s || has_role r rest

-- The dictionary `context` of `dispatch_notification`.
pub record Context : Type 0 where
  pub user_role : Role
  pub user_rsvp : Option RsvpAnswer
  pub positive_rsvp_count : Option ℕ

abbrev or_zero : Option ℕ → ℕ
or_zero none = 0
or_zero (some n) = n

abbrev pub meets_rsvp : Option (List RsvpAnswer) → Context → Bool
meets_rsvp none context = true
meets_rsvp (some answers) context = has_answer context.user_rsvp answers

abbrev pub meets_role : Option (List Role) → Context → Bool
meets_role none context = true
meets_role (some roles) context = has_role context.user_role roles

abbrev pub meets_count : Option ℕ → Context → Bool
meets_count none context = true
meets_count (some n) context = not (ltb (or_zero context.positive_rsvp_count) n)

unfoldable pub evaluate_conditions : Option Conditions → Context → Bool
unfolding has_answer has_role
evaluate_conditions none context = true
evaluate_conditions (some c) context =
    if not (meets_rsvp c.only_if_rsvp context)
    then false
    else if not (meets_role c.only_if_role context)
    then false
    else meets_count c.min_rsvp_count context

-- The microseconds of a day, and of `time(hour, minute)`.
abbrev pub day : ℕ
day = 86400000000

abbrev pub time_of : ℕ → ℕ → ℕ
time_of hour minute = (hour * 60 + minute) * 60000000

-- The name of the time zone, `tz_name`, is not used.
unfoldable pub is_in_quiet_hours : ℕ → ℕ → ℕ → ℕ → Bool
is_in_quiet_hours start end check_hour check_minute =
    let check : ℕ = time_of check_hour check_minute in
    if leb start end then leb start check && ltb check end else leb start check || ltb check end

pub record QuietHours : Type 0 where
  pub start : ℕ
  pub end : ℕ

abbrev pub is_quiet : Option QuietHours → ℕ → ℕ → Bool
is_quiet none hour minute = false
is_quiet (some q) hour minute = is_in_quiet_hours q.start q.end hour minute

-- The clock's hour and minute in UTC are arguments.
unfoldable pub should_notify :
    ℕ → ℕ → Bool → Bool → Option Conditions → Context → Option QuietHours → ℕ → ℕ → Bool
unfolding evaluate_conditions is_in_quiet_hours
should_notify user_id actor_user_id preference_enabled group_muted conditions context quiet_hours
      hour minute =
    if user_id == actor_user_id
    then false
    else if group_muted
    then false
    else if not preference_enabled
    then false
    else if not (evaluate_conditions conditions context)
    then false
    else not (is_quiet quiet_hours hour minute)

-- For a start, an end and a time of the same day, a time is in the quiet hours exactly when it
-- comes, going round the clock from the start, before the end does; so hours that pass midnight work, and equal ends
-- are never quiet.
pub is_in_quiet_hours_lem :
    (start end hour minute : ℕ)
    → start < day
    → end < day
    → hour < 24
    → minute < 60
    → is_in_quiet_hours start end hour minute
      ≡ ltb ((time_of hour minute + day - start) % day) ((end + day - start) % day)
unfolding is_in_quiet_hours
is_in_quiet_hours_lem start end hour minute a b c d = ground arith
