-- ===== src/Notifications/Due.antt =====
-- Who is to be notified of an event, as backend/app/notifications says it, and that the dispatcher decides so.
use ingame.Prelude.{
  ℕ, suc, ◌+◌, ◌*◌, ◌≡◌, refl, sym, Bool, true, false, not, ◌&&◌, ◌||◌, is_none, Option, none, some,
  List, [], ◌∷◌, ltb, leb, ◌==◌, if◌then◌else◌, arith, Option-cases, inl, inr,
}
use ingame.Db.Table.{count}
use ingame.Db.Find.{find_row}
use ingame.Db.Models.{GroupMembership, Role, RsvpAnswer}
use ingame.Notices.{Notice, NoticeType}
use ingame.Notifications.Models.{
  NotificationPreference, Conditions, role_eq, answer_eq, type_eq, Scope,
}
use ingame.Notifications.Evaluator.{
  has_answer, has_role, evaluate_conditions, is_in_quiet_hours, should_notify, is_quiet, meets_rsvp,
  meets_role, meets_count,
}
use ingame.Notifications.Dispatcher.{Post, wants, find_answer, answer_of, context_of, both}

-- The preference of a user for a type of event everywhere, and the one for a group whatever the event.
abbrev pub is_for_event : ℕ → NoticeType → NotificationPreference → Bool
is_for_event u t p =
    p.user_id == u
    && elim p.scope [ Scope.global ↦ true | Scope.group ↦ false | Scope.other s ↦ false ]
    && elim p.event_type [ none ↦ false | some e ↦ type_eq e t ]

abbrev pub is_for_group : ℕ → ℕ → NotificationPreference → Bool
is_for_group u g p =
    p.user_id == u
    && elim p.scope [ Scope.global ↦ false | Scope.group ↦ true | Scope.other s ↦ false ]
    && elim p.scope_id [ none ↦ false | some h ↦ h == g ]
    && is_none p.event_type

-- a member's answer, if there is one, is among those asked for
unfoldable pub is_asked : Option (List RsvpAnswer) → Option (ℕ × RsvpAnswer) → Bool
is_asked none answer = true
is_asked (some asked) none = false
is_asked (some asked) (some (u, a)) = ltb 0 (count (answer_eq a) asked)

unfoldable pub answer_in : ℕ → Option (List (ℕ × RsvpAnswer)) → Option (ℕ × RsvpAnswer)
answer_in u none = none
answer_in u (some answers) = find_row (λ (e : ℕ × RsvpAnswer). e.0 == u) answers

unfoldable pub has_asked_role : Option (List Role) → Role → Bool
has_asked_role none role = true
has_asked_role (some asked) role = ltb 0 (count (role_eq role) asked)

unfoldable pub is_enough : Option ℕ → Option ℕ → Bool
is_enough none positive = true
is_enough (some least) none = least == 0
is_enough (some least) (some positive) = leb least positive

unfoldable pub meets : Option Conditions → Notice → GroupMembership → Bool
unfolding is_asked answer_in has_asked_role is_enough
meets none n m = true
meets (some c) n m =
    is_asked c.only_if_rsvp (answer_in m.user_id n.payload.user_rsvps)
    && has_asked_role c.only_if_role m.role
    && is_enough c.min_rsvp_count n.payload.positive_rsvp_count

-- Quiet hours that are set go from the start up to the end, past midnight where the end is the earlier; `t` is in
-- microseconds.
unfoldable pub is_silent : Option ℕ → Option ℕ → ℕ → Bool
is_silent (some start) (some end) t =
    if leb start end then leb start t && ltb t end else not (leb end t && ltb t start)
is_silent _ _ t = false

-- no preference for the group, or one that is on
unfoldable pub hears_group : Option NotificationPreference → Bool
hears_group none = true
hears_group (some p) = p.enabled

-- no preference for the event, or one that is on, whose conditions are met outside its quiet hours
unfoldable pub hears_event : Option NotificationPreference → Notice → GroupMembership → ℕ → Bool
unfolding meets is_silent
hears_event none n m t = true
hears_event (some p) n m t =
    p.enabled && meets p.conditions n m && not (is_silent p.quiet_hours_start p.quiet_hours_end t)

-- A member other than the actor who has muted neither the group nor the event.
unfoldable pub is_due :
    Post
    → Notice
    → GroupMembership
    → Option NotificationPreference
    → Option NotificationPreference
    → Bool
unfolding hears_group hears_event
is_due post n m pref group_pref =
    not (m.user_id == n.actor_user_id)
    && hears_group group_pref
    && hears_event pref n m ((post.hour * 60 + post.minute) * 60000000)

either_counts : (b c : Bool) (n : ℕ) → c ≡ ltb 0 n → (b || c) ≡ ltb 0 (if b then suc n else n)
either_counts true c n e = ground arith
either_counts false c n e = e

has_answer_lem :
    (a : RsvpAnswer) (asked : List RsvpAnswer)
    → has_answer (some a) asked ≡ ltb 0 (count (answer_eq a) asked)
unfolding has_answer count
has_answer_lem a [] = refl
has_answer_lem a (b ∷ asked) =
    either_counts (answer_eq a b) (has_answer (some a) asked) (count (answer_eq a) asked)
      (has_answer_lem a asked)

has_role_lem : (r : Role) (asked : List Role) → has_role r asked ≡ ltb 0 (count (role_eq r) asked)
unfolding has_role count
has_role_lem r [] = refl
has_role_lem r (b ∷ asked) =
    either_counts (role_eq r b) (has_role r asked) (count (role_eq r) asked) (has_role_lem r asked)

abbrev answered : Option (ℕ × RsvpAnswer) → Option RsvpAnswer
answered none = none
answered (some (u, a)) = some a

find_answer_lem :
    (u : ℕ) (answers : List (ℕ × RsvpAnswer))
    → find_answer u answers ≡ answered (find_row (λ (e : ℕ × RsvpAnswer). e.0 == u) answers)
unfolding find_answer find_row
find_answer_lem u [] = refl
find_answer_lem u ((v, a) ∷ answers) = ground (arith, find_answer_lem u answers)

answer_of_lem :
    (u : ℕ) (answers : Option (List (ℕ × RsvpAnswer)))
    → answer_of u answers ≡ answered (answer_in u answers)
unfolding answer_in
answer_of_lem u none = refl
answer_of_lem u (some answers) = find_answer_lem u answers

all_three :
    (a b c : Bool) {x y z : Bool}
    → a ≡ x
    → b ≡ y
    → c ≡ z
    → (if not a then false else if not b then false else c) ≡ (x && y && z)
all_three a b c d e f = rw (sym d, sym e, sym f) (decided a b c)
  where
    decided : (a b c : Bool) → (if not a then false else if not b then false else c) ≡ (a && b && c)
    decided false b c = refl
    decided true false c = refl
    decided true true c = refl

module _ (n : Notice) (m : GroupMembership) where
  meets_rsvp_lem :
      (asked : Option (List RsvpAnswer))
      → meets_rsvp asked (context_of n.payload m)
        ≡ is_asked asked (answer_in m.user_id n.payload.user_rsvps)
  unfolding is_asked has_answer
  meets_rsvp_lem none = refl
  meets_rsvp_lem (some asked) = elim (Option-cases (answer_in m.user_id n.payload.user_rsvps)) [
    | inl e ↦ ground (arith, e, answer_of_lem m.user_id n.payload.user_rsvps)
    | inr ((u, a), e) ↦
        ground (arith, e, answer_of_lem m.user_id n.payload.user_rsvps, has_answer_lem a asked)
  ]

  meets_role_lem :
      (asked : Option (List Role))
      → meets_role asked (context_of n.payload m) ≡ has_asked_role asked m.role
  unfolding has_asked_role
  meets_role_lem none = refl
  meets_role_lem (some asked) = has_role_lem m.role asked

  meets_count_lem :
      (least : Option ℕ)
      → meets_count least (context_of n.payload m) ≡ is_enough least n.payload.positive_rsvp_count
  unfolding is_enough
  meets_count_lem none = refl
  meets_count_lem (some least) = elim (Option-cases n.payload.positive_rsvp_count) [
    | inl e ↦ ground (arith, e)
    | inr (c, e) ↦ ground (arith, e)
  ]

  evaluate_conditions_lem :
      (conditions : Option Conditions)
      → evaluate_conditions conditions (context_of n.payload m) ≡ meets conditions n m
  unfolding evaluate_conditions meets
  evaluate_conditions_lem none = refl
  evaluate_conditions_lem (some c) =
      all_three (meets_rsvp c.only_if_rsvp (context_of n.payload m))
        (meets_role c.only_if_role (context_of n.payload m))
        (meets_count c.min_rsvp_count (context_of n.payload m)) (meets_rsvp_lem c.only_if_rsvp)
        (meets_role_lem c.only_if_role) (meets_count_lem c.min_rsvp_count)

is_quiet_lem :
    (start end : Option ℕ) (hour minute : ℕ)
    → is_quiet (both start end) hour minute ≡ is_silent start end ((hour * 60 + minute) * 60000000)
unfolding is_silent is_in_quiet_hours
is_quiet_lem none end hour minute = refl
is_quiet_lem (some start) none hour minute = refl
is_quiet_lem (some start) (some end) hour minute = ground arith

-- what the dispatcher decides
pub wants-is_due :
    (post : Post) (n : Notice) (m : GroupMembership)
    (pref group_pref : Option NotificationPreference)
    → wants post n m pref group_pref ≡ is_due post n m pref group_pref
unfolding wants should_notify is_due hears_group hears_event
wants-is_due post n m none none = ground arith
wants-is_due post n m none (some g) = ground arith
wants-is_due post n m (some p) none = ground (
  arith,
  evaluate_conditions_lem n m p.conditions,
  is_quiet_lem p.quiet_hours_start p.quiet_hours_end post.hour post.minute,
)
wants-is_due post n m (some p) (some g) = ground (
  arith,
  evaluate_conditions_lem n m p.conditions,
  is_quiet_lem p.quiet_hours_start p.quiet_hours_end post.hour post.minute,
)
