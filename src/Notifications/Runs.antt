-- ===== src/Notifications/Runs.antt =====
-- Runs of the operations on devices, preferences and pushes, each in its transaction.
use ingame.Prelude.{ℕ, String, Option, List, [], ◌∷◌, arith}
use ingame.Errors.{Exec, ok, err}
use ingame.Db.Models.{User}
use ingame.Notices.{Notice}
use ingame.Notifications.Models.{Desk, Platform}
use ingame.Notifications.Dispatcher.{Post, dispatch_with_own_session}
use ingame.Notifications.Routes.{
  register_device, delete_device_registration, run_stale_token_janitor_once,
}
use ingame.Notifications.Unique.{IsUnique}
use ingame.Notifications.Keeps.{
  register_device-IsUnique, delete_device_registration-IsUnique,
  run_stale_token_janitor_once-IsUnique,
}

pub data Step : Type 0 where
  register : ℕ → ℕ → ℕ → Platform → String → Option String → Option String → User → Step
  unregister : ℕ → User → Step
  revoke_stale_tokens : ℕ → Step
  dispatch : Post → Notice → Step

-- The session is committed if nothing raises and rolled back otherwise.
abbrev commit : {A : Type 0} → Exec Desk A → Desk → Desk
commit m d = let (r, d') = m d in elim r [ ok _ ↦ d' | err _ ↦ d ]

unfoldable pub step : Step → Desk → Desk
unfolding register_device delete_device_registration run_stale_token_janitor_once
    dispatch_with_own_session
step (register id first now platform token label version user) d =
    commit (register_device id first now platform token label version user) d
step (unregister id user) d = commit (delete_device_registration id user) d
step (revoke_stale_tokens now) d = commit (run_stale_token_janitor_once now) d
step (dispatch post n) d = dispatch_with_own_session post n d

unfoldable pub run : List Step → Desk → Desk
run [] d = d
run (s ∷ rest) d = run rest (step s d)

step-IsUnique : (s : Step) (d : Desk) → IsUnique d → IsUnique (step s d)
unfolding step dispatch_with_own_session IsUnique
step-IsUnique (register id first now platform token label version user) d u =
    ground (arith, register_device-IsUnique id first now platform token label version user d u)
step-IsUnique (unregister id user) d u =
    ground (arith, delete_device_registration-IsUnique id user d u)
step-IsUnique (revoke_stale_tokens now) d u =
    ground (arith, run_stale_token_janitor_once-IsUnique now d u)
step-IsUnique (dispatch post n) d u = u

-- Whatever devices are registered and unregistered, stale tokens revoked and notifications dispatched, one after another:
-- if no id of a device, no pair of a user and a token, no global preference of a user for an event and no
-- preference of a user for a group stands twice before, none does after.
pub run-IsUnique : (steps : List Step) (d : Desk) → IsUnique d → IsUnique (run steps d)
unfolding run
run-IsUnique [] d u = u
run-IsUnique (s ∷ rest) d u = run-IsUnique rest (step s d) (step-IsUnique s d u)
