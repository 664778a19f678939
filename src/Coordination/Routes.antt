-- ===== src/Coordination/Routes.antt =====
-- The end of a coordination route (backend/app/api/v1/coordination/routes.py): `await db.commit()` and
-- `publish_after_commit`.
use ingame.Prelude.{List, ◌++◌}
use ingame.Errors.{Exec, ok, err}
use ingame.Ws.Events.{Event}
use ingame.World.{World}

-- The events are published once the rows are committed, and not at all where the service raises. A
-- hook that fails is logged: that an event is lost on its way is not modelled.
unfoldable pub route : {A : Type 0} → Exec World (A × List Event) → Exec World A
route m w =
    let (r, w') = m w in
    elim r [
      | ok a ↦ (ok a.0, record w' { published = w'.published ++ a.1 })
      | err e ↦ (err e, record w' { db = w.db })
    ]
