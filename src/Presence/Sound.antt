-- ===== src/Presence/Sound.antt =====
-- What a sound state of the hub is, and what connecting and disconnecting leave in it
-- (backend/app/ws/manager.py, backend/app/redis/status_store.py).
use ingame.Prelude.{
  ℕ, ◌≡◌, refl, Bool, true, false, not, ◌&&◌, ◌||◌, List, [], ◌∷◌, arith, ◌==◌, is_some,
  if◌then◌else◌, Option-cases, inl, inr, ap,
}
use ingame.Sets.{get, get_or_empty, discard, get-set, get-pop, from_keys}
use ingame.Ws.Events.{Connection}
use ingame.Presence.Status.{Redis, get_user_connection, set_user_connection, clear_user_connection}
use ingame.Presence.Hub.{Hub}
use ingame.Presence.Manager.{connect, disconnect, keep_user, with_socket, join_online}
use ingame.Presence.Tracked.{IsTracked, same-IsTracked}
use ingame.Presence.Ready.{IsKept}
use ingame.Presence.Frames.{
  IsQuiet, IsPlain, join_online-IsPlain, leave_online-IsPlain, leave_all-IsPlain,
}

abbrev pub is_online : Connection → Bool
is_online Connection.online = true
is_online Connection.away = true
is_online Connection.offline = false

-- The online sets follow the sockets, Redis has a user as online or away exactly while the user has a socket,
-- and readiness is well kept.
pub record IsSound (h : Hub) : Type 0 where
  pub tracked : IsTracked h
  pub status : (u : ℕ) → is_online (get_user_connection u h.redis) ≡ is_some (get u h.connections)
  pub kept : IsKept h.redis

pub same-IsSound : (h h' : Hub) → IsQuiet h h' → IsSound h → IsSound h'
unfolding get_user_connection
same-IsSound h h' (c, g, (o, n, k)) s = record {
  tracked = same-IsTracked h h' c g (λ i. ap (λ f. f i) o) s.tracked;
  status = λ u. rw (c, n) (s.status u);
  kept = k s.kept;
}

pub is_online-set_user_connection :
    (now u : ℕ) (c : Connection) (r : Redis) (v : ℕ)
    → is_online (get_user_connection v (set_user_connection now u c r))
      ≡ (v == u || is_online (get_user_connection v r))
unfolding get_user_connection set_user_connection
is_online-set_user_connection now u Connection.online r v = ground arith
is_online-set_user_connection now u Connection.away r v = ground arith
is_online-set_user_connection now u Connection.offline r v = ground arith

pub set_user_connection-IsKept :
    (now u : ℕ) (c : Connection) (r : Redis) → IsKept r → IsKept (set_user_connection now u c r)
unfolding set_user_connection
set_user_connection-IsKept now u c r k = record { listed = k.listed; lives = k.lives }

pub is_online-clear_user_connection :
    (u : ℕ) (r : Redis) (v : ℕ)
    → is_online (get_user_connection v (clear_user_connection u r))
      ≡ (not (v == u) && is_online (get_user_connection v r))
unfolding get_user_connection clear_user_connection
is_online-clear_user_connection u r v = ground arith

pub clear_user_connection-IsKept :
    (u : ℕ) (r : Redis) → IsKept r → IsKept (clear_user_connection u r)
unfolding clear_user_connection
clear_user_connection-IsKept u r k = record { listed = k.listed; lives = k.lives }

pub connect-IsPlain :
    (socket u : ℕ) (group_ids : List ℕ) (h : Hub)
    → IsPlain h.redis (connect socket u group_ids h).1.redis
unfolding connect
connect-IsPlain socket u group_ids h =
    let prev : List ℕ = get_or_empty u h.user_groups in
    let next : List ℕ = from_keys group_ids in
    ground (
      arith,
      join_online-IsPlain u prev next h.redis,
      leave_online-IsPlain u next prev (join_online u prev next h.redis),
    )

pub connections-connect :
    (socket u : ℕ) (group_ids : List ℕ) (h : Hub) (v : ℕ)
    → is_some (get v (connect socket u group_ids h).1.connections)
      ≡ (v == u || is_some (get v h.connections))
unfolding connect
connections-connect socket u group_ids h v =
    ground (arith, get-set v u (with_socket socket (get u h.connections)) h.connections)

keep_user-IsPlain :
    (u : ℕ) (sockets : List ℕ) (h : Hub) → IsPlain h.redis (keep_user u sockets h).1.redis
keep_user-IsPlain u [] h = leave_all-IsPlain u (get_or_empty u h.user_groups) h.redis
keep_user-IsPlain u (s ∷ sockets) h = (refl, refl, refl)

connections-keep_user :
    (u : ℕ) (sockets : List ℕ) (h : Hub) (v : ℕ)
    → is_some (get v (keep_user u sockets h).1.connections)
      ≡ (if v == u then not (keep_user u sockets h).0 else is_some (get v h.connections))
connections-keep_user u [] h v = ground (arith, get-pop v u h.connections)
connections-keep_user u (s ∷ sockets) h v = ground (arith, get-set v u (s ∷ sockets) h.connections)

pub disconnect-IsPlain : (u socket : ℕ) (h : Hub) → IsPlain h.redis (disconnect u socket h).1.redis
unfolding disconnect
disconnect-IsPlain u socket h = elim (Option-cases (get u h.connections)) [
  | inl e ↦ ground (arith, e)
  | inr (sockets, e) ↦ ground (arith, e, keep_user-IsPlain u (discard socket sockets) h)
]

pub connections-disconnect :
    (u socket : ℕ) (h : Hub) (v : ℕ)
    → is_some (get v (disconnect u socket h).1.connections)
      ≡ (if v == u then not (disconnect u socket h).0 else is_some (get v h.connections))
unfolding disconnect
connections-disconnect u socket h v = elim (Option-cases (get u h.connections)) [
  | inl e ↦ ground (arith, e)
  | inr (sockets, e) ↦ ground (arith, e, connections-keep_user u (discard socket sockets) h v)
]
