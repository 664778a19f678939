-- ===== src/Presence/Leaving.antt =====
-- A user whose sockets have all closed (backend/app/ws/handlers.py, `handle_disconnect`).
use ingame.Prelude.{
  ℕ, ◌≡◌, refl, true, false, not, ◌&&◌, none, some, List, [], ◌∷◌, arith, ◌==◌, is_some,
  Option-cases, Bool-cases, inl, inr,
}
use ingame.Sets.{mem, get, get_or_empty, discard, get-set, get-pop, mem-discard}
use ingame.Ws.Events.{Connection}
use ingame.Presence.Status.{get_user_connection, clear_user_connection}
use ingame.Presence.Hub.{Hub, on_redis}
use ingame.Presence.Manager.{disconnect, keep_user}
use ingame.Presence.Handlers.{handle_disconnect}
use ingame.Presence.Tracked.{has_none}
use ingame.Presence.Frames.{publish_user_offline-IsSame}
use ingame.Presence.Sound.{IsSound, is_online}
use ingame.Presence.Reach.{Reachable, Reachable-IsSound, stepped, closed}

-- The sockets close one after the other.
unfoldable pub close_all : ℕ → List ℕ → Hub → Hub
unfolding handle_disconnect
close_all u [] h = h
close_all u (s ∷ sockets) h = close_all u sockets (handle_disconnect u s h)

mem-keep_user :
    (u : ℕ) (sockets : List ℕ) (h : Hub) (v : ℕ)
    → mem v (get_or_empty u (keep_user u sockets h).1.connections) ≡ mem v sockets
unfolding get_or_empty mem
mem-keep_user u [] h v = ground (arith, get-pop u u h.connections)
mem-keep_user u (s ∷ sockets) h v = ground (arith, get-set u u (s ∷ sockets) h.connections)

disconnect-none : (u s : ℕ) (h : Hub) → get u h.connections ≡ none → disconnect u s h ≡ (true, h)
unfolding disconnect
disconnect-none u s h e = ground (arith, e)

disconnect-some :
    (u s : ℕ) (h : Hub) (sockets : List ℕ)
    → get u h.connections ≡ some sockets
    → disconnect u s h ≡ keep_user u (discard s sockets) h
unfolding disconnect
disconnect-some u s h sockets e = ground (arith, e)

get_or_empty-some :
    (u : ℕ) (h : Hub) (sockets : List ℕ)
    → get u h.connections ≡ some sockets
    → get_or_empty u h.connections ≡ sockets
unfolding get_or_empty
get_or_empty-some u h sockets e = ground (arith, e)

get_or_empty-none :
    (u : ℕ) (h : Hub) → get u h.connections ≡ none → get_or_empty u h.connections ≡ []
unfolding get_or_empty
get_or_empty-none u h e = ground (arith, e)

mem-disconnect :
    (u s : ℕ) (h : Hub) (v : ℕ)
    → mem v (get_or_empty u (disconnect u s h).1.connections)
      ≡ (not (v == s) && mem v (get_or_empty u h.connections))
unfolding mem
mem-disconnect u s h v = elim (Option-cases (get u h.connections)) [
  | inl e ↦ rw (disconnect-none u s h e, get_or_empty-none u h e) (ground arith)
  | inr (sockets, e) ↦
      rw
        (
          disconnect-some u s h sockets e,
          get_or_empty-some u h sockets e,
          mem-keep_user u (discard s sockets) h v,
        )
        (mem-discard v s sockets)
]

same-handle_disconnect :
    (u s : ℕ) (h : Hub) → (handle_disconnect u s h).connections ≡ (disconnect u s h).1.connections
unfolding handle_disconnect
same-handle_disconnect u s h = elim (Bool-cases (disconnect u s h).0) [
  | inl e ↦ ground (
    arith,
    e,
    publish_user_offline-IsSame u (get_or_empty u h.user_groups)
        (on_redis (clear_user_connection u) (disconnect u s h).1),
  )
  | inr e ↦ ground (arith, e)
]

mem-handle_disconnect :
    (u s : ℕ) (h : Hub) (v : ℕ)
    → mem v (get_or_empty u (handle_disconnect u s h).connections)
      ≡ (not (v == s) && mem v (get_or_empty u h.connections))
mem-handle_disconnect u s h v = rw (same-handle_disconnect u s h) (mem-disconnect u s h v)

no_sockets :
    (u : ℕ) (h : Hub)
    → has_none (get u h.connections) ≡ false
    → ((s : ℕ) → mem s (get_or_empty u h.connections) ≡ true → mem s [] ≡ true)
    → get u h.connections ≡ none
unfolding get_or_empty mem
no_sockets u h e a = elim (Option-cases (get u h.connections)) [
  | inl n ↦ n
  | inr ([], n) ↦ ground (arith, n, e)
  | inr (s ∷ sockets, n) ↦ ground (arith, n, a s)
]

offline_of : (c : Connection) → is_online c ≡ false → c ≡ Connection.offline
offline_of Connection.online e = ground (arith, e)
offline_of Connection.away e = ground (arith, e)
offline_of Connection.offline e = refl

-- Once all sockets of a user have closed, in whatever order and among whatever others, Redis has the user as
-- offline and in no group's online set, and the manager keeps neither sockets nor groups of the user.
pub close_all_lem :
    (u : ℕ) (sockets : List ℕ) {h : Hub}
    → Reachable h
    → ((s : ℕ) → mem s (get_or_empty u h.connections) ≡ true → mem s sockets ≡ true)
    → let h' = close_all u sockets h in
      (get_user_connection u h'.redis ≡ Connection.offline)
      × ((g : ℕ) → mem u (h'.redis.online g) ≡ false)
      × (get u h'.connections ≡ none)
      × (is_some (get u h'.user_groups) ≡ false)
unfolding close_all mem get_or_empty
close_all_lem u [] {h} r a =
    let s : IsSound h = Reachable-IsSound r in
    let n : get u h.connections ≡ none = no_sockets u h (s.tracked.sockets u) a in
    (
      offline_of (get_user_connection u h.redis) (ground (arith, n, s.status u)),
      λ g. ground (arith, n, s.tracked.users u, s.tracked.online g u),
      n,
      ground (arith, n, s.tracked.users u),
    )
close_all_lem u (x ∷ sockets) {h} r a =
    close_all_lem u sockets (stepped r (closed u x))
      (λ s m. ground (arith, a s, mem-handle_disconnect u x h s, m))
