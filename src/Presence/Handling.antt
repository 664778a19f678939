-- ===== src/Presence/Handling.antt =====
-- The handlers of a socket keep the state of the hub sound (backend/app/ws/handlers.py).
use ingame.Prelude.{
  ℕ, ◌≡◌, refl, true, false, none, some, List, arith, is_some, Bool-cases, inl, inr,
}
use ingame.Sets.{get, get_or_empty}
use ingame.Ws.Events.{Connection}
use ingame.Presence.Status.{Redis, get_user_connection, set_user_connection, clear_user_connection}
use ingame.Presence.Hub.{Hub, on_redis}
use ingame.Presence.Manager.{connect, disconnect}
use ingame.Presence.Handlers.{
  Authenticated, Message, Lifecycle, welcome, handle_disconnect, handle_message,
}
use ingame.Presence.Tracked.{connect-IsTracked, disconnect-IsTracked, same-IsTracked}
use ingame.Presence.Frames.{
  IsSame-IsQuiet, IsPlain, IsPlain-IsKept, publish_user_online-IsSame, publish_user_offline-IsSame,
  publish_connection_changed-IsSame, send_presence_snapshot-IsQuiet, sweep_all_groups-IsQuiet,
  toggle_ready-IsQuiet,
}
use ingame.Presence.Manager.{
  publish_user_online, publish_user_offline, sweep_all_groups, send_presence_snapshot,
}
use ingame.Presence.Handlers.{publish_connection_changed, toggle_ready}
use ingame.Presence.Sound.{
  IsSound, same-IsSound, is_online-set_user_connection, set_user_connection-IsKept,
  is_online-clear_user_connection, clear_user_connection-IsKept, connect-IsPlain,
  connections-connect, disconnect-IsPlain, connections-disconnect,
}

module _ (u socket : ℕ) (h : Hub) (s : IsSound h) where
  kept-IsSound :
      (disconnect u socket h).0 ≡ false
      → is_some (get u h.connections) ≡ true
      → IsSound (disconnect u socket h).1
  unfolding get_user_connection
  kept-IsSound e c =
      let h' : Hub = (disconnect u socket h).1 in
      let p : IsPlain h.redis h'.redis = disconnect-IsPlain u socket h in
      record {
        tracked = disconnect-IsTracked u socket h s.tracked;
        status = λ v.
            ground (arith, p.0, e, c, s.status v, s.status u, connections-disconnect u socket h v);
        kept = IsPlain-IsKept h.redis h'.redis p s.kept;
      }

  cleared-IsSound :
      (disconnect u socket h).0 ≡ true
      → IsSound (on_redis (clear_user_connection u) (disconnect u socket h).1)
  unfolding clear_user_connection get_user_connection
  cleared-IsSound e =
      let h' : Hub = (disconnect u socket h).1 in
      let p : IsPlain h.redis h'.redis = disconnect-IsPlain u socket h in
      record {
        tracked =
            same-IsTracked h' (on_redis (clear_user_connection u) h') refl refl (λ g. refl)
              (disconnect-IsTracked u socket h s.tracked);
        status = λ v. ground (
          arith,
          p.0,
          e,
          s.status v,
          connections-disconnect u socket h v,
          is_online-clear_user_connection u h'.redis v,
        );
        kept = clear_user_connection-IsKept u h'.redis (IsPlain-IsKept h.redis h'.redis p s.kept);
      }

  connected-disconnect : (disconnect u socket h).0 ≡ false → is_some (get u h.connections) ≡ true
  unfolding disconnect
  connected-disconnect e = ground (arith, e)

  pub handle_disconnect-IsSound : IsSound (handle_disconnect u socket h)
  unfolding handle_disconnect
  handle_disconnect-IsSound = elim (Bool-cases (disconnect u socket h).0) [
    | inl e ↦
        let h' : Hub = on_redis (clear_user_connection u) (disconnect u socket h).1 in
        let q : IsSound (publish_user_offline u (get_or_empty u h.user_groups) h') =
          same-IsSound h' (publish_user_offline u (get_or_empty u h.user_groups) h')
            (IsSame-IsQuiet h' (publish_user_offline u (get_or_empty u h.user_groups) h')
              (publish_user_offline-IsSame u (get_or_empty u h.user_groups) h'))
            (cleared-IsSound e) in
        ground (arith, e, q)
    | inr e ↦ ground (arith, e, kept-IsSound e (connected-disconnect e))
  ]

module _ (now socket : ℕ) (a : Authenticated) (h : Hub) (s : IsSound h) where
  connected : Hub
  connected =
      (connect socket a.user_id a.group_ids
        (on_redis (set_user_connection now a.user_id Connection.online) h)).1

  connected-IsSound : IsSound connected
  unfolding connected get_user_connection set_user_connection
  connected-IsSound =
      let r : Redis = set_user_connection now a.user_id Connection.online h.redis in
      let h' : Hub = record h { redis = r } in
      let p : IsPlain r connected.redis = connect-IsPlain socket a.user_id a.group_ids h' in
      record {
        tracked =
            connect-IsTracked a.user_id socket h'
              (same-IsTracked h h' refl refl (λ g. refl) s.tracked) a.group_ids;
        status = λ v. ground (
          arith,
          p.0,
          s.status v,
          connections-connect socket a.user_id a.group_ids h' v,
          is_online-set_user_connection now a.user_id Connection.online h.redis v,
        );
        kept =
            IsPlain-IsKept r connected.redis p
              (set_user_connection-IsKept now a.user_id Connection.online h.redis s.kept);
      }

  pub welcome-IsSound : IsSound (welcome now socket a h)
  unfolding welcome connected
  welcome-IsSound =
      let h1 : Hub = sweep_all_groups now a.group_ids connected in
      let h2 : Hub = send_presence_snapshot now a.group_ids socket h1 in
      let h3 : Hub = publish_user_online a.user_id a.display_name a.group_ids h2 in
      let s2 : IsSound h2 =
        same-IsSound h1 h2 (send_presence_snapshot-IsQuiet now a.group_ids socket h1) (
          same-IsSound connected h1 (sweep_all_groups-IsQuiet now a.group_ids connected)
            connected-IsSound) in
      let s3 : IsSound h3 =
        same-IsSound h2 h3
          (IsSame-IsQuiet h2 h3
            (publish_user_online-IsSame a.user_id a.display_name a.group_ids h2))
          s2 in
      ground (arith, s2, s3)

change_connection-IsSound :
    (now u : ℕ) (c : Connection) (h : Hub)
    → is_some (get u h.connections) ≡ true
    → IsSound h
    → (groups : List ℕ)
    → IsSound (publish_connection_changed u c groups (on_redis (set_user_connection now u c) h))
unfolding set_user_connection get_user_connection
change_connection-IsSound now u c h e s groups =
    let h' : Hub = on_redis (set_user_connection now u c) h in
    same-IsSound h' (publish_connection_changed u c groups h')
      (IsSame-IsQuiet h' (publish_connection_changed u c groups h')
        (publish_connection_changed-IsSame u c groups h'))
      (record {
        tracked = same-IsTracked h h' refl refl (λ g. refl) s.tracked;
        status =
            λ v. ground (arith, e, s.status v, is_online-set_user_connection now u c h.redis v);
        kept = set_user_connection-IsKept now u c h.redis s.kept;
      })

pub handle_message-IsSound :
    (now u : ℕ) (m : Message) (h : Hub)
    → is_some (get u h.connections) ≡ true
    → IsSound h
    → IsSound (handle_message now u m h)
unfolding handle_message
handle_message-IsSound now u (Message.presence_lifecycle Lifecycle.away) h e s =
    change_connection-IsSound now u Connection.away h e s (get_or_empty u h.user_groups)
handle_message-IsSound now u (Message.presence_lifecycle Lifecycle.active) h e s =
    change_connection-IsSound now u Connection.online h e s (get_or_empty u h.user_groups)
handle_message-IsSound now u (Message.presence_lifecycle Lifecycle.other) h e s = s
handle_message-IsSound now u (Message.ready_toggle (some g) (some ready)) h e s = ground (
  arith,
  s,
  same-IsSound h (toggle_ready now u g ready h) (toggle_ready-IsQuiet now u g ready h) s,
)
handle_message-IsSound now u (Message.ready_toggle none ready) h e s = s
handle_message-IsSound now u (Message.ready_toggle (some g) none) h e s = s
handle_message-IsSound now u Message.other h e s = s
