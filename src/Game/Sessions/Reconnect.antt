-- ===== src/Game/Sessions/Reconnect.antt =====
-- A lost connection: `markDisconnected` and then `tryReconnect`.
use miniarena.Prelude.{
  ℕ, ◌-◌, ◌≤◌, ◌<◌, ◌≡◌, ◌≢◌, refl, subst, true, false, none, some, arith, ltb, le→ltb, lt→ltb,
}
use miniarena.Prelude.Dict.{
  find, insert, erase, modify, nat_eq, find-insert, find-modify, find-insert_self, find-erase_self,
}
use miniarena.Game.Sessions.{
  Session, disconnected, in_lobby, Storage, SessionManager, failure, seconds_since, is_disconnected,
  reconnected, drop_session, logout, change_and_save, mark_disconnected, try_reconnect,
  save_to_redis, get_by_conn, get_by_session,
}
use miniarena.Game.Sessions.Valid.{IsValid}
use miniarena.Game.Sessions.Lookup.{found_by_conn}

-- The session as it is while its connection is lost.
abbrev pub lost : ℕ → Session → Session
lost now s = record s { state = disconnected; last_active = now }

module _ {db : Storage} where
  lost_lem :
      (m : SessionManager db) (c now : ℕ) (s : Session)
      → IsValid m
      → get_by_conn db c m ≡ some s
      → let d = mark_disconnected db c now m in
        (find s.session_id d.sessions ≡ some (lost now s)) × (d.conn_map ≡ m.conn_map)
  unfolding mark_disconnected change_and_save
  lost_lem m c now s v e =
      let f = found_by_conn m c s v e in
      rw (e, mark_disconnected)
        (rw (f.1, change_and_save)
          (ground (arith, f.1, find-modify s.session_id s.session_id (lost now) m.sessions), refl))

  -- The manager after a session `t` has come back.
  abbrev restored : ℕ → ℕ → ℕ → Session → SessionManager db → SessionManager db
  restored sid new later t d = record d {
    sessions = modify sid (reconnected new later) d.sessions;
    conn_map = insert new sid (erase t.conn_id d.conn_map);
    store = save_to_redis db (reconnected new later t) d.store;
  }

  try_in_time :
      (sid new later : ℕ) (t : Session) (d : SessionManager db)
      → find sid d.sessions ≡ some t
      → is_disconnected t.state ≡ true
      → ltb 30 (seconds_since later t.last_active) ≡ false
      → try_reconnect db sid new later d ≡ (
        record { error_code = 0; session_id = sid; player_id = t.player_id },
        restored sid new later t d,
      )
  unfolding try_reconnect
  try_in_time sid new later t d e a b = rw (e, try_reconnect) (rw (a, b) refl)

  try_too_late :
      (sid new later : ℕ) (t : Session) (d : SessionManager db)
      → find sid d.sessions ≡ some t
      → is_disconnected t.state ≡ true
      → ltb 30 (seconds_since later t.last_active) ≡ true
      → try_reconnect db sid new later d ≡ (failure 20002, drop_session db sid t d)
  unfolding try_reconnect logout
  try_too_late sid new later t d e a b = rw (e, try_reconnect) (rw (a, b) (rw (e, logout) refl))

  restored-get_by_conn :
      (sid new later : ℕ) (t : Session) (d : SessionManager db)
      → find sid d.sessions ≡ some t
      → (get_by_conn db new (restored sid new later t d) ≡ some (reconnected new later t))
        × (t.conn_id ≢ new → get_by_conn db t.conn_id (restored sid new later t d) ≡ none)
  unfolding get_by_conn
  restored-get_by_conn sid new later t d e =
      let n = erase t.conn_id d.conn_map in
      (
        rw (find-insert_self new sid n, get_by_conn)
            (ground (arith, e, find-modify sid sid (reconnected new later) d.sessions)),
        λ a.
            let g : find t.conn_id (insert new sid n) ≡ none =
              ground
                (arith, a, find-insert new t.conn_id sid n, find-erase_self t.conn_id d.conn_map) in
            rw (g, get_by_conn) refl,
      )

  dropped-get_by_conn :
      (sid : ℕ) (t : Session) (d : SessionManager db)
      → (get_by_session db sid (drop_session db sid t d) ≡ none)
        × (get_by_conn db t.conn_id (drop_session db sid t d) ≡ none)
  unfolding drop_session get_by_session get_by_conn
  dropped-get_by_conn sid t d =
      (find-erase_self sid d.sessions, rw (find-erase_self t.conn_id d.conn_map, get_by_conn) refl)

  -- In a valid session manager, when the connection of a session is lost and a client asks for the
  -- session within 30 seconds, it gets the same session, on the new connection and in the lobby, whatever the session was doing; the
  -- lookup by the new connection finds it, and the lookup by the old one finds nothing, if it is
  -- another.
  pub reconnect_in_time :
      (m : SessionManager db) (old new now later : ℕ) (s : Session)
      → IsValid m
      → get_by_conn db old m ≡ some s
      → seconds_since later now ≤ 30
      → let (r, n) = try_reconnect db s.session_id new later (mark_disconnected db old now m) in
        (r.error_code ≡ 0)
        × (r.session_id ≡ s.session_id)
        × (r.player_id ≡ s.player_id)
        × (get_by_conn db new n
            ≡ some (record s { conn_id = new; state = in_lobby; last_active = later }))
        × (old ≢ new → get_by_conn db old n ≡ none)
  reconnect_in_time m old new now later s v e h =
      let f = found_by_conn m old s v e in
      let l = lost_lem m old now s v e in
      let d = mark_disconnected db old now m in
      let g = restored-get_by_conn s.session_id new later (lost now s) d l.0 in
      rw (try_in_time s.session_id new later (lost now s) d l.0 refl (le→ltb _ _ h)) (
        refl,
        refl,
        refl,
        g.0,
        subst
            (λ c.
              c ≢ new → get_by_conn db c (restored s.session_id new later (lost now s) d) ≡ none)
            f.2 g.1,
      )

  -- In a valid session manager, when the connection of a session is lost and a client asks for the
  -- session 31 seconds later or more (whole seconds are compared, and 30 are allowed), it gets error
  -- 20002, and the session is gone from the lookups
  -- by its id and by the old connection.
  pub reconnect_too_late :
      (m : SessionManager db) (old new now later : ℕ) (s : Session)
      → IsValid m
      → get_by_conn db old m ≡ some s
      → 31000 ≤ later - now
      → let (r, n) = try_reconnect db s.session_id new later (mark_disconnected db old now m) in
        (r.error_code ≡ 20002)
        × (get_by_session db s.session_id n ≡ none)
        × (get_by_conn db old n ≡ none)
  reconnect_too_late m old new now later s v e h =
      let f = found_by_conn m old s v e in
      let l = lost_lem m old now s v e in
      let d = mark_disconnected db old now m in
      let g = dropped-get_by_conn s.session_id (lost now s) d in
      let late : 30 < seconds_since later now = omega (arith, h) in
      rw (try_too_late s.session_id new later (lost now s) d l.0 refl (lt→ltb _ _ late)) (
        refl,
        g.0,
        subst (λ c. get_by_conn db c (drop_session db s.session_id (lost now s) d) ≡ none) f.2 g.1,
      )
