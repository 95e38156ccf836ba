-- ===== src/Game/Sessions/Opening.antt =====
-- The opening of a session and its move to another connection, in src/game/session_manager.cpp.
use miniarena.Prelude.{ℕ, ◌≡◌, refl, Option, none, some, arith}
use miniarena.Prelude.Dict.{
  find, insert, erase, modify, nat_eq, find-insert, find-erase, find-modify,
}
use miniarena.Prelude.Dict.Total.{insert-Distinct, modify-Distinct}
use miniarena.Game.Sessions.{
  Session, Storage, PlayerRecord, SessionManager, new_session, open_session,
}
use miniarena.Game.Sessions.Valid.{Listed, IsValid}

module _ {db : Storage} where
  -- A session under a fresh id, for a player that has none.
  insert-IsValid :
      (sid : ℕ) (s : Session) (m : SessionManager db) (store : db.Store)
      → s.session_id ≡ sid
      → find sid m.sessions ≡ none
      → find s.player_id m.player_map ≡ none
      → IsValid m
      → IsValid (record m {
        sessions = insert sid s m.sessions;
        conn_map = insert s.conn_id sid m.conn_map;
        player_map = insert s.player_id sid m.player_map;
        store = store;
      })
  insert-IsValid sid s m store e fresh free v = record {
    distinct = insert-Distinct sid s m.sessions v.distinct;
    named = λ j. ground (arith, e, find-insert sid j s m.sessions, v.named j);
    owner = λ q j h. ground (
      arith,
      h,
      fresh,
      find-insert sid j s m.sessions,
      find-insert s.player_id q sid m.player_map,
      v.owner q j,
    );
    listed = λ j. listed_lem j (find j m.sessions) refl;
    on_conn = λ c j h. ground (
      arith,
      h,
      fresh,
      find-insert sid j s m.sessions,
      find-insert s.conn_id c sid m.conn_map,
      v.on_conn c j,
    );
  }
    where
      listed_lem :
          (j : ℕ) (o : Option Session)
          → find j m.sessions ≡ o
          → Listed j (insert s.player_id sid m.player_map) (find j (insert sid s m.sessions))
      listed_lem j none f = ground (
        arith,
        f,
        find-insert sid j s m.sessions,
        find-insert s.player_id s.player_id sid m.player_map,
      )
      listed_lem j (some t) f = ground (
        arith,
        f,
        fresh,
        free,
        v.listed j,
        find-insert sid j s m.sessions,
        find-insert s.player_id t.player_id sid m.player_map,
      )

  pub open_session-IsValid :
      (conn sid now : ℕ) (p : PlayerRecord) (m : SessionManager db)
      → find sid m.sessions ≡ none
      → find p.id m.player_map ≡ none
      → IsValid m
      → IsValid (open_session db conn sid now p m).1
  unfolding open_session
  open_session-IsValid conn sid now p m fresh free v =
      insert-IsValid sid (new_session conn sid now p) m _ refl fresh free v

  -- A session is moved to another connection.
  pub rebind-IsValid :
      (sid new_conn : ℕ) (s : Session) (f : Session → Session) (m : SessionManager db)
      (store : db.Store)
      → find sid m.sessions ≡ some s
      → (f s).session_id ≡ s.session_id
      → (f s).player_id ≡ s.player_id
      → (f s).conn_id ≡ new_conn
      → IsValid m
      → IsValid (record m {
        sessions = modify sid f m.sessions;
        conn_map = insert new_conn sid (erase s.conn_id m.conn_map);
        store = store;
      })
  rebind-IsValid sid new_conn s f m store e fs fp fc v = record {
    distinct = modify-Distinct sid f m.sessions v.distinct;
    named = λ j. ground (arith, e, fs, find-modify sid j f m.sessions, v.named j);
    owner = λ q j h. ground (arith, h, e, fp, find-modify sid j f m.sessions, v.owner q j);
    listed = λ j. listed_lem j (find j m.sessions) refl;
    on_conn = λ c j h. ground (
      arith,
      h,
      e,
      fc,
      find-modify sid j f m.sessions,
      find-insert new_conn c sid (erase s.conn_id m.conn_map),
      find-erase s.conn_id c m.conn_map,
      v.on_conn c j,
    );
  }
    where
      listed_lem :
          (j : ℕ) (o : Option Session)
          → find j m.sessions ≡ o
          → Listed j m.player_map (find j (modify sid f m.sessions))
      listed_lem j none g = ground (arith, e, g, find-modify sid j f m.sessions)
      listed_lem j (some t) g =
          ground (arith, e, g, fp, v.listed j, v.listed sid, find-modify sid j f m.sessions)
