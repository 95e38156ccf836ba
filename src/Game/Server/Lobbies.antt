-- ===== src/Game/Server/Lobbies.antt =====
-- What the handlers of src/game/game_server.cpp keep before a battle: login, heartbeat, match and room.
use miniarena.Prelude.{
  ℕ, ◌≡◌, refl, subst, Bool, true, false, none, ◌==◌, if◌then◌else◌, Bool-cases, Option-cases, inl,
  inr,
}
use miniarena.Prelude.Dict.{find, nat_eq}
use miniarena.Network.FrameCodec.{Frame}
use miniarena.Game.Combat.{FloatOps}
use miniarena.Game.Room.{get_room, add_player}
use miniarena.Game.Sessions.{
  Answer, answered, fails, LoginResult, Session, in_lobby, Storage, SessionManager, login,
  get_by_conn, get_by_session, set_state,
}
use miniarena.Game.Sessions.Valid.{IsValid}
use miniarena.Game.Sessions.Lookup.{found_by_conn, get_by_player_iff}
use miniarena.Game.Sessions.Operations.{handle, handle-IsValid, beat, Admitted, login-IsValid}
use miniarena.Game.Sessions.Failing.{FailsByRead, login-FailsByRead}
use miniarena.Game.Matching.Joining.{join_queue_lem}
use miniarena.Game.Matching.Valid.{
  Returned, set_state-IsValid, set_current_room-IsValid, join_queue-IsValid, leave_queue-IsValid,
}
use miniarena.Game.Server.{
  Protocol, Outcome, running, stopped, storage_failed, and_then, flush_notices, send_response,
  Server, with_sessions, login_response, heartbeat_response, match_start_response,
  enter_room_response,
}
use miniarena.Game.Server.Replies.{
  IsSafe, Holds, then-Holds, send_response-IsSafe, flush_notices-IsSafe,
}
use miniarena.Game.Server.Handlers.{
  on_login, on_heartbeat, on_match_start, on_match_cancel, enter_room, on_enter_room,
}

module _ {db : Storage} (fl : FloatOps) (pr : Protocol fl.F) where
  open fl use {F}

  -- New sessions in a server that is safe.
  pub sessions-IsSafe :
      (m : SessionManager db) (s : Server db F) → IsValid m → IsSafe s → IsSafe (with_sessions m s)
  sessions-IsSafe m s v h = record { sessions = v; fair = h.fair }

  pub on_login-IsSafe :
      (now sid conn : ℕ) (f : Frame) (s : Server db F)
      → find sid s.lobby.sessions.sessions ≡ none
      → IsSafe s
      → Holds pr IsSafe (on_login fl pr now sid conn f s)
  unfolding on_login handle
  on_login-IsSafe now sid conn f s fresh v = elim (Option-cases (pr.parse_login f.payload)) [
    | inl e ↦ rw (e, on_login) v
    | inr ((name, password), e) ↦
        rw (e, on_login)
          (ended (login db conn name password sid now s.lobby.sessions)
            (login-IsValid conn name password sid now s.lobby.sessions fresh v.sessions)
            (login-FailsByRead db conn name password sid now s.lobby.sessions))
  ]
    where
      entered :
          (b : Bool) (id : ℕ) (t : Server db F)
          → IsSafe t
          → IsSafe (if b then with_sessions (set_state db id in_lobby t.lobby.sessions).1 t else t)
      entered true id t h =
          sessions-IsSafe _ t (set_state-IsValid id in_lobby t.lobby.sessions h.sessions) h
      entered false id t h = h

      ended :
          (a : Answer (LoginResult × SessionManager db))
          → Admitted a
          → FailsByRead db a
          → Holds pr IsSafe (elim a as (λ x. Outcome (Server db F)) [
            | fails ↦ stopped storage_failed
            | answered r ↦ and_then (flush_notices pr (with_sessions r.1 s)) λ s1.
                and_then
                  (send_response pr conn 1002 (login_response r.0.error_code r.0.session_id) s1)
                  λ s2. running (
                    if r.0.error_code == 0
                    then with_sessions (set_state db r.0.session_id in_lobby s2.lobby.sessions).1 s2
                    else s2)
          ])
      ended fails h g = g
      ended (answered r) h g =
          then-Holds pr IsSafe IsSafe _ _
            (flush_notices-IsSafe pr (with_sessions r.1 s) (sessions-IsSafe r.1 s h v))
            λ s1 v1.
              then-Holds pr IsSafe IsSafe _ _
                (send_response-IsSafe pr conn 1002 (login_response r.0.error_code r.0.session_id) s1
                  v1)
                λ s2 v2. entered (r.0.error_code == 0) r.0.session_id s2 v2

  pub on_heartbeat-IsSafe :
      (now conn : ℕ) (f : Frame) (s : Server db F)
      → IsSafe s
      → Holds pr IsSafe (on_heartbeat fl pr now conn f s)
  unfolding on_heartbeat handle
  on_heartbeat-IsSafe now conn f s v = elim (Option-cases (get_by_conn db conn s.lobby.sessions)) [
    | inl e ↦ rw (e, on_heartbeat) v
    | inr (p, e) ↦
        rw (e, on_heartbeat)
          (send_response-IsSafe pr conn 1102 (heartbeat_response now) _ (
            sessions-IsSafe _ s
              (handle-IsValid (beat p.session_id now) s.lobby.sessions tt v.sessions) v))
  ]

  pub on_match_start-IsSafe :
      (conn : ℕ) (f : Frame) (s : Server db F)
      → IsSafe s
      → Holds pr IsSafe (on_match_start fl pr conn f s)
  unfolding on_match_start get_by_session
  on_match_start-IsSafe conn f s v = elim (Option-cases (get_by_conn db conn s.lobby.sessions)) [
    | inl e ↦
        rw (e, on_match_start) (send_response-IsSafe pr conn 2002 (match_start_response 20002) s v)
    | inr (p, e) ↦
        let g = found_by_conn s.lobby.sessions conn p v.sessions e in
        let k = (get_by_player_iff s.lobby.sessions p.player_id p v.sessions).1 (g.1, refl) in
        let mode = pr.mode_of f.payload in
        let (l, j, seen) = join_queue_lem s.lobby p.player_id mode p v.sessions k in
        let lv : IsValid l.sessions =
          subst Returned j (join_queue-IsValid p.player_id mode s.lobby v.sessions) in
        rw (e, on_match_start)
          (rw j (
            send_response-IsSafe pr conn 2002 (match_start_response 0) _
              (record { sessions = lv; fair = v.fair })))
  ]

  pub on_match_cancel-IsSafe :
      (conn : ℕ) (f : Frame) (s : Server db F)
      → IsSafe s
      → Holds pr IsSafe (on_match_cancel fl pr conn f s)
  unfolding on_match_cancel
  on_match_cancel-IsSafe conn f s v = elim (Option-cases (get_by_conn db conn s.lobby.sessions)) [
    | inl e ↦ rw (e, on_match_cancel) v
    | inr (p, e) ↦
        rw (e, on_match_cancel)
          (record { sessions = leave_queue-IsValid p.player_id s.lobby v.sessions; fair = v.fair })
  ]

  enter_room-IsSafe :
      (p : Session) (room_id : ℕ) (s : Server db F)
      → IsSafe s
      → IsSafe (enter_room fl pr p room_id s).1
  unfolding enter_room
  enter_room-IsSafe p room_id s v = elim (Option-cases (get_room room_id s.lobby.rooms)) [
    | inl e ↦ rw (e, enter_room) v
    | inr (room, e) ↦ elim (Bool-cases ((add_player p.player_id p.username room).0 == 0)) [
      | inl b ↦
          rw (e, b, enter_room)
            (record {
              sessions = set_current_room-IsValid p.session_id room_id _ v.sessions;
              fair = v.fair;
            })
      | inr b ↦ rw (e, b, enter_room) (record { sessions = v.sessions; fair = v.fair })
    ]
  ]

  pub on_enter_room-IsSafe :
      (conn : ℕ) (f : Frame) (s : Server db F)
      → IsSafe s
      → Holds pr IsSafe (on_enter_room fl pr conn f s)
  unfolding on_enter_room
  on_enter_room-IsSafe conn f s v = elim (Option-cases (get_by_conn db conn s.lobby.sessions)) [
    | inl e ↦
        rw (e, on_enter_room) (send_response-IsSafe pr conn 3002 (enter_room_response 20002 0) s v)
    | inr (p, e) ↦
        let r = enter_room fl pr p (pr.room_of f.payload) s in
        rw (e, on_enter_room)
          (send_response-IsSafe pr conn 3002 r.0 r.1
            (enter_room-IsSafe p (pr.room_of f.payload) s v))
  ]
