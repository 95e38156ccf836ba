-- ===== src/Game/Server/Gone.antt =====
-- A player of a battle whose connection is lost, and who comes back, in src/game/game_server.cpp.
use miniarena.Prelude.{
  ℕ, ◌≡◌, refl, ap, sym, true, false, none, some, ltb, ◌==◌, arith, Bool-cases, Option-cases, inl,
  inr,
}
use miniarena.Prelude.Dict.{find, erase, nat_eq, find-modify}
use miniarena.Network.FrameCodec.{Frame, Encoded, bytes, rejected, encode}
use miniarena.Game.Combat.{FloatOps}
use miniarena.Game.Sessions.{
  LoginResult, Session, Storage, SessionManager, get_by_conn, get_by_session, reconnected,
  is_disconnected, seconds_since, try_reconnect, mark_disconnected,
}
use miniarena.Game.Server.{
  Reply, Protocol, running, and_then, Server, with_sessions, send_response, reconnect_response,
}
use miniarena.Game.Server.Replies.{IsSafe}
use miniarena.Game.Server.Handlers.{is_in_battle, catch_up, on_reconnect}
use miniarena.Game.Server.Callbacks.{mark-finds}
use miniarena.Game.Server.Events.{leave_battle, on_disconnect}

module _ {db : Storage} where
  mark_nothing :
      (conn now : ℕ) (m : SessionManager db)
      → get_by_conn db conn m ≡ none
      → mark_disconnected db conn now m ≡ m
  unfolding mark_disconnected
  mark_nothing conn now m e = rw (e, mark_disconnected) refl

  -- A login result that tells of success names no session that is in a battle.
  abbrev Quiet : LoginResult × SessionManager db → Type 0
  Quiet (r, m) =
      (r.error_code == 0) ≡ true
      → (p : Session) → get_by_session db r.session_id m ≡ some p
      → is_in_battle p.state ≡ false

  try_reconnect-Quiet :
      (sid conn now : ℕ) (m : SessionManager db) → Quiet (try_reconnect db sid conn now m)
  unfolding try_reconnect get_by_session
  try_reconnect-Quiet sid conn now m = elim (Option-cases (find sid m.sessions)) [
    | inl e ↦ rw (e, try_reconnect) (λ b. absurd (ground (arith, b)))
    | inr (s, e) ↦ elim (Bool-cases (is_disconnected s.state)) [
      | inr d ↦ rw (e, d, try_reconnect) (λ b. absurd (ground (arith, b)))
      | inl d ↦ elim (Bool-cases (ltb 30 (seconds_since now s.last_active))) [
        | inl l ↦ rw (e, d, l, try_reconnect) (λ b. absurd (ground (arith, b)))
        | inr l ↦
            rw (e, d, l, try_reconnect)
              (λ b p q. ground (arith, e, q, find-modify sid sid (reconnected conn now) m.sessions))
      ]
    ]
  ]

module _ {db : Storage} (fl : FloatOps) (pr : Protocol fl.F) where
  open fl use {F}

  -- Whatever state its session is in, a lost connection of a safe server changes no battle: the session is
  -- marked as disconnected before its state is compared with the state of being in a battle, so the
  -- battle manager is not told. The connection is forgotten, and its session, if there is one, is
  -- disconnected.
  pub on_disconnect_lem :
      (conn now : ℕ) (s : Server db F)
      → IsSafe s
      → on_disconnect fl pr conn now s
        ≡ running (record s {
          conn_to_loop = erase conn s.conn_to_loop;
          lobby = record s.lobby { sessions = mark_disconnected db conn now s.lobby.sessions };
        })
  unfolding on_disconnect leave_battle get_by_session
  on_disconnect_lem conn now s v = elim (Option-cases (get_by_conn db conn s.lobby.sessions)) [
    | inl e ↦
        rw (e, on_disconnect)
          (ap
            (λ m. running (record s {
              conn_to_loop = erase conn s.conn_to_loop;
              lobby = record s.lobby { sessions = m };
            }))
            (sym (mark_nothing conn now s.lobby.sessions e)))
    | inr (p, e) ↦
        rw (e, on_disconnect) (rw (mark-finds fl pr conn now p s.lobby.sessions v.sessions e) refl)
  ]

  catch_up-Quiet :
      (r : LoginResult) (t : Server db F)
      → Quiet (r, t.lobby.sessions)
      → catch_up fl pr r t ≡ running t
  unfolding catch_up
  catch_up-Quiet r t q = elim (Bool-cases (r.error_code == 0)) [
    | inr b ↦ rw (b, catch_up) refl
    | inl b ↦ elim (Option-cases (get_by_session db r.session_id t.lobby.sessions)) [
      | inl e ↦ rw (b, e, catch_up) refl
      | inr (p, e) ↦ rw (b, e, catch_up) (rw (q b p e) refl)
    ]
  ]

  -- Sending a response leaves the sessions alone.
  sent-Quiet :
      (r : LoginResult) (reply : Reply F) (conn msg_id : ℕ) (t : Server db F)
      → Quiet (r, t.lobby.sessions)
      → and_then (send_response pr conn msg_id reply t) (catch_up fl pr r)
        ≡ send_response pr conn msg_id reply t
  unfolding and_then send_response
  sent-Quiet r reply conn msg_id t q = go (encode msg_id 0 0 (pr.serialize reply)) refl
    where
      go :
          (x : Encoded)
          → encode msg_id 0 0 (pr.serialize reply) ≡ x
          → and_then (send_response pr conn msg_id reply t) (catch_up fl pr r)
            ≡ send_response pr conn msg_id reply t
      go (rejected c) e = rw (e, send_response) refl
      go (bytes bs) e = elim (Option-cases (find conn t.conn_to_loop)) [
        | inl n ↦ rw (e, n, send_response) (catch_up-Quiet r t q)
        | inr (loop, n) ↦ rw (e, n, send_response) (catch_up-Quiet r _ q)
      ]

  -- A reconnect, whether it succeeds or not, sends its response and nothing else: the session that it
  -- restores is in the lobby before its state is compared with the state of being in a battle, so no
  -- snapshot is sent.
  pub on_reconnect_lem :
      (now conn sid : ℕ) (f : Frame) (s : Server db F)
      → pr.parse_reconnect f.payload ≡ some sid
      → let (r, m) = try_reconnect db sid conn now s.lobby.sessions in
        on_reconnect fl pr now conn f s
        ≡ send_response pr conn 5002 (reconnect_response r.error_code) (with_sessions m s)
  unfolding on_reconnect
  on_reconnect_lem now conn sid f s e =
      let r = try_reconnect db sid conn now s.lobby.sessions in
      rw (e, on_reconnect)
        (sent-Quiet r.0 (reconnect_response r.0.error_code) conn 5002 (with_sessions r.1 s)
          (try_reconnect-Quiet sid conn now s.lobby.sessions))
