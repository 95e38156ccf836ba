-- ===== src/Game/Server/Callbacks.antt =====
-- What a lost connection, a round of the timer and a round of a logic thread keep, in
-- src/game/game_server.cpp.
use miniarena.Prelude.{
  ℕ, suc, ◌<◌, ◌≡◌, ◌&&◌, some, ltb, arith, Bool-cases, Option-cases, inl, inr, get_elem?,
}
use miniarena.Prelude.Int.{pos}
use miniarena.Prelude.Dict.{nat_eq, find-modify}
use miniarena.Game.Combat.{FloatOps}
use miniarena.Game.Sessions.{
  Session, Storage, SessionManager, get_by_conn, get_by_session, disconnected, change_and_save,
  mark_disconnected,
}
use miniarena.Game.Sessions.Valid.{IsValid}
use miniarena.Game.Sessions.Lookup.{found_by_conn}
use miniarena.Game.Sessions.Operations.{handle, handle-IsValid, lose, clean_up}
use miniarena.Game.Matching.{queue_size}
use miniarena.Game.Matching.Queue.{QueueLaws}
use miniarena.Game.Matching.Forming.{try_match_lem}
use miniarena.Game.Battles.Fair.{
  get_elem?-FairWorker, on_player_disconnect-AllFair, run_once-FairWorker, round-AllFair,
}
use miniarena.Game.Server.{Protocol, Server, and_then}
use miniarena.Game.Server.Replies.{IsSafe, Holds, then-Holds, send_all-IsSafe, flush_matches-IsSafe}
use miniarena.Game.Server.Lobbies.{sessions-IsSafe}
use miniarena.Game.Server.Handlers.{is_in_battle}
use miniarena.Game.Worker.{run_once}
use miniarena.Game.Server.{battle}
use miniarena.Game.Server.Events.{leave_battle, on_disconnect, on_timer, silent, on_round}

module _ {db : Storage} (fl : FloatOps) (pr : Protocol fl.F) where
  open fl use {F}

  leave_battle-IsSafe : (p : Session) (s : Server db F) → IsSafe s → IsSafe (leave_battle fl pr p s)
  unfolding leave_battle
  leave_battle-IsSafe p s v = elim (Bool-cases (is_in_battle p.state && ltb 0 p.current_room)) [
    | inl b ↦
        rw (b, leave_battle)
          (record {
            sessions = v.sessions;
            fair = on_player_disconnect-AllFair p.player_id p.current_room s.battles v.fair;
          })
    | inr b ↦ rw (b, leave_battle) v
  ]

  -- The session whose connection is lost is still there when it is marked.
  pub mark-finds :
      (conn now : ℕ) (p : Session) (m : SessionManager db)
      → IsValid m
      → get_by_conn db conn m ≡ some p
      → get_by_session db p.session_id (mark_disconnected db conn now m)
        ≡ some (record p { state = disconnected; last_active = now })
  unfolding mark_disconnected get_by_session change_and_save
  mark-finds conn now p m v e =
      let g = found_by_conn m conn p v e in
      rw (e, mark_disconnected)
        (rw (g.1, change_and_save)
          (ground (
            arith,
            g.1,
            find-modify p.session_id p.session_id
                (λ t. record t { state = disconnected; last_active = now }) m.sessions,
          )))

  pub on_disconnect-IsSafe :
      (conn now : ℕ) (s : Server db F) → IsSafe s → Holds pr IsSafe (on_disconnect fl pr conn now s)
  unfolding on_disconnect handle
  on_disconnect-IsSafe conn now s v = elim (Option-cases (get_by_conn db conn s.lobby.sessions)) [
    | inl e ↦ rw (e, on_disconnect) (record { sessions = v.sessions; fair = v.fair })
    | inr (p, e) ↦
        rw (e, on_disconnect)
          (rw (mark-finds conn now p s.lobby.sessions v.sessions e) (
            leave_battle-IsSafe _ _ (record {
              sessions = handle-IsValid (lose conn now) s.lobby.sessions tt v.sessions;
              fair = v.fair;
            })))
  ]

  pub on_round-IsSafe :
      (i now elapsed : ℕ) (s : Server db F)
      → IsSafe s
      → Holds pr IsSafe (on_round fl pr i now elapsed s)
  unfolding on_round
  on_round-IsSafe i now elapsed s v = elim (Option-cases (get_elem? s.battles.workers i)) [
    | inl e ↦ rw (e, on_round) v
    | inr (w, e) ↦
        let u = run_once fl now elapsed w in
        let g = run_once-FairWorker fl now elapsed w (get_elem?-FairWorker i _ w v.fair e) in
        rw (e, on_round)
          (send_all-IsSafe pr battle u.shared.bc.sent _ (record {
            sessions = v.sessions;
            fair = round-AllFair fl i (silent u) s.battles.workers g v.fair;
          }))
  ]

  -- The round ends, as the queue is short enough for the fuel.
  pub on_timer-IsSafe :
      (laws : QueueLaws db) (room_size now : ℕ) (s : Server db F)
      → 0 < room_size
      → IsSafe s
      → Holds pr IsSafe (on_timer fl pr room_size now s)
  unfolding on_timer handle and_then
  on_timer-IsSafe laws room_size now s pos_size v =
      let fuel = suc (queue_size db (pos 0) s.lobby) in
      let (n, d, e, m) =
        try_match_lem laws fuel room_size (pos 0) 0 s.lobby pos_size v.sessions (omega arith) in
      rw (e, on_timer, and_then)
        (then-Holds pr IsSafe IsSafe _ _
          (flush_matches-IsSafe pr _ (record { sessions = m.kept; fair = v.fair }))
          λ t w.
            sessions-IsSafe fl pr _ t (handle-IsValid (clean_up now) t.lobby.sessions tt w.sessions)
              w)
