-- ===== src/Game/Server/Events.antt =====
-- The events of src/game/game_server.cpp: a frame, a lost connection (`initNetwork`), a round of
-- `timerLoop`, and a round of a logic thread. An event is one step: the threads share the maps, and
-- what their locks do not cover is taken to be one step all the same. The callback for a vector of
-- frames is a sequence of `receive`, as setting the same loop again changes nothing.
use miniarena.Prelude.{ℕ, suc, ◌&&◌, none, some, List, [], ◌∷◌, ltb, if◌then◌else◌, get_elem?}
use miniarena.Prelude.Int.{pos}
use miniarena.Prelude.Dict.{insert, erase, nat_eq}
use miniarena.Network.FrameCodec.{Frame}
use miniarena.Game.Combat.{FloatOps}
use miniarena.Game.Room.{empty_rooms}
use miniarena.Game.Sessions.{
  Session, Storage, empty_sessions, get_by_conn, get_by_session, mark_disconnected, cleanup_expired,
}
use miniarena.Game.Matching.{try_match, queue_size}
use miniarena.Game.Router.{dispatch}
use miniarena.Game.Worker.{LogicWorker, run_once}
use miniarena.Game.Battles.{new_manager, on_player_disconnect, change_at}
use miniarena.Game.Server.{
  Protocol, battle, Outcome, running, stopped, null_pointer, and_then, Server, with_sessions,
  send_all, flush_matches,
}
use miniarena.Game.Server.Handlers.{register_handlers, is_in_battle}

-- The session ids that logins draw and the times are part of an event.
pub data Event : Type 0 where
  frame_in : ℕ → ℕ → ℕ → ℕ → Frame → Event
  hung_up : ℕ → ℕ → Event
  timer_round : ℕ → Event
  worker_round : ℕ → ℕ → ℕ → Event

unfoldable pub new_server : (db : Storage) (F : Type 0) → db.Store → Server db F
new_server db F store = record {
  lobby = record { sessions = empty_sessions db store; rooms = empty_rooms; notified = [] };
  battles = new_manager F 2;
  conn_to_loop = [];
  outbox = [];
}

-- A worker whose broadcaster's calls have been made.
abbrev pub silent : {F : Type 0} → LogicWorker F → LogicWorker F
silent w = record w { shared = record w.shared { bc = record w.shared.bc { sent = [] } } }

module _ {db : Storage} (fl : FloatOps) (pr : Protocol fl.F) where
  open fl use {F}

  -- The frame callback of a loop.
  unfoldable pub receive : ℕ → ℕ → ℕ → ℕ → Frame → Server db F → Outcome (Server db F)
  receive loop conn_id now sid frame s =
      dispatch (register_handlers fl pr now sid) conn_id frame
        (running (record s { conn_to_loop = insert conn_id loop s.conn_to_loop }))

  -- The end of the disconnect callback, with the session as `markDisconnected` left it.
  unfoldable pub leave_battle : Session → Server db F → Server db F
  leave_battle p s =
      if is_in_battle p.state && ltb 0 p.current_room
      then record s { battles = on_player_disconnect p.player_id p.current_room s.battles }
      else s

  unfoldable pub on_disconnect : ℕ → ℕ → Server db F → Outcome (Server db F)
  on_disconnect conn_id now s =
      let s1 = record s { conn_to_loop = erase conn_id s.conn_to_loop } in
      elim (get_by_conn db conn_id s1.lobby.sessions) [
        | none ↦ running s1
        | some p ↦
            let m = mark_disconnected db conn_id now s1.lobby.sessions in
            elim (get_by_session db p.session_id m) [
              | none ↦ stopped null_pointer
              | some q ↦ running (leave_battle q (with_sessions m s1))
            ]
      ]

  -- The body of the loop of `timerLoop`; the fuel is above the size of the queue.
  unfoldable pub on_timer : ℕ → ℕ → Server db F → Outcome (Server db F)
  on_timer room_size now s =
      and_then (try_match db (suc (queue_size db (pos 0) s.lobby)) room_size (pos 0) 0 s.lobby) λ r.
        and_then (flush_matches pr (record s { lobby = r.1 }))
          λ s1. running (with_sessions (cleanup_expired db now s1.lobby.sessions) s1)

  -- A round of the thread of the worker `i`, and what its broadcaster sends.
  unfoldable pub on_round : ℕ → ℕ → ℕ → Server db F → Outcome (Server db F)
  on_round i now elapsed s = elim (get_elem? s.battles.workers i) [
    | none ↦ running s
    | some w ↦
        let v = run_once fl now elapsed w in
        send_all pr battle v.shared.bc.sent (record s {
          battles = record s.battles { workers = change_at i (λ x. silent v) s.battles.workers };
        })
  ]

  -- One event, with `match_room_size` of the configuration.
  unfoldable pub step : ℕ → Event → Server db F → Outcome (Server db F)
  step room_size (frame_in loop conn_id now sid frame) s = receive loop conn_id now sid frame s
  step room_size (hung_up conn_id now) s = on_disconnect conn_id now s
  step room_size (timer_round now) s = on_timer room_size now s
  step room_size (worker_round i now elapsed) s = on_round i now elapsed s

  unfoldable pub run_events : ℕ → List Event → Server db F → Outcome (Server db F)
  run_events room_size [] s = running s
  run_events room_size (e ∷ es) s = and_then (step room_size e s) (run_events room_size es)
