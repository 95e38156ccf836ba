-- ===== src/Game/Server.antt =====
-- src/game/game_server.h and game_server.cpp: the state of the server and what it sends. The generated
-- code of proto/messages.proto is a parameter, `Protocol`. A socket is the connection's id, and an
-- event loop is its index; `outbox` lists the calls of `EventLoop::sendToConnection`. A callback that
-- a component calls in the middle of an operation appends to a list of that component, which is sent
-- when the operation returns: nothing in between changes a session's connection.
pub mod Handlers
pub mod Events
pub mod Replies
pub mod Lobbies
pub mod Fights
pub mod Callbacks
pub mod Safe
pub mod Gone
use miniarena.Prelude.{ℕ, String, Option, none, some, List, [], ◌∷◌, ◌++◌}
use miniarena.Prelude.Int.{ℤ}
use miniarena.Prelude.Dict.{Dict, find, nat_eq}
use miniarena.Network.FrameCodec.{CodecError, Encoded, bytes, rejected, encode}
use miniarena.Game.Combat.{FloatOps}
pub use miniarena.Game.Outcome.{
  Fault, null_pointer, unfinished, storage_failed, thrown, Outcome, running, stopped,
}
unfoldable pub use miniarena.Game.Outcome.{and_then}
use miniarena.Game.Broadcaster.{Sending}
use miniarena.Game.Sessions.{Storage, Notice, SessionManager, get_by_player}
use miniarena.Game.Matching.{Lobby, MatchSuccess}
use miniarena.Game.Worker.{Message}
use miniarena.Game.Battles.{Report, BattleManager}

-- The messages that the server serializes. An `error_msg` follows from the message and its code.
pub data Reply (F : Type 0) : Type 0 where
  login_response : ℕ → ℕ → Reply F
  heartbeat_response : ℕ → Reply F
  match_start_response : ℕ → Reply F
  match_success : ℕ → Reply F
  enter_room_response : ℕ → ℕ → Reply F
  battle_start : ℕ → Reply F
  reconnect_response : ℕ → Reply F
  report : Report F → Reply F
  battle : Message F → Reply F

pub record SkillRequest (F : Type 0) : Type 0 where
  pub skill_id : ℤ
  pub target_id : ℕ
  pub target_x : F
  pub target_y : F

-- `ParseFromString`, as the server uses it: `none` is a false result; where the result is ignored, the
-- field's value after the call. `serialize` is `SerializeToString`.
pub record Protocol (F : Type 0) : Type 0 where
  pub parse_login : List ℕ → Option (String × String)
  pub mode_of : List ℕ → ℤ
  pub room_of : List ℕ → ℕ
  pub parse_move : List ℕ → Option (F × F)
  pub parse_attack : List ℕ → Option ℕ
  pub parse_skill : List ℕ → Option (SkillRequest F)
  pub parse_reconnect : List ℕ → Option ℕ
  pub serialize : Reply F → List ℕ

-- One call of `sendToConnection` on a loop.
pub record Packet : Type 0 where
  pub loop : ℕ
  pub conn_id : ℕ
  pub data_bytes : List ℕ

pub record Server (db : Storage) (F : Type 0) : Type 0 where
  pub lobby : Lobby db
  pub battles : BattleManager F
  pub conn_to_loop : Dict ℕ ℕ
  pub outbox : List Packet

module _ {db : Storage} {F : Type 0} where
  abbrev pub with_sessions : SessionManager db → Server db F → Server db F
  with_sessions m s = record s { lobby = record s.lobby { sessions = m } }

module _ {db : Storage} {F : Type 0} (pr : Protocol F) where
  unfoldable pub send_response : ℕ → ℕ → Reply F → Server db F → Outcome (Server db F)
  send_response conn_id msg_id reply s = elim (encode msg_id 0 0 (pr.serialize reply)) [
    | rejected e ↦ stopped (thrown e)
    | bytes bs ↦ elim (find conn_id s.conn_to_loop) [
      | none ↦ running s
      | some loop ↦ running (record s {
        outbox = s.outbox ++ (record { loop = loop; conn_id = conn_id; data_bytes = bs } ∷ []);
      })
    ]
  ]

  -- The callbacks of the match manager and of the battle manager.
  unfoldable pub send_to_player : ℕ → ℕ → Reply F → Server db F → Outcome (Server db F)
  send_to_player player_id msg_id reply s = elim (get_by_player db player_id s.lobby.sessions) [
    | none ↦ running s
    | some p ↦ send_response p.conn_id msg_id reply s
  ]

  -- The calls that the session manager, the match manager and the battle manager made of them.
  unfoldable pub send_notices : List Notice → Server db F → Outcome (Server db F)
  send_notices [] s = running s
  send_notices (n ∷ ns) s =
      and_then (send_response n.conn_id n.msg_id (login_response n.error_code 0) s)
        (send_notices ns)

  unfoldable pub send_matches : List MatchSuccess → Server db F → Outcome (Server db F)
  send_matches [] s = running s
  send_matches (n ∷ ns) s =
      and_then (send_to_player n.player_id 2004 (match_success n.room_id) s) (send_matches ns)

  unfoldable pub send_all :
      {M : Type 0} → (M → Reply F) → List (Sending M) → Server db F → Outcome (Server db F)
  send_all f [] s = running s
  send_all f (n ∷ ns) s =
      and_then (send_to_player n.player_id n.msg_id (f n.payload) s) (send_all f ns)

  unfoldable pub flush_notices : Server db F → Outcome (Server db F)
  flush_notices s =
      send_notices s.lobby.sessions.sent (with_sessions (record s.lobby.sessions { sent = [] }) s)

  unfoldable pub flush_matches : Server db F → Outcome (Server db F)
  flush_matches s =
      send_matches s.lobby.notified (record s { lobby = record s.lobby { notified = [] } })

  unfoldable pub flush_reports : Server db F → Outcome (Server db F)
  flush_reports s =
      send_all report s.battles.sent (record s { battles = record s.battles { sent = [] } })
