-- ===== src/Game/Server/Handlers.antt =====
-- `registerHandlers` of src/game/game_server.cpp. `now` is the clock, `sid` the random number that
-- `generateSessionId` returns if the frame is a login. A session that is looked up is a pointer:
-- what is read of it after a change is read of the map.
use miniarena.Prelude.{
  ℕ, Bool, true, false, not, ◌&&◌, Option, none, some, [], ◌∷◌, ltb, ◌==◌, if◌then◌else◌,
}
use miniarena.Prelude.Int.{pos}
use miniarena.Prelude.Dict.{Dict}
use miniarena.Network.FrameCodec.{Frame}
use miniarena.Game.Combat.{FloatOps, Command, CommandType, move, attack, skill}
use miniarena.Game.Room.{
  Room, RoomPlayerInfo, get_room, update_room, add_player, player_ready, all_ready, start_battle,
}
use miniarena.Game.Sessions.{
  answered, fails, LoginResult, Session, SessionState, in_battle, in_lobby, Storage, login,
  heartbeat, get_by_conn, get_by_session, set_state, set_current_room, try_reconnect, get_by_player,
}
use miniarena.Game.Matching.{join_queue, leave_queue}
use miniarena.Game.Battles.{dispatch_command, send_snapshot, start_battle as open_battle}
use miniarena.Game.Router.{MessageRouter, MessageHandler, register_handler}
use miniarena.Game.Server.{
  Protocol, Reply, login_response, heartbeat_response, match_start_response, enter_room_response,
  battle_start, reconnect_response, Outcome, running, stopped, null_pointer, storage_failed,
  and_then, Server, with_sessions, send_response, flush_notices, flush_reports,
}

abbrev pub is_in_battle : SessionState → Bool
is_in_battle in_battle = true
is_in_battle _ = false

-- A command, of which the fields that are not set have their initial values.
unfoldable pub blank_command : (fl : FloatOps) → CommandType → ℕ → ℕ → Command fl.F
blank_command fl type player_id sequence = record {
  type = type;
  player_id = player_id;
  sequence = sequence;
  timestamp_ms = 0;
  move_dir_x = fl.lit 0 1;
  move_dir_y = fl.lit 0 1;
  target_id = 0;
  skill_id = pos 0;
  skill_target_x = fl.lit 0 1;
  skill_target_y = fl.lit 0 1;
}

-- The commands of 4001, 4002 and 4003, if the message can be parsed.
module _ (fl : FloatOps) (pr : Protocol fl.F) where
  open fl use {F}

  unfoldable pub move_command : Session → Frame → Option (Command F)
  move_command p frame = elim (pr.parse_move frame.payload) [
    | none ↦ none
    | some (x, y) ↦ some (record (blank_command fl move p.player_id frame.sequence) {
      move_dir_x = x;
      move_dir_y = y;
    })
  ]

  unfoldable pub attack_command : Session → Frame → Option (Command F)
  attack_command p frame = elim (pr.parse_attack frame.payload) [
    | none ↦ none
    | some t ↦ some (record (blank_command fl attack p.player_id frame.sequence) { target_id = t })
  ]

  unfoldable pub skill_command : Session → Frame → Option (Command F)
  skill_command p frame = elim (pr.parse_skill frame.payload) [
    | none ↦ none
    | some r ↦ some (record (blank_command fl skill p.player_id frame.sequence) {
      skill_id = r.skill_id;
      target_id = r.target_id;
      skill_target_x = r.target_x;
      skill_target_y = r.target_y;
    })
  ]

module _ {db : Storage} (fl : FloatOps) (pr : Protocol fl.F) where
  open fl use {F}

  unfoldable pub on_login : ℕ → ℕ → ℕ → Frame → Server db F → Outcome (Server db F)
  on_login now sid conn_id frame s = elim (pr.parse_login frame.payload) [
    | none ↦ running s
    | some (username, password) ↦
        elim (login db conn_id username password sid now s.lobby.sessions) [
          | fails ↦ stopped storage_failed
          | answered r ↦
              let result = r.0 in
              and_then (flush_notices pr (with_sessions r.1 s)) λ s1.
                and_then
                  (send_response pr conn_id 1002
                    (login_response result.error_code result.session_id) s1)
                  λ s2. running (
                    if result.error_code == 0
                    then with_sessions (set_state db result.session_id in_lobby s2.lobby.sessions).1
                        s2
                    else s2)
        ]
  ]

  unfoldable pub on_heartbeat : ℕ → ℕ → Frame → Server db F → Outcome (Server db F)
  on_heartbeat now conn_id frame s = elim (get_by_conn db conn_id s.lobby.sessions) [
    | none ↦ running s
    | some p ↦
        send_response pr conn_id 1102 (heartbeat_response now)
          (with_sessions (heartbeat db p.session_id now s.lobby.sessions) s)
  ]

  unfoldable pub on_match_start : ℕ → Frame → Server db F → Outcome (Server db F)
  on_match_start conn_id frame s = elim (get_by_conn db conn_id s.lobby.sessions) [
    | none ↦ send_response pr conn_id 2002 (match_start_response 20002) s
    | some p ↦ elim (join_queue db p.player_id (pr.mode_of frame.payload) s.lobby) [
      | none ↦ stopped null_pointer
      | some (err, l) ↦
          send_response pr conn_id 2002 (match_start_response err) (record s { lobby = l })
    ]
  ]

  unfoldable pub on_match_cancel : ℕ → Frame → Server db F → Outcome (Server db F)
  on_match_cancel conn_id frame s = elim (get_by_conn db conn_id s.lobby.sessions) [
    | none ↦ running s
    | some p ↦ running (record s { lobby = (leave_queue db p.player_id s.lobby).1 })
  ]

  -- The part of the handler for a player who is logged in, with the room id of the request.
  unfoldable pub enter_room : Session → ℕ → Server db F → Reply F × Server db F
  enter_room p room_id s = elim (get_room room_id s.lobby.rooms) [
    | none ↦ (enter_room_response 40001 0, s)
    | some room ↦
        let (err, r) = add_player p.player_id p.username room in
        let rooms = update_room room_id (λ x. r) s.lobby.rooms in
        if err == 0
        then (
          enter_room_response 0 room_id,
          record s {
            lobby = record s.lobby {
              rooms = rooms;
              sessions = (set_current_room db p.session_id room_id s.lobby.sessions).1;
            };
          },
        )
        else (enter_room_response err 0, record s { lobby = record s.lobby { rooms = rooms } })
  ]

  unfoldable pub on_enter_room : ℕ → Frame → Server db F → Outcome (Server db F)
  on_enter_room conn_id frame s = elim (get_by_conn db conn_id s.lobby.sessions) [
    | none ↦ send_response pr conn_id 3002 (enter_room_response 20002 0) s
    | some p ↦
        let (resp, s1) = enter_room p (pr.room_of frame.payload) s in
        send_response pr conn_id 3002 resp s1
  ]

  -- The loop that tells the players of a room that the battle starts.
  unfoldable pub tell_start : ℕ → Dict ℕ RoomPlayerInfo → Server db F → Outcome (Server db F)
  tell_start room_id [] s = running s
  tell_start room_id ((pid, info) ∷ rest) s =
      and_then
        (elim (get_by_player db pid s.lobby.sessions) [
          | none ↦ running s
          | some p ↦ send_response pr p.conn_id 3004 (battle_start room_id) s
        ])
        (tell_start room_id rest)

  -- `room->startBattle()` and what follows, for a room that is ready.
  unfoldable pub begin : ℕ → ℕ → Room → Server db F → Outcome (Server db F)
  begin now room_id room s =
      let r = start_battle room in
      let (b, m) = open_battle db fl now r s.battles s.lobby.sessions in
      tell_start r.room_id r.players (record s {
        lobby = record s.lobby { sessions = m; rooms = update_room room_id (λ x. r) s.lobby.rooms };
        battles = b;
      })

  -- `if (room->allReady())`, for the room under `room_id`.
  unfoldable pub begin_if_ready : ℕ → ℕ → Server db F → Outcome (Server db F)
  begin_if_ready now room_id s = elim (get_room room_id s.lobby.rooms) [
    | none ↦ stopped null_pointer
    | some room ↦ if all_ready room then begin now room_id room s else running s
  ]

  unfoldable pub on_player_ready : ℕ → ℕ → Frame → Server db F → Outcome (Server db F)
  on_player_ready now conn_id frame s = elim (get_by_conn db conn_id s.lobby.sessions) [
    | none ↦ running s
    | some p ↦
        if p.current_room == 0 then running s else elim (get_room p.current_room s.lobby.rooms) [
          | none ↦ running s
          | some room ↦ begin_if_ready now p.current_room (record s {
            lobby = record s.lobby {
              rooms = update_room p.current_room (player_ready p.player_id) s.lobby.rooms;
            };
          })
        ]
  ]

  -- `battle_mgr_->dispatchCommand(s->current_room, cmd)`, if the message can be parsed.
  unfoldable pub dispatch_parsed : Session → Option (Command F) → Server db F → Server db F
  dispatch_parsed p none s = s
  dispatch_parsed p (some cmd) s = record s {
    battles = dispatch_command p.current_room cmd s.battles;
  }

  -- The handlers of 4001, 4002 and 4003, by the command they make.
  unfoldable pub on_command :
      (Session → Frame → Option (Command F)) → ℕ → Frame → Server db F → Outcome (Server db F)
  on_command make conn_id frame s = elim (get_by_conn db conn_id s.lobby.sessions) [
    | none ↦ running s
    | some p ↦
        if not (is_in_battle p.state)
        then running s
        else running (dispatch_parsed p (make p frame) s)
  ]

  -- `if (result.error_code == 0) { … }`: who is back in a battle gets a snapshot.
  unfoldable pub catch_up : LoginResult → Server db F → Outcome (Server db F)
  catch_up result s =
      if not (result.error_code == 0)
      then running s
      else elim (get_by_session db result.session_id s.lobby.sessions) [
        | none ↦ running s
        | some p ↦
            if is_in_battle p.state && ltb 0 p.current_room
            then flush_reports pr
                (record s { battles = send_snapshot p.player_id p.current_room s.battles })
            else running s
      ]

  unfoldable pub on_reconnect : ℕ → ℕ → Frame → Server db F → Outcome (Server db F)
  on_reconnect now conn_id frame s = elim (pr.parse_reconnect frame.payload) [
    | none ↦ running s
    | some session_id ↦
        let (result, m) = try_reconnect db session_id conn_id now s.lobby.sessions in
        and_then
          (send_response pr conn_id 5002 (reconnect_response result.error_code) (with_sessions m s))
          (catch_up result)
  ]

  -- A handler runs only if the process does.
  abbrev pub lift :
      (ℕ → Frame → Server db F → Outcome (Server db F)) → MessageHandler (Outcome (Server db F))
  lift h conn_id frame o = and_then o (h conn_id frame)

  unfoldable pub register_handlers : ℕ → ℕ → MessageRouter (Outcome (Server db F))
  register_handlers now sid = register_handler 5001 (lift (on_reconnect now)) (
      register_handler 4003 (lift (on_command (skill_command fl pr))) (
        register_handler 4002 (lift (on_command (attack_command fl pr))) (
          register_handler 4001 (lift (on_command (move_command fl pr))) (
            register_handler 3003 (lift (on_player_ready now)) (
              register_handler 3001 (lift on_enter_room) (
                register_handler 2003 (lift on_match_cancel) (
                  register_handler 2001 (lift on_match_start) (
                    register_handler 1101 (lift (on_heartbeat now)) (
                      register_handler 1001 (lift (on_login now sid))
                        (record { handlers = [] }))))))))))
