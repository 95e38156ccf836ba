-- ===== src/Game/Server/Fights.antt =====
-- What the handlers of src/game/game_server.cpp keep from the start of a battle on: ready, the commands,
-- and a reconnect.
use miniarena.Prelude.{
  ℕ, ◌≡◌, subst, sym, ◌&&◌, Option, none, some, [], ◌∷◌, ltb, ◌==◌, arith, Bool-cases, Option-cases,
  inl, inr,
}
use miniarena.Prelude.Dict.{Dict, nat_eq, find-modify}
use miniarena.Network.FrameCodec.{Frame}
use miniarena.Game.Combat.{FloatOps, Command}
use miniarena.Game.Room.{
  start_battle as start_room, Room, RoomPlayerInfo, get_room, update_room, all_ready, player_ready,
  RoomManager,
}
use miniarena.Game.Sessions.{
  LoginResult, Session, SessionState, in_battle, Storage, SessionManager, get_by_conn,
  get_by_session, get_by_player, set_state, try_reconnect,
}
use miniarena.Game.Sessions.Valid.{IsValid}
use miniarena.Game.Sessions.Operations.{handle, handle-IsValid, come_back}
use miniarena.Game.Matching.Valid.{set_state-IsValid}
use miniarena.Game.Battles.{BattleManager, set_states, start_battle, send_snapshot, report}
use miniarena.Game.Battles.Fair.{AllFair, dispatch_command-AllFair, start_battle-AllFair}
use miniarena.Game.Server.{
  Protocol, Outcome, running, Server, send_response, battle_start, reconnect_response,
}
use miniarena.Game.Server.Replies.{
  IsSafe, Holds, then-Holds, send_response-IsSafe, flush_reports-IsSafe,
}
use miniarena.Game.Server.Lobbies.{sessions-IsSafe}
use miniarena.Game.Server.Handlers.{
  tell_start, begin, begin_if_ready, on_player_ready, catch_up, dispatch_parsed, on_command,
  on_reconnect, is_in_battle,
}

-- A room that is there is there after the change of a player.
get-update_room :
    (room_id : ℕ) (g : Room → Room) (room : Room) (rooms : RoomManager)
    → get_room room_id rooms ≡ some room
    → get_room room_id (update_room room_id g rooms) ≡ some (g room)
unfolding get_room update_room
get-update_room room_id g room rooms e =
    ground (arith, e, find-modify room_id room_id g rooms.rooms)

send_snapshot-workers :
    {F : Type 0} (player_id room_id : ℕ) (b : BattleManager F)
    → (send_snapshot player_id room_id b).workers ≡ b.workers
unfolding send_snapshot report
send_snapshot-workers player_id room_id b = ground arith

module _ {db : Storage} (fl : FloatOps) (pr : Protocol fl.F) where
  open fl use {F}

  tell_start-IsSafe :
      (room_id : ℕ) (players : Dict ℕ RoomPlayerInfo) (s : Server db F)
      → IsSafe s
      → Holds pr IsSafe (tell_start fl pr room_id players s)
  unfolding tell_start
  tell_start-IsSafe room_id [] s v = v
  tell_start-IsSafe room_id ((pid, info) ∷ rest) s v =
      then-Holds pr IsSafe IsSafe _ (tell_start fl pr room_id rest)
        (told (get_by_player db pid s.lobby.sessions)) (tell_start-IsSafe room_id rest)
    where
      told :
          (o : Option Session)
          → Holds pr IsSafe (elim o as (λ x. Outcome (Server db F)) [
            | none ↦ running s
            | some p ↦ send_response pr p.conn_id 3004 (battle_start room_id) s
          ])
      told none = v
      told (some p) = send_response-IsSafe pr p.conn_id 3004 (battle_start room_id) s v

  set_states-IsValid :
      (state : SessionState) (players : Dict ℕ RoomPlayerInfo) (m : SessionManager db)
      → IsValid m
      → IsValid (set_states db state players m)
  unfolding set_states
  set_states-IsValid state [] m v = v
  set_states-IsValid state ((pid, info) ∷ rest) m v =
      set_states-IsValid state rest _ (changed (get_by_player db pid m))
    where
      changed :
          (o : Option Session)
          → IsValid {db = db} (elim o as (λ x. SessionManager db) [
            | none ↦ m
            | some s ↦ (set_state db s.session_id state m).1
          ])
      changed none = v
      changed (some s) = set_state-IsValid s.session_id state m v

  begin-IsSafe :
      (now room_id : ℕ) (room : Room) (s : Server db F)
      → IsSafe s
      → Holds pr IsSafe (begin fl pr now room_id room s)
  unfolding begin start_battle
  begin-IsSafe now room_id room s v =
      let r = start_room room in
      tell_start-IsSafe r.room_id r.players _ (record {
        sessions = set_states-IsValid in_battle r.players s.lobby.sessions v.sessions;
        fair = start_battle-AllFair fl db now r s.battles s.lobby.sessions v.fair;
      })

  begin_if_ready-IsSafe :
      (now room_id : ℕ) (room : Room) (s : Server db F)
      → get_room room_id s.lobby.rooms ≡ some room
      → IsSafe s
      → Holds pr IsSafe (begin_if_ready fl pr now room_id s)
  unfolding begin_if_ready
  begin_if_ready-IsSafe now room_id room s e v = elim (Bool-cases (all_ready room)) [
    | inl b ↦ rw (e, b, begin_if_ready) (begin-IsSafe now room_id room s v)
    | inr b ↦ rw (e, b, begin_if_ready) v
  ]

  pub on_player_ready-IsSafe :
      (now conn : ℕ) (f : Frame) (s : Server db F)
      → IsSafe s
      → Holds pr IsSafe (on_player_ready fl pr now conn f s)
  unfolding on_player_ready
  on_player_ready-IsSafe now conn f s v =
      elim (Option-cases (get_by_conn db conn s.lobby.sessions)) [
        | inl e ↦ rw (e, on_player_ready) v
        | inr (p, e) ↦ elim (Bool-cases (p.current_room == 0)) [
          | inl b ↦ rw (e, b, on_player_ready) v
          | inr b ↦ elim (Option-cases (get_room p.current_room s.lobby.rooms)) [
            | inl n ↦ rw (e, b, n, on_player_ready) v
            | inr (room, n) ↦
                let g = player_ready p.player_id in
                rw (e, b, n, on_player_ready)
                  (begin_if_ready-IsSafe now p.current_room (g room) _
                    (get-update_room p.current_room g room s.lobby.rooms n)
                    (record { sessions = v.sessions; fair = v.fair }))
          ]
        ]
      ]

  dispatch_parsed-IsSafe :
      (p : Session) (o : Option (Command F)) (s : Server db F)
      → IsSafe s
      → IsSafe (dispatch_parsed fl pr p o s)
  unfolding dispatch_parsed
  dispatch_parsed-IsSafe p none s v = v
  dispatch_parsed-IsSafe p (some cmd) s v = record {
    sessions = v.sessions;
    fair = dispatch_command-AllFair p.current_room cmd s.battles v.fair;
  }

  pub on_command-IsSafe :
      (make : Session → Frame → Option (Command F)) (conn : ℕ) (f : Frame) (s : Server db F)
      → IsSafe s
      → Holds pr IsSafe (on_command fl pr make conn f s)
  unfolding on_command
  on_command-IsSafe make conn f s v = elim (Option-cases (get_by_conn db conn s.lobby.sessions)) [
    | inl e ↦ rw (e, on_command) v
    | inr (p, e) ↦ elim (Bool-cases (is_in_battle p.state)) [
      | inl b ↦ rw (e, b, on_command) (dispatch_parsed-IsSafe p (make p f) s v)
      | inr b ↦ rw (e, b, on_command) v
    ]
  ]

  catch_up-IsSafe :
      (r : LoginResult) (s : Server db F) → IsSafe s → Holds pr IsSafe (catch_up fl pr r s)
  unfolding catch_up
  catch_up-IsSafe r s v = elim (Bool-cases (r.error_code == 0)) [
    | inr b ↦ rw (b, catch_up) v
    | inl b ↦ elim (Option-cases (get_by_session db r.session_id s.lobby.sessions)) [
      | inl e ↦ rw (b, e, catch_up) v
      | inr (p, e) ↦ elim (Bool-cases (is_in_battle p.state && ltb 0 p.current_room)) [
        | inr c ↦ rw (b, e, c, catch_up) v
        | inl c ↦
            rw (b, e, c, catch_up)
              (flush_reports-IsSafe pr _ (record {
                sessions = v.sessions;
                fair =
                    subst AllFair (sym (send_snapshot-workers p.player_id p.current_room s.battles))
                      v.fair;
              }))
      ]
    ]
  ]

  pub on_reconnect-IsSafe :
      (now conn : ℕ) (f : Frame) (s : Server db F)
      → IsSafe s
      → Holds pr IsSafe (on_reconnect fl pr now conn f s)
  unfolding on_reconnect handle
  on_reconnect-IsSafe now conn f s v = elim (Option-cases (pr.parse_reconnect f.payload)) [
    | inl e ↦ rw (e, on_reconnect) v
    | inr (sid, e) ↦
        let r = try_reconnect db sid conn now s.lobby.sessions in
        let rv : IsValid r.1 =
          handle-IsValid (come_back sid conn now) s.lobby.sessions tt v.sessions in
        rw (e, on_reconnect)
          (then-Holds pr IsSafe IsSafe _ _
            (send_response-IsSafe pr conn 5002 (reconnect_response r.0.error_code) _
              (sessions-IsSafe fl pr r.1 s rv v))
            (catch_up-IsSafe r.0))
  ]
