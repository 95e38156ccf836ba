-- ===== src/Game/Worker.antt =====
-- src/game/logic_worker.h and logic_worker.cpp: a thread that owns rooms and runs their ticks, with the
-- part of `TickEngine::processTick` that talks to the broadcaster and the grid. Each function holds the
-- lock that the source holds; `now` is the steady clock in milliseconds. The statistics of `run` are
-- left out, and so is the pointer to the room, which nothing reads.
pub mod Fair
pub mod Absent
use miniarena.Prelude.{
  ℕ, zero, suc, ◌+◌, ◌-◌, ◌/◌, Bool, true, false, Option, none, some, List, [], ◌∷◌, ◌++◌, length,
  ltb, leb, if◌then◌else◌,
}
use miniarena.Prelude.Int.{pos}
use miniarena.Prelude.Dict.{Dict, find, insert, erase, modify, nat_eq}
use miniarena.Game.Combat.{FloatOps, Command, BattlePlayer, push, drain}
use miniarena.Game.Tick.{
  Arena, Death, PlayerState, process_tick, state_of, states, tick_interval_ms,
}
use miniarena.Game.Aoi.{AoiGrid, empty_grid, update, get_nearby}
use miniarena.Game.Broadcaster.{
  Broadcaster, broadcast_to_room, broadcast_to_aoi, queue_override, flush_overrides,
}

-- What a battle sends, in place of its serialization: 4005, one player's 4004, and a room's 4004.
pub data Message (F : Type 0) : Type 0 where
  died : Death → Message F
  moved : PlayerState F → Message F
  room_state : ℕ → List (PlayerState F) → Message F

-- `LogicWorker::RoomState`: the players, and since when those who are gone have been so.
pub record RoomState (F : Type 0) : Type 0 where
  pub players : Dict ℕ (BattlePlayer F)
  pub disconnected : Dict ℕ ℕ

pub data PendingOp (F : Type 0) : Type 0 where
  add_room : ℕ → Dict ℕ (BattlePlayer F) → PendingOp F
  remove_room : ℕ → PendingOp F
  mark_disconnected : ℕ → ℕ → PendingOp F

-- What the ticks of all the rooms of a worker share.
pub record Shared (F : Type 0) : Type 0 where
  pub last_seq : Dict ℕ ℕ
  pub aoi : AoiGrid
  pub bc : Broadcaster (Message F)

pub record LogicWorker (F : Type 0) : Type 0 where
  pub id : ℕ
  pub pending_ops : List (PendingOp F)
  pub cmd_queue : List (Command F)
  pub rooms : Dict ℕ (RoomState F)
  pub shared : Shared F

unfoldable pub new_worker : (F : Type 0) → ℕ → LogicWorker F
new_worker F id = record {
  id = id;
  pending_ops = [];
  cmd_queue = [];
  rooms = [];
  shared = record {
    last_seq = [];
    aoi = empty_grid;
    bc = record { has_callback = true; sent = []; overrides = [] };
  };
}

module _ {F : Type 0} where
  -- `addRoom`, `removeRoom` and `markDisconnected` put an operation in the queue.
  unfoldable pub push_op : PendingOp F → LogicWorker F → LogicWorker F
  push_op op w = record w { pending_ops = w.pending_ops ++ (op ∷ []) }

  unfoldable pub push_command : Command F → LogicWorker F → LogicWorker F
  push_command cmd w = record w { cmd_queue = push cmd w.cmd_queue }

  unfoldable pub room_count : LogicWorker F → ℕ
  room_count w = length w.rooms

  -- The switch of `drainPendingOps`.
  unfoldable pub apply_op : ℕ → PendingOp F → Dict ℕ (RoomState F) → Dict ℕ (RoomState F)
  apply_op now (add_room room_id players) rooms =
      insert room_id (record { players = players; disconnected = [] }) rooms
  apply_op now (remove_room room_id) rooms = erase room_id rooms
  apply_op now (mark_disconnected room_id player_id) rooms =
      modify room_id (λ r. record r { disconnected = insert player_id now r.disconnected }) rooms

  unfoldable pub apply_ops : ℕ → List (PendingOp F) → Dict ℕ (RoomState F) → Dict ℕ (RoomState F)
  apply_ops now [] rooms = rooms
  apply_ops now (op ∷ ops) rooms = apply_ops now ops (apply_op now op rooms)

  unfoldable pub drain_pending_ops : ℕ → LogicWorker F → LogicWorker F
  drain_pending_ops now w = record w {
    pending_ops = [];
    rooms = apply_ops now w.pending_ops w.rooms;
  }

  -- The deaths that `processAttack` and `processSkill` broadcast.
  unfoldable pub broadcast_deaths : List Death → Broadcaster (Message F) → Broadcaster (Message F)
  broadcast_deaths [] bc = bc
  broadcast_deaths (d ∷ ds) bc = broadcast_deaths ds (broadcast_to_room 4005 (died d) bc)

  -- `for (auto& [pid, bp] : rs.players) { … bc_.broadcastToAoi(nearby, 4004, data); }`
  unfoldable pub broadcast_room :
      Message F
      → Dict ℕ (BattlePlayer F)
      → AoiGrid
      → Broadcaster (Message F)
      → Broadcaster (Message F)
  broadcast_room state [] aoi bc = bc
  broadcast_room state ((pid, p) ∷ players) aoi bc =
      broadcast_room state players aoi (broadcast_to_aoi (get_nearby pid aoi) 4004 state bc)

  -- The values of the map of players, as they are put in a message.
  unfoldable pub all_states : Dict ℕ (BattlePlayer F) → List (PlayerState F)
  all_states [] = []
  all_states ((pid, p) ∷ players) = state_of p ∷ all_states players

  abbrev pub fell_out : BattlePlayer F → BattlePlayer F
  fell_out p = record p { alive = false; hp = pos 0 }

  -- The loop over `rs.disconnected`: those who are gone for more than 30 seconds are out.
  unfoldable pub check_disconnected : ℕ → Dict ℕ ℕ → RoomState F → RoomState F
  check_disconnected now [] r = r
  check_disconnected now ((pid, since) ∷ rest) r = check_disconnected now rest (
      if ltb 30 ((now - since) / 1000)
      then record {
        players = modify pid fell_out r.players;
        disconnected = erase pid r.disconnected;
      }
      else r)

  unfoldable pub get_snapshot : ℕ → LogicWorker F → Option (Message F)
  get_snapshot room_id w = elim (find room_id w.rooms) [
    | none ↦ none
    | some r ↦ some (room_state room_id (all_states r.players))
  ]

module _ (fl : FloatOps) where
  open fl use {F}

  -- The loop 3 of `processTick`.
  unfoldable pub publish : List (ℕ × PlayerState F) → Shared F → Shared F
  publish [] h = h
  publish ((pid, s) ∷ rest) h = publish rest (record h {
    bc = queue_override pid 4004 (moved s) h.bc;
    aoi = update fl pid s.position_x s.position_y h.aoi;
  })

  -- `processTick` on the players of one room.
  unfoldable pub engine_tick :
      List (Command F) → Dict ℕ (BattlePlayer F) → Shared F → Dict ℕ (BattlePlayer F) × Shared F
  engine_tick cmds players h =
      let (s, sts) =
        process_tick fl cmds (record { players = players; last_seq = h.last_seq; sent = [] }) in
      (
        s.players,
        publish sts (record h { last_seq = s.last_seq; bc = broadcast_deaths s.sent h.bc }),
      )

  -- The body of the loop over the rooms in `tick`.
  unfoldable pub tick_room :
      ℕ → List (Command F) → ℕ → RoomState F → Shared F → RoomState F × Shared F
  tick_room now cmds room_id r h =
      let (players, h1) = engine_tick cmds r.players h in
      let state = room_state room_id (all_states players) in
      let bc = flush_overrides (broadcast_room state players h1.aoi h1.bc) in
      (
        check_disconnected now r.disconnected (record r { players = players }),
        record h1 { bc = bc },
      )

  unfoldable pub tick_rooms :
      ℕ → List (Command F) → Dict ℕ (RoomState F) → Shared F → Dict ℕ (RoomState F) × Shared F
  tick_rooms now cmds [] h = ([], h)
  tick_rooms now cmds ((room_id, r) ∷ rooms) h =
      let (r', h1) = tick_room now cmds room_id r h in
      let (rest, h2) = tick_rooms now cmds rooms h1 in ((room_id, r') ∷ rest, h2)

  unfoldable pub tick : ℕ → LogicWorker F → LogicWorker F
  tick now w =
      let (cmds, queue) = drain w.cmd_queue in
      let (rooms, h) = tick_rooms now cmds w.rooms w.shared in
      record w { cmd_queue = queue; rooms = rooms; shared = h }

  -- One round of the loop of `run`, `elapsed` milliseconds after the last tick.
  unfoldable pub run_once : ℕ → ℕ → LogicWorker F → LogicWorker F
  run_once now elapsed w =
      let v = drain_pending_ops now w in if leb tick_interval_ms elapsed then tick now v else v
