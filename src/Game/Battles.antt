-- ===== src/Game/Battles.antt =====
-- src/game/battle_manager.h and battle_manager.cpp: which worker runs the battle of a room. A pointer
-- to a worker is its index. `started` are the workers whose thread runs; a thread does `run_once`
-- at its own times. The callback is set, and `sent` lists its calls. MySQL is the store of the
-- sessions.
pub mod Owner
pub mod Settlement
pub mod Fair
use miniarena.Prelude.{
  ℕ, zero, suc, ◌+◌, ◌%◌, Bool, true, false, Option, none, some, List, [], ◌∷◌, ◌++◌, length, ltb,
  leb, ◌==◌, if◌then◌else◌, get_elem?,
}
use miniarena.Prelude.Int.{ℤ, pos}
use miniarena.Prelude.Dict.{Dict, find, insert, erase, nat_eq}
use miniarena.Prelude.Sets.{put_in}
use miniarena.Game.Combat.{FloatOps, Command, BattlePlayer, new_player}
use miniarena.Game.Broadcaster.{Sending}
use miniarena.Game.Room.{Room, RoomPlayerInfo, RoomManager, get_room, update_room, end_battle}
use miniarena.Game.Sessions.{
  Storage, SessionManager, SessionState, in_battle, in_lobby, get_by_player, set_state,
  set_current_room,
}
use miniarena.Game.Worker.{
  Message, LogicWorker, new_worker, add_room, remove_room, mark_disconnected, push_op, push_command,
  room_count, drain_pending_ops, get_snapshot,
}

pub record SettlementEntry : Type 0 where
  pub player_id : ℕ
  pub kills : ℕ
  pub deaths : ℕ
  pub damage_dealt : ℤ
  pub damage_taken : ℤ
  pub rank : ℕ

-- What the manager itself sends: 6001 (room and duration), 6002 and 5003.
pub data Report (F : Type 0) : Type 0 where
  ended : ℕ → ℕ → Report F
  settled : SettlementEntry → Report F
  snapshot : Message F → Report F

pub record BattleManager (F : Type 0) : Type 0 where
  pub workers : List (LogicWorker F)
  pub room_to_worker : Dict ℕ ℕ
  pub started : List ℕ
  pub sent : List (Sending (Report F))

-- `workers_[i]->f()`.
unfoldable pub change_at {ℓ} : {A : Type ℓ} → ℕ → (A → A) → List A → List A
change_at i f [] = []
change_at zero f (a ∷ xs) = f a ∷ xs
change_at (suc i) f (a ∷ xs) = a ∷ change_at i f xs

-- The workers `i`, `i + 1`, … of the constructor.
unfoldable pub make_workers : (F : Type 0) → ℕ → ℕ → List (LogicWorker F)
make_workers F zero i = []
make_workers F (suc n) i = new_worker F i ∷ make_workers F n (i + 1)

unfoldable pub new_manager : (F : Type 0) → ℕ → BattleManager F
new_manager F logic_threads = record {
  workers = make_workers F logic_threads 0;
  room_to_worker = [];
  started = [];
  sent = [];
}

-- A settlement before the players are ranked, as `endBattle` sends it.
abbrev pub no_figures : ℕ → SettlementEntry
no_figures pid = record {
  player_id = pid;
  kills = 0;
  deaths = 0;
  damage_dealt = pos 0;
  damage_taken = pos 0;
  rank = 1;
}

module _ {F : Type 0} where
  unfoldable pub assign_worker : ℕ → BattleManager F → ℕ
  assign_worker room_id b = room_id % length b.workers

  unfoldable pub report : ℕ → ℕ → Report F → BattleManager F → BattleManager F
  report pid msg_id r b = record b {
    sent = b.sent ++ (record { player_id = pid; msg_id = msg_id; payload = r } ∷ []);
  }

  -- The loop of `startBattle` over the workers.
  unfoldable pub wake_workers : ℕ → List (LogicWorker F) → List (LogicWorker F)
  wake_workers now [] = []
  wake_workers now (w ∷ ws) =
      (if room_count w == 0 then drain_pending_ops now w else w) ∷ wake_workers now ws

  -- The workers whose thread is started: those that have a room.
  unfoldable pub start_threads : List (LogicWorker F) → List ℕ → List ℕ
  start_threads [] started = started
  start_threads (w ∷ ws) started =
      start_threads ws (if leb 1 (room_count w) then put_in w.id started else started)

  unfoldable pub dispatch_command : ℕ → Command F → BattleManager F → BattleManager F
  dispatch_command room_id cmd b = elim (find room_id b.room_to_worker) [
    | none ↦ b
    | some i ↦ record b { workers = change_at i (push_command cmd) b.workers }
  ]

  unfoldable pub on_player_disconnect : ℕ → ℕ → BattleManager F → BattleManager F
  on_player_disconnect player_id room_id b = elim (find room_id b.room_to_worker) [
    | none ↦ b
    | some i ↦ record b {
      workers = change_at i (push_op (mark_disconnected room_id player_id)) b.workers;
    }
  ]

  unfoldable pub send_snapshot : ℕ → ℕ → BattleManager F → BattleManager F
  send_snapshot player_id room_id b = elim (find room_id b.room_to_worker) [
    | none ↦ b
    | some i ↦ elim (get_elem? b.workers i) [
      | none ↦ b
      | some w ↦ elim (get_snapshot room_id w) [
        | none ↦ b
        | some m ↦ report player_id 5003 (snapshot m) b
      ]
    ]
  ]

module _ (fl : FloatOps) where
  open fl use {F, mul, of_int, lit}

  -- `bp.pos_x = bp_map.size() * 50.0f`, `bp.pos_y = 0`.
  unfoldable pub placed : ℕ → ℕ → RoomPlayerInfo → BattlePlayer F
  placed size pid info = record (new_player fl pid info.username) {
    pos_x = mul (of_int (pos size)) (lit 50 1);
    pos_y = lit 0 1;
  }

  -- The loop that fills `bp_map`.
  unfoldable pub battle_players :
      Dict ℕ RoomPlayerInfo → Dict ℕ (BattlePlayer F) → Dict ℕ (BattlePlayer F)
  battle_players [] bp_map = bp_map
  battle_players ((pid, info) ∷ rest) bp_map =
      battle_players rest (insert pid (placed (length bp_map) pid info) bp_map)

module _ (db : Storage) where
  -- The sessions of the players of a room, those that have one, go to a state.
  unfoldable pub set_states :
      SessionState → Dict ℕ RoomPlayerInfo → SessionManager db → SessionManager db
  set_states state [] m = m
  set_states state ((pid, info) ∷ rest) m =
      set_states state rest (elim (get_by_player db pid m) [
        | none ↦ m
        | some s ↦ (set_state db s.session_id state m).1
      ])

  unfoldable pub start_battle :
      (fl : FloatOps)
      → ℕ
      → Room
      → BattleManager fl.F
      → SessionManager db
      → BattleManager fl.F × SessionManager db
  start_battle fl now r b m =
      let i = assign_worker r.room_id b in
      let op = add_room r.room_id (battle_players fl r.players []) in
      let workers = wake_workers now (change_at i (push_op op) b.workers) in
      (
        record b {
          workers = workers;
          room_to_worker = insert r.room_id i b.room_to_worker;
          started = start_threads workers b.started;
        },
        set_states in_battle r.players m,
      )

  -- The body of the loop of `endBattle`; `mysql` is not null.
  unfoldable pub settle_player :
      {F : Type 0}
      → ℕ
      → ℕ
      → BattleManager F
      → SessionManager db
      → BattleManager F × SessionManager db
  settle_player room_id pid b m =
      let b' = report pid 6002 (settled (no_figures pid)) (report pid 6001 (ended room_id 60) b) in
      let n : SessionManager db = elim (get_by_player db pid m) [
        | none ↦ m
        | some s ↦ (set_current_room db s.session_id 0 (set_state db s.session_id in_lobby m).1).1
      ] in
      (b', record n { store = db.save_battle_result pid room_id 0 0 (pos 0) (pos 0) 1 n.store })

  unfoldable pub settle_players :
      {F : Type 0}
      → ℕ
      → Dict ℕ RoomPlayerInfo
      → BattleManager F
      → SessionManager db
      → BattleManager F × SessionManager db
  settle_players room_id [] b m = (b, m)
  settle_players room_id ((pid, info) ∷ rest) b m =
      let (c, n) = settle_player room_id pid b m in settle_players room_id rest c n

  -- `endBattle` of the manager; the room itself is changed by `Room::endBattle`.
  unfoldable pub close_battle :
      {F : Type 0}
      → ℕ
      → BattleManager F
      → RoomManager
      → SessionManager db
      → BattleManager F × RoomManager × SessionManager db
  close_battle room_id b rooms m = elim (find room_id b.room_to_worker) [
    | none ↦ (b, rooms, m)
    | some i ↦ elim (get_room room_id rooms) [
      | none ↦ (b, rooms, m)
      | some r ↦
          let (c, n) = settle_players room_id r.players b m in
          (
            record c {
              workers = change_at i (push_op (remove_room room_id)) c.workers;
              room_to_worker = erase room_id c.room_to_worker;
            },
            update_room room_id end_battle rooms,
            n,
          )
    ]
  ]

-- `computeSettlement`: `sort` stands for `std::sort` by kills, the most first.
unfoldable pub entries_of : {F : Type 0} → Dict ℕ (BattlePlayer F) → List SettlementEntry
entries_of [] = []
entries_of ((pid, p) ∷ players) =
    record {
      player_id = pid;
      kills = p.kills;
      deaths = p.deaths;
      damage_dealt = p.damage_dealt;
      damage_taken = p.damage_taken;
      rank = 0;
    }
    ∷ entries_of players

unfoldable pub rank_from : ℕ → List SettlementEntry → List SettlementEntry
rank_from i [] = []
rank_from i (e ∷ es) = record e { rank = i + 1 } ∷ rank_from (i + 1) es

unfoldable pub compute_settlement :
    {F : Type 0}
    → (List SettlementEntry → List SettlementEntry)
    → Dict ℕ (BattlePlayer F)
    → List SettlementEntry
compute_settlement sort players = rank_from 0 (sort (entries_of players))
