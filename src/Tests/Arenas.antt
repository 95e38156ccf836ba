-- ===== src/Tests/Arenas.antt =====
-- The theorems on src/game/aoi_grid.cpp, logic_worker.cpp and battle_manager.cpp, applied to a few
-- players.
use miniarena.Prelude.{
  ℕ, ◌<◌, ◌%◌, true, ◌≡◌, refl, none, some, List, [], ◌∷◌, arith, length, get_elem?,
}
use miniarena.Prelude.Int.{pos, negsuc}
use miniarena.Prelude.Dict.{Dict, find, nat_eq, Distinct}
use miniarena.Prelude.Sets.{occurs}
use miniarena.Game.Combat.{attack, new_player}
use miniarena.Game.Room.{Room, waiting_players}
use miniarena.Game.Aoi.{empty_grid, get_nearby}
use miniarena.Game.Aoi.Nearby.{Move, go, quit, play, cells_after, nearby_count, get_nearby_refines}
use miniarena.Game.Worker.{
  RoomState, LogicWorker, check_disconnected, drain_pending_ops, push_command,
}
use miniarena.Game.Worker.Absent.{Checked, check_disconnected-Checked}
use miniarena.Game.Battles.{
  BattleManager, new_manager, make_workers, battle_players, start_battle, dispatch_command,
}
use miniarena.Game.Battles.Owner.{start_battle_lem}
use miniarena.Tests.Battles.{whole_numbers, order}
use miniarena.Tests.Matches.{waiting, manager}

abbrev moves : List Move
moves = go 1 (pos 0, pos 0) ∷ go 2 (negsuc 0, pos 1) ∷ go 3 (pos 2, pos 0) ∷ quit 3 ∷ []

get_nearby_refines_example :
    occurs 2 (get_nearby 1 (play moves empty_grid))
    ≡ (elim (cells_after moves (λ i. none) 1) as (λ o. ℕ) [
      | none ↦ 0
      | some c ↦ nearby_count c (cells_after moves (λ i. none) 2)
    ])
get_nearby_refines_example = get_nearby_refines moves 1 2

-- Player 1 is gone since 1 s, player 2 since 40 s.
abbrev gone_list : Dict ℕ ℕ
gone_list = (1, 1000) ∷ (2, 40000) ∷ []

abbrev half_empty : RoomState ℕ
half_empty = record {
  players = (1, new_player whole_numbers 1 "ann") ∷ (2, new_player whole_numbers 2 "bob") ∷ [];
  disconnected = gone_list;
}

gone_list-Distinct : Distinct gone_list
unfolding find
gone_list-Distinct = (refl, (refl, tt))

check_disconnected-Checked_example :
    Checked 45000 1 (find 1 gone_list) half_empty (check_disconnected 45000 gone_list half_empty)
check_disconnected-Checked_example =
    check_disconnected-Checked 45000 gone_list half_empty 1 gone_list-Distinct

abbrev pair_room : Room
pair_room = record {
  room_id = 7;
  state = waiting_players;
  max_players = 2;
  ready_count = 2;
  players =
      (5, record { player_id = 5; username = "ann"; ready = true })
      ∷ (6, record { player_id = 6; username = "bob"; ready = true })
      ∷ [];
}

abbrev two_workers : BattleManager ℕ
two_workers = new_manager ℕ 2

some_workers : 0 < length two_workers.workers
unfolding new_manager make_workers
some_workers = omega arith

start_battle_lem_example :
    let c = (start_battle waiting whole_numbers 1000 pair_room two_workers manager).0 in
    let i = 7 % length two_workers.workers in
    (w : LogicWorker ℕ) × (get_elem? c.workers i ≡ some w)
    × (find 7 (drain_pending_ops 1050 w).rooms
        ≡ some (record {
          players = battle_players whole_numbers pair_room.players [];
          disconnected = [];
        }))
    × (get_elem? (dispatch_command 7 (order attack 5 1 6) c).workers i
        ≡ some (push_command (order attack 5 1 6) w))
start_battle_lem_example =
    start_battle_lem waiting whole_numbers 1000 1050 pair_room (order attack 5 1 6) two_workers
      manager some_workers
