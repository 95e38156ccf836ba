-- ===== src/Game/Room.antt =====
-- src/game/room.h, room.cpp, room_manager.h and room_manager.cpp: rooms, their players and their
-- life cycle. `int` counters stay far below 2^31 and are numbers; `--ready_count_` runs only for a
-- ready player, which the count includes.
pub mod Counting
pub mod LifeCycle
use miniarena.Prelude.{
  ℕ, suc, ◌+◌, ◌-◌, Bool, true, false, not, ◌&&◌, ◌||◌, Option, none, some, List, [], ◌∷◌, length,
  leb, ◌==◌, if◌then◌else◌, String,
}
use miniarena.Prelude.Dict.{Dict, find, insert, erase, modify, nat_eq}

pub data RoomState : Type 0 where
  created waiting_players loading running settling destroyed : RoomState

pub record RoomPlayerInfo : Type 0 where
  pub player_id : ℕ
  pub username : String
  pub ready : Bool

pub record Room : Type 0 where
  pub room_id : ℕ
  pub state : RoomState
  pub max_players : ℕ
  pub ready_count : ℕ
  pub players : Dict ℕ RoomPlayerInfo

unfoldable pub create : ℕ → ℕ → Room
create id max_players = record {
  room_id = id;
  state = created;
  max_players = max_players;
  ready_count = 0;
  players = [];
}

unfoldable pub player_count : Room → ℕ
player_count r = length r.players

unfoldable pub is_full : Room → Bool
unfolding player_count
is_full r = leb r.max_players (player_count r)

-- `state_ == CREATED || state_ == WAITING_PLAYERS`.
abbrev pub is_open : RoomState → Bool
is_open created = true
is_open waiting_players = true
is_open _ = false

abbrev pub open_state : RoomState → RoomState
open_state created = waiting_players
open_state s = s

-- `{player_id, username, false}`.
abbrev pub joined : ℕ → String → RoomPlayerInfo
joined player_id username = record { player_id = player_id; username = username; ready = false }

-- 0, 40002 (full) or 40003 (wrong state), and the room.
unfoldable pub add_player : ℕ → String → Room → ℕ × Room
unfolding is_full
add_player player_id username r =
    if not (is_open r.state) then (40003, r) else if is_full r then (40002, r) else (
      0,
      record r {
        players = insert player_id (joined player_id username) r.players;
        state = open_state r.state;
      },
    )

unfoldable pub remove_player : ℕ → Room → Room
remove_player player_id r = elim (find player_id r.players) [
  | none ↦ r
  | some info ↦ record r {
    ready_count = if info.ready then r.ready_count - 1 else r.ready_count;
    players = erase player_id r.players;
  }
]

unfoldable pub player_ready : ℕ → Room → Room
player_ready player_id r = elim (find player_id r.players) [
  | none ↦ r
  | some info ↦ if info.ready then r else record r {
    players = modify player_id (λ i. record i { ready = true }) r.players;
    ready_count = r.ready_count + 1;
  }
]

unfoldable pub all_ready : Room → Bool
all_ready r = r.ready_count == length r.players && not (length r.players == 0)

abbrev pub is_waiting : RoomState → Bool
is_waiting waiting_players = true
is_waiting _ = false

abbrev pub is_loading : RoomState → Bool
is_loading loading = true
is_loading _ = false

abbrev pub is_running : RoomState → Bool
is_running running = true
is_running _ = false

unfoldable pub start_loading : Room → Room
unfolding is_full
start_loading r = if is_waiting r.state && is_full r then record r { state = loading } else r

unfoldable pub start_battle : Room → Room
unfolding all_ready
start_battle r = if is_loading r.state && all_ready r then record r { state = running } else r

unfoldable pub end_battle : Room → Room
end_battle r = if is_running r.state then record r { state = settling } else r

unfoldable pub destroy : Room → Room
destroy r = record r { state = destroyed; players = [] }

unfoldable pub has_player : ℕ → Room → Bool
has_player pid r = elim (find pid r.players) [ none ↦ false | some i ↦ true ]

-- The room manager; `next_room_id_` is 64 bits wide and does not wrap in practice.
pub record RoomManager : Type 0 where
  pub rooms : Dict ℕ Room
  pub next_room_id : ℕ

unfoldable pub empty_rooms : RoomManager
empty_rooms = record { rooms = []; next_room_id = 1 }

unfoldable pub create_room : ℕ → RoomManager → ℕ × RoomManager
unfolding create
create_room max_players m = (
  m.next_room_id,
  record m {
    rooms = insert m.next_room_id (create m.next_room_id max_players) m.rooms;
    next_room_id = m.next_room_id + 1;
  },
)

unfoldable pub get_room : ℕ → RoomManager → Option Room
get_room room_id m = find room_id m.rooms

unfoldable pub destroy_room : ℕ → RoomManager → RoomManager
destroy_room room_id m = record m { rooms = erase room_id m.rooms }

-- A change of a room through the pointer that `getRoom` returns.
unfoldable pub update_room : ℕ → (Room → Room) → RoomManager → RoomManager
update_room room_id f m = record m { rooms = modify room_id f m.rooms }
