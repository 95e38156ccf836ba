-- ===== src/Game/Matching/Places.antt =====
-- A room of src/game/match_manager.cpp that gets its players, and the other rooms.
use miniarena.Prelude.{
  ℕ, suc, ◌+◌, ◌≤◌, ◌<◌, ◌≡◌, refl, ap, ◌∙◌, Bool, true, false, ◌||◌, some, List, [], ◌∷◌, length,
  ◌==◌, arith, String, leb,
}
use miniarena.Prelude.Dict.{find, insert, nat_eq, find-modify, find-insert, find-insert_self}
use miniarena.Game.Room.{
  Room, RoomState, created, waiting_players, loading, running as in_battle, settling, destroyed,
  RoomManager, is_open, open_state, joined as entry, get_room, update_room, add_player, has_player,
  is_full, player_count, create, create_room,
}

-- A room that still has places.
pub record HasPlaces (room_id q places : ℕ) (joined : Bool) (rooms : RoomManager) : Type 0 where
  pub room : Room
  pub found : get_room room_id rooms ≡ some room
  pub opened : is_open room.state ≡ true
  pub places_left : length room.players + places ≤ room.max_players
  pub joins : has_player q room ≡ joined

-- The other rooms, and the number of the next one, are the same.
pub record SameOthers (room_id : ℕ) (a b : RoomManager) : Type 0 where
  pub others : (j : ℕ) → (room_id == j) ≡ false → get_room j b ≡ get_room j a
  pub next : b.next_room_id ≡ a.next_room_id

length-insert :
    {V : Type 0} (k : ℕ) (v : V) (m : List (ℕ × V)) → length (insert k v m) ≤ length m + 1
unfolding insert
length-insert k v [] = ground arith
length-insert k v ((j, w) ∷ m) = ground (arith, length-insert k v m)

open_again : (s : RoomState) → is_open s ≡ true → is_open (open_state s) ≡ true
open_again created h = refl
open_again waiting_players h = refl
open_again loading h = h
open_again in_battle h = h
open_again settling h = h
open_again destroyed h = h

-- A player for whom there is a place.
added : ℕ → String → Room → Room
added pid name r = record r {
  players = insert pid (entry pid name) r.players;
  state = open_state r.state;
}

add_player-added :
    (pid : ℕ) (name : String) (r : Room)
    → is_open r.state ≡ true
    → length r.players + 1 ≤ r.max_players
    → (add_player pid name r).1 ≡ added pid name r
unfolding add_player is_full player_count added
add_player-added pid name r o h =
    let f : leb r.max_players (length r.players) ≡ false = ground (arith, h) in
    rw (o, f, add_player) refl

has_player-added :
    (q pid : ℕ) (name : String) (r : Room)
    → has_player q (added pid name r) ≡ (has_player q r || pid == q)
unfolding has_player added
has_player-added q pid name r = ground (arith, find-insert pid q (entry pid name) r.players)

pub add_player-HasPlaces :
    (room_id q pid places : ℕ) (name : String) (joined : Bool) (rooms : RoomManager)
    → HasPlaces room_id q (suc places) joined rooms
    → HasPlaces room_id q places
        (joined || pid == q)
        (update_room room_id (λ r. (add_player pid name r).1) rooms)
unfolding get_room update_room added
add_player-HasPlaces room_id q pid places name joined rooms h =
    let r = h.room in
    let p = h.places_left in
    let e = add_player-added pid name r h.opened (omega (arith, p)) in
    record {
      room = added pid name r;
      found =
          find-modify room_id room_id (λ t. (add_player pid name t).1) rooms.rooms
          ∙ ground (arith, h.found, e);
      opened = open_again r.state h.opened;
      places_left = omega (arith, p, length-insert pid (entry pid name) r.players);
      joins = has_player-added q pid name r ∙ ap (λ b. b || pid == q) h.joins;
    }

pub fewer-HasPlaces :
    (room_id q places : ℕ) (joined : Bool) (rooms : RoomManager)
    → HasPlaces room_id q (suc places) joined rooms
    → HasPlaces room_id q places joined rooms
fewer-HasPlaces room_id q places joined rooms h =
    let p = h.places_left in
    record {
      room = h.room;
      found = h.found;
      opened = h.opened;
      places_left = omega (arith, p);
      joins = h.joins;
    }

pub update-SameOthers :
    (room_id : ℕ) (f : Room → Room) (rooms : RoomManager)
    → SameOthers room_id rooms (update_room room_id f rooms)
unfolding get_room update_room
update-SameOthers room_id f rooms = record {
  others = λ j e. ground (arith, e, find-modify room_id j f rooms.rooms);
  next = refl;
}

pub create-HasPlaces :
    (q size : ℕ) (rooms : RoomManager)
    → HasPlaces rooms.next_room_id q size false (create_room size rooms).1
unfolding create_room create get_room has_player find
create-HasPlaces q size rooms = record {
  room = create rooms.next_room_id size;
  found = find-insert_self rooms.next_room_id (create rooms.next_room_id size) rooms.rooms;
  opened = refl;
  places_left = omega arith;
  joins = refl;
}

pub create-others :
    (size j : ℕ) (rooms : RoomManager)
    → j < rooms.next_room_id
    → get_room j (create_room size rooms).1 ≡ get_room j rooms
unfolding create_room get_room
create-others size j rooms h =
    ground (arith, h, find-insert rooms.next_room_id j (create rooms.next_room_id size) rooms.rooms)
