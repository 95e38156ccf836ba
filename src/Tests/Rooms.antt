-- ===== src/Tests/Rooms.antt =====
-- The theorems on src/game/room.cpp, applied to a room for two players.
use miniarena.Prelude.{ℕ, ◌+◌, ◌≤◌, ◌≡◌, ◌≢◌, refl, true, false, List, [], ◌∷◌, arith}
use miniarena.Prelude.Dict.{find}
use miniarena.Prelude.Dict.Total.{total}
use miniarena.Game.Room.{
  Room, created, running, settling, create, add_player, has_player, is_full, player_count,
}
use miniarena.Game.Room.Counting.{
  IsValid, Op, add, ready, load, start, finish, apply, apply-IsValid, IsCounted, ready_number,
  is_ready, add_ready_overcounts,
}
use miniarena.Game.Room.LifeCycle.{rank, run, run-forward, never_running}

-- Player 1 is ready, player 2 is not.
abbrev lobby : Room
lobby = record {
  room_id = 3;
  state = created;
  max_players = 2;
  ready_count = 1;
  players = (1, record { player_id = 1; username = "ann"; ready = true }) ∷ [];
}

lobby-IsValid : IsValid lobby
unfolding total find
lobby-IsValid = record { distinct = (refl, tt); bounded = omega arith; at_least = omega arith }

lobby-IsCounted : IsCounted lobby
unfolding total
lobby-IsCounted = refl

apply-IsValid_example : IsValid (apply (add 2 "bob") lobby)
apply-IsValid_example = apply-IsValid (add 2 "bob") lobby-IsValid

one-is_ready : is_ready 1 lobby ≡ true
unfolding find
one-is_ready = refl

lobby-open : (add_player 1 "ann" lobby).0 ≡ 0
unfolding add_player is_full player_count
lobby-open = refl

add_ready_overcounts_example :
    let s = (add_player 1 "ann" lobby).1 in
    (is_ready 1 s ≡ false) × (s.ready_count ≡ ready_number s + 1)
add_ready_overcounts_example =
    add_ready_overcounts 1 "ann" lobby lobby-IsCounted one-is_ready lobby-open

abbrev a_match : List Op
a_match = add 2 "bob" ∷ ready 2 ∷ load ∷ start ∷ add 3 "eve" ∷ finish ∷ []

run-forward_example :
    (rank lobby.state ≤ rank (run a_match lobby).state)
    × (2 ≤ rank lobby.state
        → (q : ℕ) → has_player q (run a_match lobby) ≡ true
        → has_player q lobby ≡ true)
run-forward_example = run-forward a_match lobby

never_running_example :
    let s = (run (add 1 "ann" ∷ ready 1 ∷ start ∷ []) (create 5 1)).state in
    (s ≢ running) × (s ≢ settling)
never_running_example = never_running (add 1 "ann" ∷ ready 1 ∷ start ∷ []) 5 1 tt
