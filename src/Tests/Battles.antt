-- ===== src/Tests/Battles.antt =====
-- The theorems on src/game/tick_engine.cpp, applied to a duel. The floating-point operations are
-- those of natural numbers here.
use miniarena.Prelude.{ℕ, ◌+◌, ◌-◌, ◌*◌, ◌/◌, ◌≡◌, refl, [], ◌∷◌, arith, ltb, leb}
use miniarena.Prelude.Int.{pos, negsuc}
use miniarena.Prelude.Dict.{find, nat_eq}
use miniarena.Prelude.Dict.Total.{total}
use miniarena.Game.Combat.{FloatOps, CommandType, attack, skill, Command, new_player}
use miniarena.Game.Tick.{Arena, process_command, process_commands}
use miniarena.Game.Tick.Health.{IsFair, AllSound, process_commands-IsFair}
use miniarena.Game.Tick.Replay.{process_command_twice}

abbrev pub whole_numbers : FloatOps
whole_numbers = record {
  F = ℕ;
  add = λ x y. x + y;
  sub = λ x y. x - y;
  mul = λ x y. x * y;
  div = λ x y. x / y;
  sqrt = λ x. x;
  lt = ltb;
  le = leb;
  of_int = λ z. elim z [ pos n ↦ n | negsuc n ↦ 0 ];
  to_int = λ x. pos x;
  floor = λ x. x;
  lit = λ x y. x / y;
}

abbrev pub order : CommandType → ℕ → ℕ → ℕ → Command ℕ
order ty player sequence target = record {
  type = ty;
  player_id = player;
  sequence = sequence;
  timestamp_ms = 0;
  move_dir_x = 0;
  move_dir_y = 0;
  target_id = target;
  skill_id = pos 1;
  skill_target_x = 0;
  skill_target_y = 0;
}

-- Players 1, 2 and 3, at one place.
abbrev duel : Arena ℕ
duel = record {
  players =
      (1, new_player whole_numbers 1 "ann")
      ∷ (2, new_player whole_numbers 2 "bob")
      ∷ (3, new_player whole_numbers 3 "eve")
      ∷ [];
  last_seq = (1, 4) ∷ [];
  sent = [];
}

duel-AllSound : AllSound duel
unfolding find new_player
duel-AllSound k = ground arith

duel-IsFair : IsFair duel
unfolding total new_player
duel-IsFair = record { sound = duel-AllSound; balanced = refl }

process_commands-IsFair_example :
    IsFair (process_commands whole_numbers (order attack 1 5 2 ∷ order skill 2 1 2 ∷ []) duel)
process_commands-IsFair_example =
    process_commands-IsFair whole_numbers (order attack 1 5 2 ∷ order skill 2 1 2 ∷ []) duel
      duel-IsFair

process_command_twice_example :
    process_command whole_numbers
      (order attack 1 5 2)
      (process_command whole_numbers (order attack 1 5 2) duel)
    ≡ process_command whole_numbers (order attack 1 5 2) duel
process_command_twice_example = process_command_twice whole_numbers (order attack 1 5 2) duel
