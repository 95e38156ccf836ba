-- ===== src/Tests/Servers.antt =====
-- The theorems on src/game/game_server.cpp, applied to a server with one player, whose messages are
-- serialized to nothing.
use miniarena.Prelude.{ℕ, ◌≡◌, refl, some, List, [], ◌∷◌}
use miniarena.Prelude.Int.{pos}
use miniarena.Prelude.Dict.{erase, nat_eq}
use miniarena.Network.FrameCodec.{Frame}
use miniarena.Game.Sessions.{mark_disconnected, try_reconnect}
use miniarena.Game.Battles.{new_manager}
use miniarena.Game.Battles.Fair.{make_workers-AllFair}
use miniarena.Game.Server.{
  Protocol, Server, running, with_sessions, send_response, reconnect_response,
}
use miniarena.Game.Server.Replies.{IsSafe}
use miniarena.Game.Server.Handlers.{on_reconnect}
use miniarena.Game.Server.Events.{
  Event, frame_in, hung_up, timer_round, worker_round, on_disconnect,
}
use miniarena.Game.Server.Gone.{on_disconnect_lem, on_reconnect_lem}
use miniarena.Tests.Battles.{whole_numbers}
use miniarena.Tests.Matches.{waiting, manager, manager-IsValid, hall}

abbrev plain : Protocol ℕ
plain = record {
  parse_login = λ xs. some ("ann", "pw");
  mode_of = λ xs. pos 0;
  room_of = λ xs. 1;
  parse_move = λ xs. some (1, 0);
  parse_attack = λ xs. some 6;
  parse_skill = λ xs. some (record { skill_id = pos 1; target_id = 6; target_x = 0; target_y = 0 });
  parse_reconnect = λ xs. some 77;
  serialize = λ r. [];
}

abbrev frame_of : ℕ → Frame
frame_of id = record { total_length = 18; message_id = id; flags = 0; sequence = 1; payload = [] }

-- The player of `hall`, in a battle.
abbrev server : Server waiting ℕ
server = record { lobby = hall; battles = new_manager ℕ 2; conn_to_loop = (2, 0) ∷ []; outbox = [] }

server-IsSafe : IsSafe server
unfolding new_manager
server-IsSafe = record { sessions = manager-IsValid; fair = make_workers-AllFair ℕ 2 0 }

abbrev events : List Event
events =
    frame_in 0 2 1000 78 (frame_of 2001)
    ∷ timer_round 1500
    ∷ worker_round 0 1550 50
    ∷ hung_up 2 1600
    ∷ []

on_disconnect_lem_example :
    on_disconnect whole_numbers plain 2 1600 server
    ≡ running (record server {
      conn_to_loop = erase 2 server.conn_to_loop;
      lobby = record hall { sessions = mark_disconnected waiting 2 1600 manager };
    })
on_disconnect_lem_example = on_disconnect_lem whole_numbers plain 2 1600 server server-IsSafe

on_reconnect_lem_example :
    let (r, m) = try_reconnect waiting 77 3 2000 manager in
    on_reconnect whole_numbers plain 2000 3 (frame_of 5001) server
    ≡ send_response plain 3 5002 (reconnect_response r.error_code) (with_sessions m server)
on_reconnect_lem_example =
    on_reconnect_lem whole_numbers plain 2000 3 77 (frame_of 5001) server refl
