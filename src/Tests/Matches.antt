-- ===== src/Tests/Matches.antt =====
-- The theorems on src/game/match_manager.cpp and broadcaster.cpp, applied to a queue of three players and
-- to three messages. The queue is a list, for all modes.
use miniarena.Prelude.{
  ℕ, ◌<◌, ◌≡◌, refl, ap, true, Option, none, some, List, [], ◌∷◌, ◌++◌, arith, length,
}
use miniarena.Prelude.Dict.{find}
use miniarena.Game.Room.{empty_rooms}
use miniarena.Game.Sessions.{Answer, answered, fails, Session, in_lobby, Storage, SessionManager}
use miniarena.Game.Sessions.Valid.{IsValid}
use miniarena.Game.Matching.{Lobby, try_match, queue_size}
use miniarena.Game.Matching.Queue.{QueueLaws}
use miniarena.Game.Matching.Forming.{Matched, try_match_lem}
use miniarena.Game.Outcome.{running}
use miniarena.Prelude.Int.{pos}
use miniarena.Game.Broadcaster.{Sending, Broadcaster, flush_overrides}
use miniarena.Game.Broadcaster.Latest.{sent_to, last_for, queue_all, as_list, flush_lem}

abbrev popped : List ℕ → Answer (Option ℕ × List ℕ)
popped [] = fails
popped (p ∷ ps) = answered (some p, ps)

abbrev pub waiting : Storage
waiting = record {
  Store = List ℕ;
  get_player = λ name q. answered none;
  create_player = λ name password q. (0, q);
  record_login = λ id q. q;
  save_battle_result = λ id room kills deaths dealt taken rank q. q;
  get_cached_player = λ name q. answered none;
  cache_player = λ name id q. q;
  set_session = λ sid s q. q;
  del_session = λ sid q. q;
  set_online = λ id sid q. q;
  del_online = λ id q. q;
  push_match_queue = λ mode id q. q ++ (id ∷ []);
  pop_match_queue = λ mode q. popped q;
  match_queue_size = λ mode q. length q;
}

pub pop_first :
    (p : ℕ) (ps q : List ℕ)
    → q ≡ p ∷ ps
    → (t : List ℕ) × (popped q ≡ answered (some p, t)) × (t ≡ ps)
pop_first p ps q e = (ps, ap popped e, refl)

abbrev pub waiting-QueueLaws : QueueLaws waiting
waiting-QueueLaws = record {
  waiting = λ mode q. q;
  queue_size_law = λ mode q. refl;
  pop_law = λ mode p ps q e. pop_first p ps q e;
  set_session_law = λ mode sid s q. refl;
  set_online_law = λ mode p sid q. refl;
}

abbrev idle : Session
idle = record {
  session_id = 77;
  player_id = 5;
  conn_id = 2;
  state = in_lobby;
  username = "ann";
  login_time = 1000;
  last_active = 9000;
  current_room = 0;
  match_mode = pos 0;
}

abbrev pub manager : SessionManager waiting
manager = record {
  sessions = (77, idle) ∷ [];
  conn_map = (2, 77) ∷ [];
  player_map = (5, 77) ∷ [];
  store = 5 ∷ 6 ∷ 7 ∷ [];
  sent = [];
}

pub manager-IsValid : IsValid manager
unfolding find
manager-IsValid = record {
  distinct = (refl, tt);
  named = λ sid. ground arith;
  owner = λ p sid e. ground (arith, e);
  listed = λ sid. ground arith;
  on_conn = λ c sid e. ground (arith, e);
}

abbrev pub hall : Lobby waiting
hall = record { sessions = manager; rooms = empty_rooms; notified = [] }

short_queue : queue_size waiting (pos 0) hall < 4
unfolding queue_size
short_queue = omega arith

-- Player 5, who has a session, is the first in the queue.
try_match_lem_example :
    (n : ℕ) × (d : Lobby waiting) × (try_match waiting 4 2 (pos 0) 0 hall ≡ running (n, d))
    × Matched waiting-QueueLaws n 2 (pos 0) 5 (5 ∷ 6 ∷ 7 ∷ []) hall d
try_match_lem_example =
    try_match_lem waiting-QueueLaws 4 2 (pos 0) 5 hall (omega arith) manager-IsValid short_queue

abbrev messages : List (Sending ℕ)
messages =
    record { player_id = 1; msg_id = 4004; payload = 10 }
    ∷ record { player_id = 2; msg_id = 4004; payload = 20 }
    ∷ record { player_id = 1; msg_id = 4006; payload = 11 }
    ∷ []

abbrev quiet : Broadcaster ℕ
quiet = record { has_callback = true; sent = []; overrides = [] }

flush_lem_example :
    let c = flush_overrides (queue_all messages quiet) in
    (sent_to 1 c.sent ≡ sent_to 1 quiet.sent ++ as_list (last_for 1 messages none))
    × (c.overrides ≡ [])
flush_lem_example = flush_lem messages quiet 1 refl refl
