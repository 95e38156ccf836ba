-- ===== src/Tests/Logins.antt =====
-- The theorems on src/game/session_manager.cpp, applied to a manager with one session. The store is a
-- list of players; the calls whose effect is not read leave it alone.
use miniarena.Prelude.{
  ℕ, ◌≡◌, ◌≢◌, refl, Option, none, some, List, [], ◌∷◌, arith, if◌then◌else◌, String,
}
use text.Mathlib.Text.{◌==◌ as str_eq}
use miniarena.Prelude.Dict.{find, insert, modify, erase, nat_eq}
use miniarena.Game.Sessions.{
  Session, authenticated, in_battle, in_lobby, Storage, PlayerRecord, SessionManager,
  empty_sessions, login, cleanup_expired, mark_disconnected, try_reconnect, get_by_conn,
  get_by_player, get_by_session, fetch_player, open_session, kick_duplicate, drop_session, logout,
  save_to_redis, change_and_save, answered, admit, fetch_cached, LoginResult,
}
use miniarena.Prelude.Int.{pos}
use miniarena.Game.Sessions.Valid.{IsValid}
use miniarena.Game.Sessions.Expiry.{kept, cleanup_expired_lem}
use miniarena.Game.Sessions.Operations.{
  Request, log_in, come_back, AreFresh, run_all, player_has_one_session, lose, handle,
  handle-IsValid,
}
use miniarena.Game.Sessions.Lookup.{login_lem}
use miniarena.Game.Sessions.Reconnect.{reconnect_in_time, reconnect_too_late}

abbrev by_name : String → List PlayerRecord → Option PlayerRecord
by_name name [] = none
by_name name (p ∷ ps) = if str_eq p.username name then some p else by_name name ps

abbrev table : Storage
table = record {
  Store = List PlayerRecord;
  get_player = λ name ps. answered (by_name name ps);
  create_player = λ name password ps. (0, ps);
  record_login = λ id ps. ps;
  save_battle_result = λ id room kills deaths dealt taken rank ps. ps;
  get_cached_player = λ name ps. answered none;
  cache_player = λ name id ps. ps;
  set_session = λ sid s ps. ps;
  del_session = λ sid ps. ps;
  set_online = λ id sid ps. ps;
  del_online = λ id ps. ps;
  push_match_queue = λ mode id ps. ps;
  pop_match_queue = λ mode ps. answered (none, ps);
  match_queue_size = λ mode ps. 0;
}

abbrev ann : PlayerRecord
ann = record { id = 5; username = "ann"; password_hash = "pw" }

abbrev online : Session
online = record {
  session_id = 77;
  player_id = 5;
  conn_id = 2;
  state = in_battle;
  username = "ann";
  login_time = 1000;
  last_active = 9000;
  current_room = 3;
  match_mode = pos 1;
}

abbrev manager : SessionManager table
manager = record {
  sessions = (77, online) ∷ [];
  conn_map = (2, 77) ∷ [];
  player_map = (5, 77) ∷ [];
  store = ann ∷ [];
  sent = [];
}

manager-IsValid : IsValid manager
unfolding find
manager-IsValid = record {
  distinct = (refl, tt);
  named = λ sid. ground arith;
  owner = λ p sid e. ground (arith, e);
  listed = λ sid. ground arith;
  on_conn = λ c sid e. ground (arith, e);
}

handle-IsValid_example : IsValid (handle (lose 2 9500) manager)
handle-IsValid_example = handle-IsValid (lose 2 9500) manager tt manager-IsValid

cleanup_expired_lem_example :
    IsValid (cleanup_expired table 5000000 manager)
    × ((j : ℕ)
        → find j (cleanup_expired table 5000000 manager).sessions
          ≡ kept 5000000 (find j manager.sessions))
cleanup_expired_lem_example = cleanup_expired_lem 5000000 manager manager-IsValid

at_77 : find 77 manager.sessions ≡ some online
unfolding find
at_77 = refl

on_2 : get_by_conn table 2 manager ≡ some online
unfolding get_by_conn find
on_2 = refl

abbrev visits : List Request
visits =
    log_in 2 "ann" "pw" 77 1000
    ∷ lose 2 2000
    ∷ come_back 77 3 4000
    ∷ log_in 4 "ann" "pw" 78 5000
    ∷ []

visits-AreFresh : AreFresh visits (empty_sessions table (ann ∷ []))
unfolding handle login admit fetch_cached kick_duplicate drop_session logout save_to_redis
    fetch_player open_session find insert empty_sessions mark_disconnected try_reconnect get_by_conn
    change_and_save modify erase
visits-AreFresh = (refl, (tt, (tt, (refl, tt))))

abbrev last_visit : Session
last_visit = record {
  session_id = 78;
  player_id = 5;
  conn_id = 4;
  state = authenticated;
  username = "ann";
  login_time = 5000;
  last_active = 5000;
  current_room = 0;
  match_mode = pos 0;
}

at_78 : find 78 (run_all visits (empty_sessions table (ann ∷ []))).sessions ≡ some last_visit
unfolding run_all handle login admit fetch_cached kick_duplicate drop_session logout save_to_redis
    fetch_player open_session find insert empty_sessions mark_disconnected try_reconnect get_by_conn
    change_and_save modify erase
at_78 = refl

player_has_one_session_example : last_visit.session_id ≡ 78
player_has_one_session_example =
    player_has_one_session table visits (ann ∷ []) visits-AreFresh 78 78 last_visit last_visit at_78
      at_78 refl

abbrev entered : Session
entered = record {
  session_id = 99;
  player_id = 5;
  conn_id = 4;
  state = authenticated;
  username = "ann";
  login_time = 9600;
  last_active = 9600;
  current_room = 0;
  match_mode = pos 0;
}

-- The manager after a login in place of the session on connection 2.
abbrev after : SessionManager table
after = record {
  sessions = (99, entered) ∷ [];
  conn_map = (4, 99) ∷ [];
  player_map = (5, 99) ∷ [];
  store = ann ∷ [];
  sent = record { conn_id = 2; msg_id = 1002; error_code = 20003 } ∷ [];
}

abbrev let_in : LoginResult
let_in = record { error_code = 0; session_id = 99; player_id = 5 }

logs_in : login table 4 "ann" "pw" 99 9600 manager ≡ answered (let_in, after)
unfolding login fetch_player fetch_cached admit open_session kick_duplicate find insert erase
    save_to_redis
logs_in = refl

login_lem_example :
    (s : Session) × (get_by_session table 99 after ≡ some s)
    × (get_by_player table 5 after ≡ some s)
    × (get_by_conn table 4 after ≡ some s)
    × (s.conn_id ≡ 4)
    × (s.state ≡ authenticated)
    × (s.last_active ≡ 9600)
login_lem_example = login_lem 4 "ann" "pw" 99 9600 manager after let_in logs_in refl

reconnect_in_time_example :
    let (r, n) = try_reconnect table 77 6 30000 (mark_disconnected table 2 9500 manager) in
    (r.error_code ≡ 0)
    × (r.session_id ≡ 77)
    × (r.player_id ≡ 5)
    × (get_by_conn table 6 n
        ≡ some (record online { conn_id = 6; state = in_lobby; last_active = 30000 }))
    × (online.conn_id ≢ 6 → get_by_conn table 2 n ≡ none)
reconnect_in_time_example =
    reconnect_in_time manager 2 6 9500 30000 online manager-IsValid on_2 (omega arith)

reconnect_too_late_example :
    let (r, n) = try_reconnect table 77 6 60000 (mark_disconnected table 2 9500 manager) in
    (r.error_code ≡ 20002) × (get_by_session table 77 n ≡ none) × (get_by_conn table 2 n ≡ none)
reconnect_too_late_example =
    reconnect_too_late manager 2 6 9500 60000 online manager-IsValid on_2 (omega arith)
