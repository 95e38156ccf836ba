-- ===== src/Game/Sessions.antt =====
-- src/game/session.h, session_manager.h and session_manager.cpp: who is logged in, and on which
-- connection. MySQL and Redis are a parameter, `Storage`: a state with the operations that are
-- called. The clock and the random session id are arguments; times are in milliseconds. A message
-- is a value in place of its serialization.
pub mod Valid
pub mod Opening
pub mod Expiry
pub mod Operations
pub mod Lookup
pub mod Failing
pub mod Reconnect
use miniarena.Prelude.{
  ℕ, ◌-◌, ◌/◌, Bool, true, false, not, Option, none, some, List, [], ◌∷◌, ◌++◌, ltb, ◌==◌,
  if◌then◌else◌, String,
}
use text.Mathlib.Text.{◌==◌ as str_eq}
use miniarena.Prelude.Int.{ℤ, pos}
use miniarena.Prelude.Dict.{Dict, find, insert, erase, modify, nat_eq}

pub data SessionState : Type 0 where
  connected authenticated in_lobby matching in_room in_battle settlement disconnected : SessionState

pub record Session : Type 0 where
  pub session_id : ℕ
  pub player_id : ℕ
  pub conn_id : ℕ
  pub state : SessionState
  pub username : String
  pub login_time : ℕ
  pub last_active : ℕ
  pub current_room : ℕ
  pub match_mode : ℤ

-- The parts of the stored player that a login reads.
pub record PlayerRecord : Type 0 where
  pub id : ℕ
  pub username : String
  pub password_hash : String

-- What a read of MySQL or Redis gives. `fails` ends the process: `stoull` or `stoi` throws on a text,
-- and nobody catches it, or a reply of another type than expected is freed twice.
pub data Answer (A : Type 0) : Type 0 where
  answered : A → Answer A
  fails : Answer A

infixl 5 ◌>>=◌
abbrev pub ◌>>=◌ : {A B : Type 0} → Answer A → (A → Answer B) → Answer B
answered a >>= f = f a
fails >>= f = fails

-- MySQL and Redis: what the session manager and the match manager call of them. The commands that
-- write, and the size of a queue, get a reply of the expected type.
pub record Storage : Type 1 where
  pub Store : Type 0
  pub get_player : String → Store → Answer (Option PlayerRecord)
  -- 0 on failure
  pub create_player : String → String → Store → ℕ × Store
  pub record_login : ℕ → Store → Store
  -- the player, the room, and the figures of the battle
  pub save_battle_result : ℕ → ℕ → ℕ → ℕ → ℤ → ℤ → ℕ → Store → Store
  pub get_cached_player : String → Store → Answer (Option ℕ)
  pub cache_player : String → ℕ → Store → Store
  -- the fields that `saveToRedis` writes are those of the session
  pub set_session : ℕ → Session → Store → Store
  pub del_session : ℕ → Store → Store
  pub set_online : ℕ → ℕ → Store → Store
  pub del_online : ℕ → Store → Store
  -- the queue of the players that wait for a match in a mode
  pub push_match_queue : ℤ → ℕ → Store → Store
  pub pop_match_queue : ℤ → Store → Answer (Option ℕ × Store)
  pub match_queue_size : ℤ → Store → ℕ

pub record LoginResult : Type 0 where
  pub error_code : ℕ
  pub session_id : ℕ
  pub player_id : ℕ

-- `sendTo`: the connection, the message id and the error code in the message.
pub record Notice : Type 0 where
  pub conn_id : ℕ
  pub msg_id : ℕ
  pub error_code : ℕ

-- The session that `login` fills in.
abbrev pub new_session : ℕ → ℕ → ℕ → PlayerRecord → Session
new_session conn_id sid now p = record {
  session_id = sid;
  player_id = p.id;
  conn_id = conn_id;
  state = authenticated;
  username = p.username;
  login_time = now;
  last_active = now;
  current_room = 0;
  match_mode = pos 0;
}

abbrev pub failure : ℕ → LoginResult
failure code = record { error_code = code; session_id = 0; player_id = 0 }

abbrev pub seconds_since : ℕ → ℕ → ℕ
seconds_since now then_ms = (now - then_ms) / 1000

abbrev pub is_disconnected : SessionState → Bool
is_disconnected disconnected = true
is_disconnected _ = false

-- The restored session.
abbrev pub reconnected : ℕ → ℕ → Session → Session
reconnected new_conn_id now s = record s {
  conn_id = new_conn_id;
  state = in_lobby;
  last_active = now;
}

module _ (db : Storage) where
  open db use {
    Store, get_player, create_player, record_login, get_cached_player, cache_player, set_session,
    del_session, set_online, del_online,
  }

  pub record SessionManager : Type 0 where
    pub sessions : Dict ℕ Session
    pub conn_map : Dict ℕ ℕ
    pub player_map : Dict ℕ ℕ
    pub store : Store
    pub sent : List Notice

  unfoldable pub empty_sessions : Store → SessionManager
  empty_sessions store = record {
    sessions = [];
    conn_map = [];
    player_map = [];
    store = store;
    sent = [];
  }

  unfoldable pub save_to_redis : Session → Store → Store
  save_to_redis s store = set_online s.player_id s.session_id (set_session s.session_id s store)

  -- The erasing of a session `s` that stands under `session_id`, as `logout`, `cleanupExpired`.
  unfoldable pub drop_session : ℕ → Session → SessionManager → SessionManager
  drop_session session_id s m = record m {
    sessions = erase session_id m.sessions;
    conn_map = erase s.conn_id m.conn_map;
    player_map = erase s.player_id m.player_map;
    store = del_session session_id (del_online s.player_id m.store);
  }

  unfoldable pub logout : ℕ → SessionManager → SessionManager
  logout session_id m = elim (find session_id m.sessions) [
    | none ↦ m
    | some s ↦ drop_session session_id s m
  ]

  -- A session that is there is told, and erased; the player's entry goes in any case.
  unfoldable pub kick_duplicate : ℕ → SessionManager → SessionManager
  kick_duplicate player_id m = elim (find player_id m.player_map) [
    | none ↦ m
    | some old_sid ↦
        let k : SessionManager = elim (find old_sid m.sessions) [
          | none ↦ m
          | some s ↦ record m {
            sent =
                m.sent ++ (record { conn_id = s.conn_id; msg_id = 1002; error_code = 20003 } ∷ []);
            conn_map = erase s.conn_id m.conn_map;
            store = del_session old_sid (del_online s.player_id m.store);
            sessions = erase old_sid m.sessions;
          }
        ] in
        record k { player_map = erase player_id k.player_map }
  ]

  -- Step 1 of `login` when Redis knows the name: what MySQL has.
  unfoldable pub fetch_cached : String → Store → Answer (Option PlayerRecord)
  fetch_cached username store = do
    cached ← get_cached_player username store
    elim cached [ none ↦ answered none | some pid ↦ get_player username store ]

  -- Step 1 of `login` when MySQL does not have the player: the registration.
  unfoldable pub register_player : String → String → Store → Answer (Option PlayerRecord × Store)
  register_player username password store =
      let (pid, store1) = create_player username password store in
      let store2 = cache_player username pid store1 in
      if pid == 0
      then answered (none, store1)
      else (do found ← get_player username store2; answered (found, store2))

  -- Step 1 of `login`: the player's record, registered if need be; `none` is error 20001.
  unfoldable pub fetch_player : String → String → Store → Answer (Option PlayerRecord × Store)
  fetch_player username password store = do
    hit ← fetch_cached username store
    elim hit [
      | some p ↦ answered (some p, store)
      | none ↦ do
        found ← get_player username store
        elim found [
          | some p ↦ answered (some p, cache_player username p.id store)
          | none ↦ register_player username password store
        ]
    ]

  -- Step 4 of `login`.
  unfoldable pub open_session :
      ℕ → ℕ → ℕ → PlayerRecord → SessionManager → LoginResult × SessionManager
  open_session conn_id sid now p m =
      let s : Session = new_session conn_id sid now p in
      (
        record { error_code = 0; session_id = sid; player_id = p.id },
        record m {
          sessions = insert sid s m.sessions;
          conn_map = insert conn_id sid m.conn_map;
          player_map = insert p.id sid m.player_map;
          store = record_login p.id (save_to_redis s m.store);
        },
      )

  -- `login` from step 2 on, with what step 1 gave.
  unfoldable pub admit :
      ℕ → String → ℕ → ℕ → Option PlayerRecord → SessionManager → LoginResult × SessionManager
  admit conn_id password sid now none m = (failure 20001, m)
  admit conn_id password sid now (some p) m =
      if str_eq p.password_hash password
      then open_session conn_id sid now p (kick_duplicate p.id m)
      else (failure 20001, m)

  -- `sid` is the random number that `generateSessionId` returns.
  unfoldable pub login :
      ℕ → String → String → ℕ → ℕ → SessionManager → Answer (LoginResult × SessionManager)
  login conn_id username password sid now m = do
    r ← fetch_player username password m.store
    answered (admit conn_id password sid now r.0 (record m { store = r.1 }))

  unfoldable pub heartbeat : ℕ → ℕ → SessionManager → SessionManager
  heartbeat session_id now m = record m {
    sessions = modify session_id (λ s. record s { last_active = now }) m.sessions;
  }

  unfoldable pub get_by_session : ℕ → SessionManager → Option Session
  get_by_session session_id m = find session_id m.sessions

  unfoldable pub get_by_conn : ℕ → SessionManager → Option Session
  get_by_conn conn_id m = elim (find conn_id m.conn_map) [
    | none ↦ none
    | some sid ↦ find sid m.sessions
  ]

  unfoldable pub get_by_player : ℕ → SessionManager → Option Session
  get_by_player player_id m = elim (find player_id m.player_map) [
    | none ↦ none
    | some sid ↦ find sid m.sessions
  ]

  -- A change of the session under `session_id` through its pointer, saved to Redis.
  unfoldable pub change_and_save : ℕ → (Session → Session) → SessionManager → Bool × SessionManager
  change_and_save session_id f m = elim (find session_id m.sessions) [
    | none ↦ (false, m)
    | some s ↦ (
      true,
      record m { sessions = modify session_id f m.sessions; store = save_to_redis (f s) m.store },
    )
  ]

  unfoldable pub set_state : ℕ → SessionState → SessionManager → Bool × SessionManager
  set_state session_id new_state = change_and_save session_id (λ s. record s { state = new_state })

  unfoldable pub set_current_room : ℕ → ℕ → SessionManager → Bool × SessionManager
  set_current_room session_id room_id =
      change_and_save session_id (λ s. record s { current_room = room_id })

  -- Not saved to Redis.
  unfoldable pub set_match_mode : ℕ → ℤ → SessionManager → Bool × SessionManager
  set_match_mode session_id mode m = elim (find session_id m.sessions) [
    | none ↦ (false, m)
    | some s ↦ (
      true,
      record m { sessions = modify session_id (λ t. record t { match_mode = mode }) m.sessions },
    )
  ]

  -- The loop of `cleanupExpired`, over the sessions that the map held at its start.
  unfoldable pub cleanup_loop : ℕ → Dict ℕ Session → SessionManager → SessionManager
  cleanup_loop now [] m = m
  cleanup_loop now ((sid, s) ∷ rest) m =
      cleanup_loop now rest
        (if ltb 3600 (seconds_since now s.last_active) then drop_session sid s m else m)

  unfoldable pub cleanup_expired : ℕ → SessionManager → SessionManager
  cleanup_expired now m = cleanup_loop now m.sessions m

  unfoldable pub mark_disconnected : ℕ → ℕ → SessionManager → SessionManager
  mark_disconnected conn_id now m = elim (get_by_conn conn_id m) [
    | none ↦ m
    | some s ↦
        let f = λ (t : Session). record t { state = disconnected; last_active = now } in
        (change_and_save s.session_id f m).1
  ]

  unfoldable pub try_reconnect : ℕ → ℕ → ℕ → SessionManager → LoginResult × SessionManager
  try_reconnect session_id new_conn_id now m = elim (find session_id m.sessions) [
    | none ↦ (failure 20002, m)
    | some s ↦
        if not (is_disconnected s.state)
        then (failure 20003, m)
        else if ltb 30 (seconds_since now s.last_active)
        then (failure 20002, logout session_id m)
        else (
          record { error_code = 0; session_id = session_id; player_id = s.player_id },
          record m {
            sessions = modify session_id (reconnected new_conn_id now) m.sessions;
            conn_map = insert new_conn_id session_id (erase s.conn_id m.conn_map);
            store = save_to_redis (reconnected new_conn_id now s) m.store;
          },
        )
  ]
