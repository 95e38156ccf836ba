-- ===== src/Game/Matching.antt =====
-- src/game/match_manager.h and match_manager.cpp: players wait in a queue in Redis, and rooms are
-- formed of them. In `joinQueue`, a null pointer that is dereferenced is `none`. The queue's size is a
-- number (a Redis error counts as 0). The notify callback is set.
pub mod Forming
pub mod Joining
pub mod Valid
pub mod Queue
pub mod Places
pub mod Placing
pub mod Views
use miniarena.Prelude.{
  ℕ, zero, suc, ◌+◌, Option, none, some, List, [], ◌∷◌, ◌++◌, ltb, ◌==◌, if◌then◌else◌,
}
use miniarena.Prelude.Int.{ℤ, pos}
use miniarena.Game.Outcome.{
  Outcome, running, stopped, null_pointer, unfinished, storage_failed, and_then,
}
use miniarena.Game.Room.{RoomManager, create_room, get_room, update_room, add_player}
use miniarena.Game.Sessions.{
  Session, matching, in_lobby, in_room, Storage, SessionManager, get_by_player, set_state,
  set_match_mode, set_current_room, answered, fails,
}

-- `MatchSuccessNotify`.
pub record MatchSuccess : Type 0 where
  pub player_id : ℕ
  pub room_id : ℕ

module _ (db : Storage) where
  open db use {push_match_queue, pop_match_queue, match_queue_size}

  -- What the match manager points to, and the notices sent.
  pub record Lobby : Type 0 where
    pub sessions : SessionManager db
    pub rooms : RoomManager
    pub notified : List MatchSuccess

  unfoldable pub queue_size : ℤ → Lobby → ℕ
  queue_size mode l = match_queue_size mode l.sessions.store

  unfoldable pub join_queue : ℕ → ℤ → Lobby → Option (ℕ × Lobby)
  join_queue player_id mode l =
      let m = record l.sessions { store = push_match_queue mode player_id l.sessions.store } in
      elim (get_by_player db player_id m) [
        | none ↦ none
        | some s ↦
            let n = (set_state db s.session_id matching m).1 in
            elim (get_by_player db player_id n) [
              | none ↦ none
              | some t ↦ some (0, record l { sessions = (set_match_mode db t.session_id mode n).1 })
            ]
      ]

  unfoldable pub leave_queue : ℕ → Lobby → ℕ × Lobby
  leave_queue player_id l = elim (get_by_player db player_id l.sessions) [
    | none ↦ (0, l)
    | some s ↦
        let n = (set_state db s.session_id in_lobby l.sessions).1 in
        (0, record l { sessions = (set_match_mode db s.session_id (pos 0) n).1 })
  ]

  -- One player that is taken off the queue goes to the room.
  unfoldable pub place_player : ℕ → ℕ → Lobby → Outcome Lobby
  place_player room_id pid l = elim (get_by_player db pid l.sessions) [
    | none ↦ running l
    | some s ↦ elim (get_room room_id l.rooms) [
      | none ↦ stopped null_pointer
      | some room ↦
          let m = (set_state db s.session_id in_room l.sessions).1 in
          running (record {
            sessions = (set_current_room db s.session_id room_id m).1;
            rooms = update_room room_id (λ r. (add_player pid s.username r).1) l.rooms;
            notified = l.notified ++ (record { player_id = pid; room_id = room_id } ∷ []);
          })
    ]
  ]

  -- `for (int i = 0; i < room_size_; ++i)`, for the rounds that are left.
  unfoldable pub fill_room : ℕ → ℤ → ℕ → Lobby → Outcome Lobby
  fill_room zero mode room_id l = running l
  fill_room (suc i) mode room_id l = elim (pop_match_queue mode l.sessions.store) [
    | fails ↦ stopped storage_failed
    | answered r ↦
        let n = record l { sessions = record l.sessions { store = r.1 } } in
        elim r.0 [
          | none ↦ running n
          | some pid ↦ and_then (place_player room_id pid n) (fill_room i mode room_id)
        ]
  ]

  -- `while (true)`, with fuel for its rounds. It returns `total_formed`.
  unfoldable pub try_match : ℕ → ℕ → ℤ → ℕ → Lobby → Outcome (ℕ × Lobby)
  try_match zero room_size mode total_formed l = stopped unfinished
  try_match (suc fuel) room_size mode total_formed l =
      let (room_id, rooms) = create_room room_size l.rooms in
      let more =
        and_then (fill_room room_size mode room_id (record l { rooms = rooms }))
          (try_match fuel room_size mode (total_formed + 1)) in
      if ltb (queue_size mode l) room_size then running (total_formed, l) else more
