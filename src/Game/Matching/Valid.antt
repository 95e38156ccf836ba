-- ===== src/Game/Matching/Valid.antt =====
-- The session manager stays valid when a player joins or leaves the queue of src/game/match_manager.cpp.
use miniarena.Prelude.{ℕ, refl, Option, none, some, Option-cases, inl, inr}
use miniarena.Prelude.Int.{ℤ, pos}
use miniarena.Game.Sessions.{
  SessionState, matching, in_lobby, Storage, SessionManager, set_state, set_current_room,
  set_match_mode, get_by_player,
}
use miniarena.Game.Sessions.Valid.{IsValid, same_maps-IsValid}
use miniarena.Game.Sessions.Operations.{handle, handle-IsValid, to_state, to_room, to_mode}
use miniarena.Game.Matching.{Lobby, join_queue, leave_queue}

module _ {db : Storage} where
  pub set_state-IsValid :
      (sid : ℕ) (state : SessionState) (m : SessionManager db)
      → IsValid m
      → IsValid (set_state db sid state m).1
  unfolding handle
  set_state-IsValid sid state m v = handle-IsValid (to_state sid state) m tt v

  pub set_current_room-IsValid :
      (sid room_id : ℕ) (m : SessionManager db)
      → IsValid m
      → IsValid (set_current_room db sid room_id m).1
  unfolding handle
  set_current_room-IsValid sid room_id m v = handle-IsValid (to_room sid room_id) m tt v

  set_match_mode-IsValid :
      (sid : ℕ) (mode : ℤ) (m : SessionManager db)
      → IsValid m
      → IsValid (set_match_mode db sid mode m).1
  unfolding handle
  set_match_mode-IsValid sid mode m v = handle-IsValid (to_mode sid mode) m tt v

  pub store-IsValid :
      (m : SessionManager db) (store : db.Store) → IsValid m → IsValid (record m { store = store })
  store-IsValid m store v = same_maps-IsValid m (record m { store = store }) refl refl refl v

  -- The lobby that an operation returns, if it returns one, has a valid session manager.
  abbrev pub Returned : Option (ℕ × Lobby db) → Type 0
  Returned none = Unit {0}
  Returned (some r) = IsValid r.1.sessions

  pub join_queue-IsValid :
      (p : ℕ) (mode : ℤ) (l : Lobby db) → IsValid l.sessions → Returned (join_queue db p mode l)
  unfolding join_queue
  join_queue-IsValid p mode l v =
      let m = record l.sessions { store = db.push_match_queue mode p l.sessions.store } in
      let mv = store-IsValid l.sessions (db.push_match_queue mode p l.sessions.store) v in
      elim (Option-cases (get_by_player db p m)) [
        | inl e ↦ rw (e, join_queue) tt
        | inr (s, e) ↦
            let n = (set_state db s.session_id matching m).1 in
            elim (Option-cases (get_by_player db p n)) [
              | inl f ↦ rw (e, join_queue) (rw f tt)
              | inr (t, f) ↦
                  rw (e, join_queue)
                    (rw f (
                      set_match_mode-IsValid t.session_id mode n
                        (set_state-IsValid s.session_id matching m mv)))
            ]
      ]

  pub leave_queue-IsValid :
      (p : ℕ) (l : Lobby db) → IsValid l.sessions → IsValid (leave_queue db p l).1.sessions
  unfolding leave_queue
  leave_queue-IsValid p l v = elim (Option-cases (get_by_player db p l.sessions)) [
    | inl e ↦ rw (e, leave_queue) v
    | inr (s, e) ↦
        rw (e, leave_queue)
          (set_match_mode-IsValid s.session_id (pos 0) _
            (set_state-IsValid s.session_id in_lobby l.sessions v))
  ]
