-- ===== src/Game/Matching/Joining.antt =====
-- `joinQueue` of src/game/match_manager.cpp, and the session of the player.
use miniarena.Prelude.{ℕ, ◌≡◌, refl, ap, sym, ◌∙◌, some, arith}
use miniarena.Prelude.Int.{ℤ}
use miniarena.Prelude.Dict.{find, modify, nat_eq, find-modify}
use miniarena.Game.Sessions.{
  Session, matching, Storage, SessionManager, change_and_save, set_state, set_match_mode,
  get_by_player, get_by_session,
}
use miniarena.Game.Sessions.Valid.{IsValid}
use miniarena.Game.Sessions.Lookup.{get_by_player_iff}
use miniarena.Game.Matching.{Lobby, join_queue}

module _ {db : Storage} where
  pub found_by_player :
      (m : SessionManager db) (p : ℕ) (s : Session)
      → IsValid m
      → get_by_player db p m ≡ some s
      → (find p m.player_map ≡ some s.session_id) × (find s.session_id m.sessions ≡ some s)
  unfolding get_by_player get_by_session
  found_by_player m p s v e =
      let h = (get_by_player_iff m p s v).0 e in
      (ap (λ q. find q m.player_map) (sym h.1) ∙ ground (arith, h.0, v.listed s.session_id), h.0)

  -- A change of a session, as its player sees it.
  changed_by_player :
      (m : SessionManager db) (p sid : ℕ) (s : Session) (f : Session → Session) (store : db.Store)
      → find p m.player_map ≡ some sid
      → find sid m.sessions ≡ some s
      → get_by_player db p (record m { sessions = modify sid f m.sessions; store = store })
        ≡ some (f s)
  unfolding get_by_player
  changed_by_player m p sid s f store e g =
      rw (e, get_by_player) (ground (arith, g, find-modify sid sid f m.sessions))

  -- `setState` and `setMatchMode` on the session of a player, as the player sees it.
  state_seen :
      (m : SessionManager db) (p sid : ℕ) (s : Session)
      → find p m.player_map ≡ some sid
      → find sid m.sessions ≡ some s
      → let n = (set_state db sid matching m).1 in
        (get_by_player db p n ≡ some (record s { state = matching }))
        × (find p n.player_map ≡ some sid)
        × (find sid n.sessions ≡ some (record s { state = matching }))
  unfolding set_state change_and_save
  state_seen m p sid s e g =
      rw (g, change_and_save)
        (
          changed_by_player m p sid s _ _ e g,
          e,
          ground (arith, g, find-modify sid sid (λ t. record t { state = matching }) m.sessions),
        )

  mode_seen :
      (m : SessionManager db) (p sid : ℕ) (mode : ℤ) (s : Session)
      → find p m.player_map ≡ some sid
      → find sid m.sessions ≡ some s
      → get_by_player db p (set_match_mode db sid mode m).1 ≡ some (record s { match_mode = mode })
  unfolding set_match_mode
  mode_seen m p sid mode s e g = rw (g, set_match_mode) (changed_by_player m p sid s _ m.store e g)

  -- When a player has a session in a valid session manager, `joinQueue` dereferences no null pointer; it
  -- returns 0, and the player's session is then the same, except that it is matching in that mode.
  pub join_queue_lem :
      (l : Lobby db) (p : ℕ) (mode : ℤ) (s : Session)
      → IsValid l.sessions
      → get_by_player db p l.sessions ≡ some s
      → (d : Lobby db) × (join_queue db p mode l ≡ some (0, d))
        × (get_by_player db p d.sessions ≡ some (record s { state = matching; match_mode = mode }))
  unfolding join_queue get_by_player
  join_queue_lem l p mode s v e =
      let f = found_by_player l.sessions p s v e in
      let m = record l.sessions { store = db.push_match_queue mode p l.sessions.store } in
      let sid = s.session_id in
      let g : get_by_player db p m ≡ some s = seen m f.0 f.1 in
      let a = state_seen m p sid s f.0 f.1 in
      let n = (set_state db sid matching m).1 in
      (
        record l { sessions = (set_match_mode db sid mode n).1 },
        rw (g, join_queue) (rw a.0 refl),
        mode_seen n p sid mode (record s { state = matching }) a.1 a.2,
      )
    where
      seen :
          (m : SessionManager db)
          → find p m.player_map ≡ some s.session_id
          → find s.session_id m.sessions ≡ some s
          → get_by_player db p m ≡ some s
      seen m a b = rw (a, get_by_player) b
