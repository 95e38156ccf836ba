-- ===== src/Game/Sessions/Operations.antt =====
-- The operations of src/game/session_manager.cpp on the three maps, one call or several in a row.
use miniarena.Prelude.{
  ℕ, ◌≡◌, refl, Option, none, some, List, [], ◌∷◌, arith, ltb, String, Bool-cases, Option-cases,
  inl, inr,
}
use text.Mathlib.Text.{◌==◌ as str_eq}
use miniarena.Prelude.Int.{ℤ}
use miniarena.Prelude.Dict.{find, nat_eq, find-erase}
use miniarena.Game.Sessions.{
  Session, SessionState, LoginResult, Storage, SessionManager, empty_sessions, seconds_since,
  is_disconnected, reconnected, kick_duplicate, Answer, answered, fails, ◌>>=◌, PlayerRecord,
  fetch_player, admit, login, logout, heartbeat, change_and_save, set_state, set_current_room,
  set_match_mode, cleanup_expired, mark_disconnected, try_reconnect, get_by_conn,
}
use miniarena.Game.Sessions.Valid.{
  IsValid, drop_session-IsValid, change-IsValid, kick_duplicate-IsValid, same_maps-IsValid,
  empty_sessions-IsValid,
}
use miniarena.Game.Sessions.Opening.{open_session-IsValid, rebind-IsValid}
use miniarena.Game.Sessions.Expiry.{cleanup_expired_lem}

-- A call of the session manager.
pub data Request : Type 0 where
  log_in : ℕ → String → String → ℕ → ℕ → Request
  log_out : ℕ → Request
  beat : ℕ → ℕ → Request
  to_state : ℕ → SessionState → Request
  to_room : ℕ → ℕ → Request
  to_mode : ℕ → ℤ → Request
  clean_up : ℕ → Request
  lose : ℕ → ℕ → Request
  come_back : ℕ → ℕ → ℕ → Request

-- The random id of a new session is not in use.
abbrev pub IsFresh : Request → {db : Storage} → SessionManager db → Type 0
IsFresh (log_in conn name password sid now) m = find sid m.sessions ≡ none
IsFresh _ m = Unit {0}

module _ {db : Storage} where
  unfoldable pub handle : Request → SessionManager db → SessionManager db
  -- A login that fails ends the process before it has touched the maps.
  handle (log_in conn name password sid now) m = elim (login db conn name password sid now m) [
    | fails ↦ m
    | answered r ↦ r.1
  ]
  handle (log_out sid) m = logout db sid m
  handle (beat sid now) m = heartbeat db sid now m
  handle (to_state sid state) m = (set_state db sid state m).1
  handle (to_room sid room) m = (set_current_room db sid room m).1
  handle (to_mode sid mode) m = (set_match_mode db sid mode m).1
  handle (clean_up now) m = cleanup_expired db now m
  handle (lose conn now) m = mark_disconnected db conn now m
  handle (come_back sid conn now) m = (try_reconnect db sid conn now m).1

  logout-IsValid : (sid : ℕ) (m : SessionManager db) → IsValid m → IsValid (logout db sid m)
  unfolding logout
  logout-IsValid sid m v = elim (Option-cases (find sid m.sessions)) [
    | inl e ↦ rw (e, logout) v
    | inr (s, e) ↦ rw (e, logout) (drop_session-IsValid sid s m e v)
  ]

  change_and_save-IsValid :
      (sid : ℕ) (f : Session → Session) (m : SessionManager db)
      → ((s : Session) → (f s).session_id ≡ s.session_id)
      → ((s : Session) → (f s).player_id ≡ s.player_id)
      → ((s : Session) → (f s).conn_id ≡ s.conn_id)
      → IsValid m
      → IsValid (change_and_save db sid f m).1
  unfolding change_and_save
  change_and_save-IsValid sid f m a b c v = elim (Option-cases (find sid m.sessions)) [
    | inl e ↦ rw (e, change_and_save) v
    | inr (s, e) ↦ rw (e, change_and_save) (change-IsValid sid f m _ a b c v)
  ]

  set_match_mode-IsValid :
      (sid : ℕ) (mode : ℤ) (m : SessionManager db)
      → IsValid m
      → IsValid (set_match_mode db sid mode m).1
  unfolding set_match_mode
  set_match_mode-IsValid sid mode m v = elim (Option-cases (find sid m.sessions)) [
    | inl e ↦ rw (e, set_match_mode) v
    | inr (s, e) ↦
        rw (e, set_match_mode)
          (change-IsValid sid _ m m.store (λ s. refl) (λ s. refl) (λ s. refl) v)
  ]

  mark_disconnected-IsValid :
      (conn now : ℕ) (m : SessionManager db) → IsValid m → IsValid (mark_disconnected db conn now m)
  unfolding mark_disconnected
  mark_disconnected-IsValid conn now m v = elim (Option-cases (get_by_conn db conn m)) [
    | inl e ↦ rw (e, mark_disconnected) v
    | inr (s, e) ↦
        rw (e, mark_disconnected)
          (change_and_save-IsValid s.session_id _ m (λ s. refl) (λ s. refl) (λ s. refl) v)
  ]

  try_reconnect-IsValid :
      (sid conn now : ℕ) (m : SessionManager db)
      → IsValid m
      → IsValid (try_reconnect db sid conn now m).1
  unfolding try_reconnect
  try_reconnect-IsValid sid conn now m v = elim (Option-cases (find sid m.sessions)) [
    | inl e ↦ rw (e, try_reconnect) v
    | inr (s, e) ↦ elim (Bool-cases (is_disconnected s.state)) [
      | inr d ↦ rw (e, try_reconnect) (rw d v)
      | inl d ↦ elim (Bool-cases (ltb 30 (seconds_since now s.last_active))) [
        | inl l ↦ rw (e, try_reconnect) (rw (d, l) (logout-IsValid sid m v))
        | inr l ↦
            rw (e, try_reconnect)
              (rw (d, l) (rebind-IsValid sid conn s (reconnected conn now) m _ e refl refl refl v))
      ]
    ]
  ]

  -- The parts of a login that gets as far as a session.
  kick_fresh :
      (p sid : ℕ) (m : SessionManager db)
      → find sid m.sessions ≡ none
      → find sid (kick_duplicate db p m).sessions ≡ none
  unfolding kick_duplicate
  kick_fresh p sid m f = elim (Option-cases (find p m.player_map)) [
    | inl e ↦ rw (e, kick_duplicate) f
    | inr (old, e) ↦ elim (Option-cases (find old m.sessions)) [
      | inl g ↦ rw (e, kick_duplicate) (rw g f)
      | inr (s, g) ↦
          rw (e, kick_duplicate) (rw g (ground (arith, f, find-erase old sid m.sessions)))
    ]
  ]

  admit-IsValid :
      (conn : ℕ) (password : String) (sid now : ℕ) (o : Option PlayerRecord) (m : SessionManager db)
      → find sid m.sessions ≡ none
      → IsValid m
      → IsValid (admit db conn password sid now o m).1
  unfolding admit
  admit-IsValid conn password sid now none m f v = v
  admit-IsValid conn password sid now (some p) m f v =
      elim (Bool-cases (str_eq p.password_hash password)) [
        | inr b ↦ rw (b, admit) v
        | inl b ↦
            let k = kick_duplicate-IsValid p.id m v in
            rw (b, admit)
              (open_session-IsValid conn sid now p (kick_duplicate db p.id m)
                (kick_fresh p.id sid m f) k.1 k.0)
      ]

  -- The maps that a login leaves, if it ends.
  abbrev pub Admitted : Answer (LoginResult × SessionManager db) → Type 0
  Admitted fails = Unit {0}
  Admitted (answered r) = IsValid r.1

  pub login-IsValid :
      (conn : ℕ) (name password : String) (sid now : ℕ) (m : SessionManager db)
      → find sid m.sessions ≡ none
      → IsValid m
      → Admitted (login db conn name password sid now m)
  unfolding login
  login-IsValid conn name password sid now m f v = go (fetch_player db name password m.store)
    where
      go :
          (a : Answer (Option PlayerRecord × db.Store))
          → Admitted
              (a >>= λ r. answered (admit db conn password sid now r.0 (record m { store = r.1 })))
      go fails = tt
      go (answered r) =
          admit-IsValid conn password sid now r.0 (record m { store = r.1 }) f
            (same_maps-IsValid m (record m { store = r.1 }) refl refl refl v)

  ended-IsValid :
      (m : SessionManager db) (a : Answer (LoginResult × SessionManager db))
      → IsValid m
      → Admitted a
      → IsValid (elim a as (λ x. SessionManager db) [ fails ↦ m | answered r ↦ r.1 ])
  ended-IsValid m fails v h = v
  ended-IsValid m (answered r) v h = h

  -- Every operation keeps the maps of the session manager in agreement (each session stands under its
  -- own id, its player is mapped to it and to nothing else, and a mapped connection is mapped to a
  -- session on it), if a login draws a session id that is not in use.
  pub handle-IsValid :
      (o : Request) (m : SessionManager db) → IsFresh o m → IsValid m → IsValid (handle o m)
  unfolding handle heartbeat set_state set_current_room
  handle-IsValid (log_in conn name password sid now) m f v =
      ended-IsValid m (login db conn name password sid now m) v
        (login-IsValid conn name password sid now m f v)
  handle-IsValid (log_out sid) m f v = logout-IsValid sid m v
  handle-IsValid (beat sid now) m f v =
      change-IsValid sid _ m m.store (λ s. refl) (λ s. refl) (λ s. refl) v
  handle-IsValid (to_state sid state) m f v =
      change_and_save-IsValid sid _ m (λ s. refl) (λ s. refl) (λ s. refl) v
  handle-IsValid (to_room sid room) m f v =
      change_and_save-IsValid sid _ m (λ s. refl) (λ s. refl) (λ s. refl) v
  handle-IsValid (to_mode sid mode) m f v = set_match_mode-IsValid sid mode m v
  handle-IsValid (clean_up now) m f v = (cleanup_expired_lem now m v).0
  handle-IsValid (lose conn now) m f v = mark_disconnected-IsValid conn now m v
  handle-IsValid (come_back sid conn now) m f v = try_reconnect-IsValid sid conn now m v

  unfoldable pub run_all : List Request → SessionManager db → SessionManager db
  run_all [] m = m
  run_all (o ∷ os) m = run_all os (handle o m)

  -- Each login of the sequence draws an id that is not in use at that time.
  abbrev pub AreFresh : List Request → SessionManager db → Type 0
  AreFresh [] m = Unit {0}
  AreFresh (o ∷ os) m = IsFresh o m × AreFresh os (handle o m)

  run_all-IsValid :
      (os : List Request) (m : SessionManager db)
      → AreFresh os m
      → IsValid m
      → IsValid (run_all os m)
  unfolding run_all
  run_all-IsValid [] m f v = v
  run_all-IsValid (o ∷ os) m f v = run_all-IsValid os (handle o m) f.1 (handle-IsValid o m f.0 v)

-- After any sequence of operations on a new session manager, in which each login draws a session id
-- that is not in use, two sessions of one player are the same session.
pub player_has_one_session :
    (db : Storage) (os : List Request) (store : db.Store)
    → AreFresh os (empty_sessions db store)
    → let m = run_all os (empty_sessions db store) in
      (i j : ℕ) (s t : Session)
      → find i m.sessions ≡ some s
      → find j m.sessions ≡ some t
      → s.player_id ≡ t.player_id
      → i ≡ j
player_has_one_session db os store f i j s t e g h =
    let v = run_all-IsValid os (empty_sessions db store) f (empty_sessions-IsValid store) in
    ground (arith, e, g, h, v.listed i, v.listed j)
