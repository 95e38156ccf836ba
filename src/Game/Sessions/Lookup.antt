-- ===== src/Game/Sessions/Lookup.antt =====
-- What the lookups of a valid session manager return, after a login and after a lost connection.
use miniarena.Prelude.{
  ℕ, ◌≡◌, ◌↔◌, ◌⊎◌, refl, ap, sym, subst, ◌∙◌, Option, none, some, arith, String, Bool-cases,
  Option-cases, inl, inr,
}
use text.Mathlib.Text.{◌==◌ as str_eq}
use miniarena.Prelude.Dict.{find, nat_eq, find-insert_self}
use miniarena.Game.Sessions.{
  Session, authenticated, Storage, PlayerRecord, SessionManager, new_session, kick_duplicate,
  fetch_player, open_session, admit, login, LoginResult, Answer, answered, fails, ◌>>=◌,
  get_by_conn, get_by_player, get_by_session,
}
use miniarena.Game.Sessions.Valid.{IsValid}

module _ {db : Storage} where
  pub found_by_conn :
      (m : SessionManager db) (c : ℕ) (s : Session)
      → IsValid m
      → get_by_conn db c m ≡ some s
      → (find c m.conn_map ≡ some s.session_id)
        × (find s.session_id m.sessions ≡ some s)
        × (s.conn_id ≡ c)
  unfolding get_by_conn
  found_by_conn m c s v e = elim (Option-cases (find c m.conn_map)) [
    | inl n ↦ absurd (ground (arith, e, n))
    | inr (sid, f) ↦
        let g : find sid m.sessions ≡ some s = ground (arith, e, f) in
        let k : s.session_id ≡ sid = ground (arith, g, v.named sid) in
        (
          f ∙ ap some (sym k),
          ap (λ i. find i m.sessions) k ∙ g,
          ground (arith, f, g, v.on_conn c sid),
        )
  ]

  -- In a valid session manager the lookup by player returns exactly the session of that player that
  -- stands in the map of sessions under its own id.
  pub get_by_player_iff :
      (m : SessionManager db) (p : ℕ) (s : Session)
      → IsValid m
      → (get_by_player db p m ≡ some s)
        ↔ ((get_by_session db s.session_id m ≡ some s) × (s.player_id ≡ p))
  unfolding get_by_player get_by_session
  get_by_player_iff m p s v =
      ((λ e. forth e (Option-cases (find p m.player_map))), (λ h. back h.0 h.1))
    where
      forth :
          get_by_player db p m ≡ some s
          → (find p m.player_map ≡ none) ⊎ ((sid : ℕ) × (find p m.player_map ≡ some sid))
          → (find s.session_id m.sessions ≡ some s) × (s.player_id ≡ p)
      forth e (inl n) = absurd (ground (arith, e, n))
      forth e (inr (sid, f)) =
          let g : find sid m.sessions ≡ some s = ground (arith, e, f) in
          let k : s.session_id ≡ sid = ground (arith, g, v.named sid) in
          (ap (λ i. find i m.sessions) k ∙ g, ground (arith, f, g, v.owner p sid))

      back : find s.session_id m.sessions ≡ some s → s.player_id ≡ p → get_by_player db p m ≡ some s
      back e h =
          let l : find s.player_id m.player_map ≡ some s.session_id =
            ground (arith, e, v.listed s.session_id) in
          let k : find p m.player_map ≡ some s.session_id = rw h at l in rw (k, get_by_player) e

  opened :
      (conn sid now : ℕ) (p : PlayerRecord) (m : SessionManager db)
      → let (r, n) = open_session db conn sid now p m in
        (get_by_session db r.session_id n ≡ some (new_session conn sid now p))
        × (get_by_player db r.player_id n ≡ some (new_session conn sid now p))
        × (get_by_conn db conn n ≡ some (new_session conn sid now p))
  unfolding open_session get_by_session get_by_player get_by_conn
  opened conn sid now p m =
      let s = find-insert_self sid (new_session conn sid now p) m.sessions in
      (
        s,
        rw (find-insert_self p.id sid m.player_map, get_by_player) s,
        rw (find-insert_self conn sid m.conn_map, get_by_conn) s,
      )

  -- What a login gives that succeeds.
  abbrev Opened : ℕ → ℕ → LoginResult × SessionManager db → Type 0
  Opened conn now (r, n) =
      r.error_code ≡ 0
      → (s : Session) × (get_by_session db r.session_id n ≡ some s)
        × (get_by_player db r.player_id n ≡ some s)
        × (get_by_conn db conn n ≡ some s)
        × (s.conn_id ≡ conn)
        × (s.state ≡ authenticated)
        × (s.last_active ≡ now)

  admit-Opened :
      (conn : ℕ) (password : String) (sid now : ℕ) (o : Option PlayerRecord) (m : SessionManager db)
      → Opened conn now (admit db conn password sid now o m)
  unfolding admit
  admit-Opened conn password sid now none m = λ h. absurd (ground (arith, h))
  admit-Opened conn password sid now (some p) m =
      elim (Bool-cases (str_eq p.password_hash password)) [
        | inr b ↦ rw (b, admit) (λ h. absurd (ground (arith, h)))
        | inl b ↦
            let o = opened conn sid now p (kick_duplicate db p.id m) in
            rw (b, admit) (λ h. (new_session conn sid now p, o.0, o.1, o.2, refl, refl, refl))
      ]

  abbrev AllOpened : ℕ → ℕ → Answer (LoginResult × SessionManager db) → Type 0
  AllOpened conn now fails = Unit {0}
  AllOpened conn now (answered r) = Opened conn now r

  login-Opened :
      (conn : ℕ) (name password : String) (sid now : ℕ) (m : SessionManager db)
      → AllOpened conn now (login db conn name password sid now m)
  unfolding login
  login-Opened conn name password sid now m = go (fetch_player db name password m.store)
    where
      go :
          (a : Answer (Option PlayerRecord × db.Store))
          → AllOpened conn now
              (a >>= λ r. answered (admit db conn password sid now r.0 (record m { store = r.1 })))
      go fails = tt
      go (answered r) = admit-Opened conn password sid now r.0 (record m { store = r.1 })

  -- A login that succeeds gives a session id under which there is a session; the lookups by the player
  -- and by the connection return the same one; it is on that connection, authenticated, and was
  -- active now.
  pub login_lem :
      (conn : ℕ) (name password : String) (sid now : ℕ) (m n : SessionManager db) (r : LoginResult)
      → login db conn name password sid now m ≡ answered (r, n)
      → r.error_code ≡ 0
      → (s : Session) × (get_by_session db r.session_id n ≡ some s)
        × (get_by_player db r.player_id n ≡ some s)
        × (get_by_conn db conn n ≡ some s)
        × (s.conn_id ≡ conn)
        × (s.state ≡ authenticated)
        × (s.last_active ≡ now)
  login_lem conn name password sid now m n r e h =
      let o : Opened conn now (r, n) =
        subst (AllOpened conn now) e (login-Opened conn name password sid now m) in
      o h
