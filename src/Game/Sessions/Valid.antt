-- ===== src/Game/Sessions/Valid.antt =====
-- The three maps of the session manager agree: the invariant, and the parts of the operations that
-- keep it.
use miniarena.Prelude.{
  ℕ, ◌≡◌, refl, ap, sym, ◌∙◌, Bool, true, false, Option, none, some, arith, ◌==◌, if◌then◌else◌,
  Option-cases, inl, inr,
}
use miniarena.Prelude.Dict.{
  Dict, find, erase, modify, nat_eq, map_option, Distinct, find-erase, find-modify,
}
use miniarena.Prelude.Dict.Total.{erase-Distinct, modify-Distinct}
use miniarena.Game.Sessions.{
  Session, Storage, SessionManager, empty_sessions, drop_session, kick_duplicate,
}

-- The session under `sid`, if there is one, carries that id.
abbrev pub Named : ℕ → Option Session → Type 0
Named sid none = Unit {0}
Named sid (some s) = s.session_id ≡ sid

-- There is a session, of that player, or on that connection.
abbrev pub OfPlayer : ℕ → Option Session → Type 0
OfPlayer p none = ⊥
OfPlayer p (some s) = s.player_id ≡ p

abbrev pub OnConn : ℕ → Option Session → Type 0
OnConn c none = ⊥
OnConn c (some s) = s.conn_id ≡ c

-- The player of the session under `sid`, if there is one, is mapped to `sid`.
abbrev pub Listed : ℕ → Dict ℕ ℕ → Option Session → Type 0
Listed sid m none = Unit {0}
Listed sid m (some s) = find s.player_id m ≡ some sid

-- Each player of a session is mapped to it and to nothing else; each connection that is mapped is
-- mapped to a session on it.
pub record IsValid {db : Storage} (m : SessionManager db) : Type 0 where
  pub distinct : Distinct m.sessions
  pub named : (sid : ℕ) → Named sid (find sid m.sessions)
  pub owner : (p sid : ℕ) → find p m.player_map ≡ some sid → OfPlayer p (find sid m.sessions)
  pub listed : (sid : ℕ) → Listed sid m.player_map (find sid m.sessions)
  pub on_conn : (c sid : ℕ) → find c m.conn_map ≡ some sid → OnConn c (find sid m.sessions)

find-OfPlayer :
    (p : ℕ) (o : Option Session) → OfPlayer p o → (s : Session) × (o ≡ some s) × (s.player_id ≡ p)
find-OfPlayer p none h = absurd h
find-OfPlayer p (some s) h = (s, refl, h)

module _ {db : Storage} where
  pub empty_sessions-IsValid : (store : db.Store) → IsValid (empty_sessions db store)
  unfolding empty_sessions find
  empty_sessions-IsValid store = record {
    distinct = tt;
    named = λ sid. tt;
    owner = λ p sid e. cc;
    listed = λ sid. tt;
    on_conn = λ c sid e. cc;
  }

  pub drop_session-IsValid :
      (sid : ℕ) (s : Session) (m : SessionManager db)
      → find sid m.sessions ≡ some s
      → IsValid m
      → IsValid (drop_session db sid s m)
  unfolding drop_session
  drop_session-IsValid sid s m e v = record {
    distinct = erase-Distinct sid m.sessions v.distinct;
    named = λ j. ground (arith, find-erase sid j m.sessions, v.named j);
    owner = λ p j h. ground (
      arith,
      h,
      e,
      find-erase sid j m.sessions,
      find-erase s.player_id p m.player_map,
      v.owner p j,
    );
    listed = λ j. listed_lem j (find j m.sessions) refl;
    on_conn = λ c j h. ground (
      arith,
      h,
      e,
      find-erase sid j m.sessions,
      find-erase s.conn_id c m.conn_map,
      v.on_conn c j,
    );
  }
    where
      listed_lem :
          (j : ℕ) (o : Option Session)
          → find j m.sessions ≡ o
          → Listed j (erase s.player_id m.player_map) (find j (erase sid m.sessions))
      listed_lem j none f = ground (arith, f, find-erase sid j m.sessions)
      listed_lem j (some t) f = ground (
        arith,
        e,
        f,
        find-erase sid j m.sessions,
        find-erase s.player_id t.player_id m.player_map,
        v.listed j,
        v.listed sid,
      )

  pub change-IsValid :
      (sid : ℕ) (f : Session → Session) (m : SessionManager db) (store : db.Store)
      → ((s : Session) → (f s).session_id ≡ s.session_id)
      → ((s : Session) → (f s).player_id ≡ s.player_id)
      → ((s : Session) → (f s).conn_id ≡ s.conn_id)
      → IsValid m
      → IsValid (record m { sessions = modify sid f m.sessions; store = store })
  change-IsValid sid f m store fs fp fc v = record {
    distinct = modify-Distinct sid f m.sessions v.distinct;
    named = λ j.
        rw (find-modify sid j f m.sessions) (named_of j (sid == j) (find j m.sessions) (v.named j));
    owner = λ p j h.
        rw (find-modify sid j f m.sessions)
          (owner_of p (sid == j) (find j m.sessions) (v.owner p j h));
    listed = λ j.
        rw (find-modify sid j f m.sessions)
          (listed_of j (sid == j) (find j m.sessions) (v.listed j));
    on_conn = λ c j h.
        rw (find-modify sid j f m.sessions)
          (conn_of c (sid == j) (find j m.sessions) (v.on_conn c j h));
  }
    where
      named_of :
          (j : ℕ) (b : Bool) (o : Option Session)
          → Named j o
          → Named j (if b then map_option f o else o)
      named_of j false o h = h
      named_of j true none h = h
      named_of j true (some s) h = fs s ∙ h

      owner_of :
          (p : ℕ) (b : Bool) (o : Option Session)
          → OfPlayer p o
          → OfPlayer p (if b then map_option f o else o)
      owner_of p false o h = h
      owner_of p true none h = h
      owner_of p true (some s) h = fp s ∙ h

      listed_of :
          (j : ℕ) (b : Bool) (o : Option Session)
          → Listed j m.player_map o
          → Listed j m.player_map (if b then map_option f o else o)
      listed_of j false o h = h
      listed_of j true none h = h
      listed_of j true (some s) h = ap (λ p. find p m.player_map) (fp s) ∙ h

      conn_of :
          (c : ℕ) (b : Bool) (o : Option Session)
          → OnConn c o
          → OnConn c (if b then map_option f o else o)
      conn_of c false o h = h
      conn_of c true none h = h
      conn_of c true (some s) h = fc s ∙ h

  kick_none :
      (p : ℕ) (m : SessionManager db) → find p m.player_map ≡ none → kick_duplicate db p m ≡ m
  unfolding kick_duplicate
  kick_none p m e = rw (e, kick_duplicate) refl

  -- The session that is kicked, apart from its player's entry, is dropped like any other.
  kick_some :
      (p sid : ℕ) (s : Session) (m : SessionManager db)
      → find p m.player_map ≡ some sid
      → find sid m.sessions ≡ some s
      → s.player_id ≡ p
      → let d = drop_session db sid s m in
        let k = kick_duplicate db p m in
        (k.sessions ≡ d.sessions) × (k.conn_map ≡ d.conn_map) × (k.player_map ≡ d.player_map)
  unfolding kick_duplicate drop_session
  kick_some p sid s m e f h =
      rw (e, kick_duplicate) (rw f (refl, refl, ap (λ q. erase q m.player_map) (sym h)))

  -- Two managers with the same maps are valid together.
  pub same_maps-IsValid :
      (m k : SessionManager db)
      → k.sessions ≡ m.sessions
      → k.conn_map ≡ m.conn_map
      → k.player_map ≡ m.player_map
      → IsValid m
      → IsValid k
  same_maps-IsValid m k a b c v = record {
    distinct = rw a v.distinct;
    named = rw a v.named;
    owner = rw (a, c) v.owner;
    listed = rw (a, c) v.listed;
    on_conn = rw (a, b) v.on_conn;
  }

  -- After `kickDuplicate` the player has no entry, so no session.
  pub kick_duplicate-IsValid :
      (p : ℕ) (m : SessionManager db)
      → IsValid m
      → IsValid (kick_duplicate db p m) × (find p (kick_duplicate db p m).player_map ≡ none)
  unfolding drop_session
  kick_duplicate-IsValid p m v = elim (Option-cases (find p m.player_map)) [
    | inl e ↦ rw (kick_none p m e) (v, e)
    | inr (sid, e) ↦
        let (s, f, h) = find-OfPlayer p (find sid m.sessions) (v.owner p sid e) in
        let k = kick_some p sid s m e f h in
        (
          same_maps-IsValid (drop_session db sid s m) (kick_duplicate db p m) k.0 k.1 k.2
              (drop_session-IsValid sid s m f v),
          ap (find p) k.2 ∙ ground (arith, h, find-erase s.player_id p m.player_map),
        )
  ]
