-- ===== src/Game/Sessions/Failing.antt =====
-- When a login of src/game/session_manager.cpp ends the process.
use miniarena.Prelude.{
  ℕ, ◌≡◌, ◌⊎◌, refl, inl, inr, Bool, true, false, Option, none, some, String, ◌==◌, if◌then◌else◌,
}
use miniarena.Game.Sessions.{
  PlayerRecord, Answer, answered, fails, ◌>>=◌, Storage, SessionManager, fetch_cached,
  register_player, fetch_player, login,
}

-- Some read of a player, of MySQL or of the names that Redis holds, fails.
abbrev pub StorageFails : Storage → Type 0
StorageFails db =
    (name : String) × (s : db.Store) × ((db.get_player name s ≡ fails)
      ⊎ (db.get_cached_player name s ≡ fails))

module _ (db : Storage) where
  -- If this fails, then because a read does.
  abbrev pub FailsByRead : {A : Type 0} → Answer A → Type 0
  FailsByRead fails = StorageFails db
  FailsByRead (answered a) = Unit {0}

  bind-FailsByRead :
      {A B : Type 0} (a : Answer A) (f : A → Answer B)
      → FailsByRead a
      → ((x : A) → FailsByRead (f x))
      → FailsByRead (a >>= f)
  bind-FailsByRead fails f h g = h
  bind-FailsByRead (answered x) f h g = g x

  get_player-FailsByRead :
      (name : String) (s : db.Store) (a : Answer (Option PlayerRecord))
      → db.get_player name s ≡ a
      → FailsByRead a
  get_player-FailsByRead name s fails e = (name, s, inl e)
  get_player-FailsByRead name s (answered x) e = tt

  get_cached_player-FailsByRead :
      (name : String) (s : db.Store) (a : Answer (Option ℕ))
      → db.get_cached_player name s ≡ a
      → FailsByRead a
  get_cached_player-FailsByRead name s fails e = (name, s, inr e)
  get_cached_player-FailsByRead name s (answered x) e = tt

  fetch_cached-FailsByRead : (name : String) (s : db.Store) → FailsByRead (fetch_cached db name s)
  unfolding fetch_cached
  fetch_cached-FailsByRead name s =
      bind-FailsByRead (db.get_cached_player name s) _ (get_cached_player-FailsByRead name s _ refl)
        hit
    where
      hit :
          (o : Option ℕ)
          → FailsByRead (elim o as (λ x. Answer (Option PlayerRecord)) [
            | none ↦ answered none
            | some pid ↦ db.get_player name s
          ])
      hit none = tt
      hit (some pid) = get_player-FailsByRead name s _ refl

  register_player-FailsByRead :
      (name password : String) (s : db.Store) → FailsByRead (register_player db name password s)
  unfolding register_player
  register_player-FailsByRead name password s =
      let r = db.create_player name password s in
      let t = db.cache_player name r.0 r.1 in
      either (r.0 == 0) (answered (none, r.1)) (db.get_player name t >>= λ x. answered (x, t)) tt (
        bind-FailsByRead (db.get_player name t) (λ x. answered (x, t))
          (get_player-FailsByRead name t _ refl) (λ x. tt))
    where
      either :
          (b : Bool) (x y : Answer (Option PlayerRecord × db.Store))
          → FailsByRead x
          → FailsByRead y
          → FailsByRead (if b then x else y)
      either true x y h k = h
      either false x y h k = k

  fetch_player-FailsByRead :
      (name password : String) (s : db.Store) → FailsByRead (fetch_player db name password s)
  unfolding fetch_player
  fetch_player-FailsByRead name password s =
      bind-FailsByRead (fetch_cached db name s) _ (fetch_cached-FailsByRead name s) hit
    where
      found :
          (o : Option PlayerRecord)
          → FailsByRead (elim o as (λ x. Answer (Option PlayerRecord × db.Store)) [
            | some p ↦ answered (some p, db.cache_player name p.id s)
            | none ↦ register_player db name password s
          ])
      found none = register_player-FailsByRead name password s
      found (some p) = tt

      hit :
          (o : Option PlayerRecord)
          → FailsByRead (elim o as (λ x. Answer (Option PlayerRecord × db.Store)) [
            | some p ↦ answered (some p, s)
            | none ↦ db.get_player name s >>= λ q. elim q [
              | some p ↦ answered (some p, db.cache_player name p.id s)
              | none ↦ register_player db name password s
            ]
          ])
      hit none =
          bind-FailsByRead (db.get_player name s) _ (get_player-FailsByRead name s _ refl) found
      hit (some p) = tt

  pub login-FailsByRead :
      (conn : ℕ) (name password : String) (sid now : ℕ) (m : SessionManager db)
      → FailsByRead (login db conn name password sid now m)
  unfolding login
  login-FailsByRead conn name password sid now m =
      bind-FailsByRead (fetch_player db name password m.store) _
        (fetch_player-FailsByRead name password m.store) (λ r. tt)
