-- ===== src/Game/Sessions/Expiry.antt =====
-- `cleanupExpired`: which sessions it drops.
use miniarena.Prelude.{
  ℕ, ◌-◌, ◌/◌, not, ◌≡◌, refl, ap, ◌∙◌, Bool, true, false, Option, none, some, [], ◌∷◌, arith, ltb,
  if◌then◌else◌, Bool-cases, inl, inr,
}
use miniarena.Prelude.Dict.{Dict, find, erase, nat_eq, Distinct, find-erase}
use miniarena.Game.Sessions.{
  Session, Storage, SessionManager, seconds_since, drop_session, cleanup_loop, cleanup_expired,
}
use miniarena.Game.Sessions.Valid.{IsValid, drop_session-IsValid}

-- A session is kept if its last activity is less than 3601 seconds ago.
abbrev pub kept : ℕ → Option Session → Option Session
kept now none = none
kept now (some s) = if ltb (now - s.last_active) 3601000 then some s else none

-- The session under an id after the loop, from those in the list and in the map.
abbrev swept : ℕ → Option Session → Option Session → Option Session
swept now none o = o
swept now (some s) o = kept now (some s)

seconds_lem : (d : ℕ) → ltb 3600 (d / 1000) ≡ not (ltb d 3601000)
seconds_lem d = ground arith

swept_same : (now : ℕ) (o : Option Session) → swept now o o ≡ kept now o
swept_same now none = refl
swept_same now (some s) = refl

module _ {db : Storage} where
  sessions-drop :
      (sid : ℕ) (s : Session) (m : SessionManager db)
      → (drop_session db sid s m).sessions ≡ erase sid m.sessions
  unfolding drop_session
  sessions-drop sid s m = refl

  loop-cons :
      (now sid : ℕ) (s : Session) (l : Dict ℕ Session) (m : SessionManager db) (b : Bool)
      → ltb 3600 (seconds_since now s.last_active) ≡ b
      → cleanup_loop db now ((sid, s) ∷ l) m
        ≡ cleanup_loop db now l (if b then drop_session db sid s m else m)
  unfolding cleanup_loop
  loop-cons now sid s l m b e =
      ap (λ c. cleanup_loop db now l (if c then drop_session db sid s m else m)) e

  loop_lem :
      (now : ℕ) (l : Dict ℕ Session) (m : SessionManager db)
      → Distinct l
      → ((j : ℕ) (s : Session) → find j l ≡ some s → find j m.sessions ≡ some s)
      → IsValid m
      → IsValid (cleanup_loop db now l m)
        × ((j : ℕ)
            → find j (cleanup_loop db now l m).sessions ≡ swept now (find j l) (find j m.sessions))
  unfolding cleanup_loop find
  loop_lem now [] m d h v = (v, λ j. refl)
  loop_lem now ((sid, s) ∷ l) m d h v =
      elim (Bool-cases (ltb 3600 (seconds_since now s.last_active))) [
        | inl e ↦
            let n = drop_session db sid s m in
            let f = λ (j : ℕ). ap (find j) (sessions-drop sid s m) ∙ find-erase sid j m.sessions in
            let r =
              loop_lem now l n d.1 (λ j t g. ground (arith, g, d.0, h j t, f j))
                (drop_session-IsValid sid s m (h sid s (ground arith)) v) in
            rw (loop-cons now sid s l m true e)
              (r.0, λ j. r.1 j ∙ ground (arith, e, d.0, f j, seconds_lem (now - s.last_active)))
        | inr e ↦
            let r = loop_lem now l m d.1 (λ j t g. ground (arith, g, d.0, h j t)) v in
            rw (loop-cons now sid s l m false e)
              (r.0, λ j. r.1 j ∙ ground (arith, e, d.0, h sid s, seconds_lem (now - s.last_active)))
      ]

  -- In a manager whose maps agree, `cleanup_expired` keeps exactly the sessions whose last activity is
  -- less than 3601 seconds ago (whole seconds are compared, and 3600 are allowed), as they were, and
  -- the maps still agree.
  pub cleanup_expired_lem :
      (now : ℕ) (m : SessionManager db)
      → IsValid m
      → IsValid (cleanup_expired db now m)
        × ((j : ℕ) → find j (cleanup_expired db now m).sessions ≡ kept now (find j m.sessions))
  unfolding cleanup_expired
  cleanup_expired_lem now m v =
      let r = loop_lem now m.sessions m v.distinct (λ j s e. e) v in
      (r.0, λ j. r.1 j ∙ swept_same now (find j m.sessions))
