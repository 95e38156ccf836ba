-- ===== src/Game/Matching/Placing.antt =====
-- `tryMatch` of src/game/match_manager.cpp puts one player in a room: what one player sees of it.
use miniarena.Prelude.{
  ℕ, suc, ◌≡◌, refl, ap, sym, subst, ◌∙◌, Bool, true, false, ◌&&◌, ◌||◌, Option, none, some, List,
  [], ◌∷◌, ◌++◌, ◌==◌, arith, if◌then◌else◌, ==_iff, Option-cases, inl, inr, append-nil,
}
use miniarena.Prelude.Int.{ℤ}
use miniarena.Prelude.Dict.{find, nat_eq, find-modify, map_option}
use miniarena.Game.Outcome.{running}
use miniarena.Game.Room.{update_room, add_player}
use miniarena.Game.Sessions.{
  Session, in_room, Storage, SessionManager, change_and_save, set_state, set_current_room,
  get_by_player,
}
use miniarena.Game.Sessions.Valid.{IsValid}
use miniarena.Game.Matching.{Lobby, MatchSuccess, place_player}
use miniarena.Game.Matching.Places.{
  HasPlaces, SameOthers, add_player-HasPlaces, fewer-HasPlaces, update-SameOthers,
}
use miniarena.Game.Matching.Queue.{QueueLaws, change-waiting}
use miniarena.Game.Matching.Joining.{found_by_player}
use miniarena.Game.Matching.Valid.{set_state-IsValid, set_current_room-IsValid}

-- The rooms that one player was told of.
unfoldable pub told : ℕ → List MatchSuccess → List ℕ
told q [] = []
told q (n ∷ ns) = if n.player_id == q then n.room_id ∷ told q ns else told q ns

told-append :
    (q : ℕ) (ns : List MatchSuccess) (n : MatchSuccess)
    → told q (ns ++ (n ∷ [])) ≡ told q ns ++ (if n.player_id == q then n.room_id ∷ [] else [])
unfolding told
told-append q [] n = ground arith
told-append q (k ∷ ns) n = ground (arith, told-append q ns n)

abbrev pub is_some : {A : Type 0} → Option A → Bool
is_some none = false
is_some (some a) = true

-- A player's session, and the rooms the player was told of.
pub record View : Type 0 where
  pub session : Option Session
  pub rooms : List ℕ

-- A player who is put in a room has it as the current room, is in the state for it, and is told.
unfoldable pub enter : ℕ → View → View
enter room_id v = elim v.session [
  | none ↦ v
  | some s ↦ record {
    session = some (record s { state = in_room; current_room = room_id });
    rooms = v.rooms ++ (room_id ∷ []);
  }
]

-- The session of a player who goes to a room.
abbrev moved : ℕ → Session → Session
moved room_id s = record s { state = in_room; current_room = room_id }

enter_nobody :
    (room_id : ℕ) (o : Option Session) (ns : List ℕ)
    → o ≡ none
    → enter room_id (record { session = o; rooms = ns }) ≡ record { session = o; rooms = ns }
unfolding enter
enter_nobody room_id none ns e = refl
enter_nobody room_id (some s) ns e = absurd (ground (arith, e))

view-moved :
    (room_id p q : ℕ) (s : Session) (o : Option Session) (ns : List MatchSuccess) (b : Bool)
    → (p == q) ≡ b
    → (b ≡ true → o ≡ some s)
    → ◌≡◌ {A = View}
        (record {
          session = if b then some (moved room_id s) else o;
          rooms = told q (ns ++ (record { player_id = p; room_id = room_id } ∷ []));
        })
        (if b
          then enter room_id (record { session = o; rooms = told q ns })
          else record { session = o; rooms = told q ns })
unfolding enter
view-moved room_id p q s o ns true e h =
    let n : MatchSuccess = record { player_id = p; room_id = room_id } in
    let t : told q (ns ++ (n ∷ [])) ≡ told q ns ++ (room_id ∷ []) =
      told-append q ns n ∙ rw e refl in
    rw (t, h refl) refl
view-moved room_id p q s o ns false e h =
    let n : MatchSuccess = record { player_id = p; room_id = room_id } in
    let t : told q (ns ++ (n ∷ [])) ≡ told q ns =
      told-append q ns n ∙ rw e (append-nil (told q ns)) in
    rw t refl

module _ {db : Storage} where
  -- A change of the session of one player, as another player sees it.
  change-seen :
      (m : SessionManager db) (p q : ℕ) (s : Session) (f : Session → Session)
      → IsValid m
      → get_by_player db p m ≡ some s
      → get_by_player db q (change_and_save db s.session_id f m).1
        ≡ (if p == q then map_option f (get_by_player db q m) else get_by_player db q m)
  unfolding get_by_player change_and_save find
  change-seen m p q s f v e =
      let g = found_by_player m p s v e in
      elim (Option-cases (find q m.player_map)) [
        | inl n ↦ rw (g.1, change_and_save) (rw (n, get_by_player) (ground (arith, g.0, n)))
        | inr (i, n) ↦
            rw (g.1, change_and_save)
              (rw (n, get_by_player)
                (ground (
                  arith,
                  g.0,
                  g.1,
                  n,
                  ==_iff p q,
                  find-modify s.session_id i f m.sessions,
                  v.owner p s.session_id,
                  v.owner q i,
                )))
      ]

  abbrev pub view : ℕ → Lobby db → View
  view q l = record { session = get_by_player db q l.sessions; rooms = told q l.notified }

  -- The lobby `d` after the player `pid` of `l` went to the room, as the player `q` sees it.
  pub record Placed (laws : QueueLaws db) (room_id q pid places : ℕ) (joined : Bool)
      (l d : Lobby db) : Type 0 where
    pub kept : IsValid d.sessions
    pub same : SameOthers room_id l.rooms d.rooms
    pub places_now :
        HasPlaces room_id q places
          (joined || (pid == q && is_some (get_by_player db q l.sessions)))
          d.rooms
    pub seen : view q d ≡ (if pid == q then enter room_id (view q l) else view q l)
    pub queue : (mode : ℤ) → laws.waiting mode d.sessions.store ≡ laws.waiting mode l.sessions.store

  moved-seen :
      (m : SessionManager db) (room_id p q : ℕ) (s : Session)
      → IsValid m
      → get_by_player db p m ≡ some s
      → let n = (set_state db s.session_id in_room m).1 in
        get_by_player db q (set_current_room db s.session_id room_id n).1
        ≡ (if p == q then some (moved room_id s) else get_by_player db q m)
  unfolding set_state set_current_room
  moved-seen m room_id p q s v e =
      let n = (set_state db s.session_id in_room m).1 in
      let t : Session = record s { state = in_room } in
      let a = change-seen m p p s (λ x. record x { state = in_room }) v e in
      let b = change-seen m p q s (λ x. record x { state = in_room }) v e in
      let c : get_by_player db p n ≡ some t = ground (arith, a, e) in
      let d =
        change-seen n p q t (λ x. record x { current_room = room_id })
          (set_state-IsValid s.session_id in_room m v) c in
      d ∙ ground (arith, b, e, ==_iff p q)

  pub place_player-Placed :
      (laws : QueueLaws db) (room_id q pid places : ℕ) (joined : Bool) (l : Lobby db)
      → IsValid l.sessions
      → HasPlaces room_id q (suc places) joined l.rooms
      → (d : Lobby db) × (place_player db room_id pid l ≡ running d)
        × Placed laws room_id q pid places joined l d
  unfolding place_player set_state set_current_room
  place_player-Placed laws room_id q pid places joined l v h =
      elim (Option-cases (get_by_player db pid l.sessions)) [
        | inl e ↦
            let gone : (pid == q && is_some (get_by_player db q l.sessions)) ≡ false =
              nobody (pid == q) refl e in
            (
              l,
              rw (e, place_player) refl,
              record {
                kept = v;
                same = record { others = λ j n. refl; next = refl };
                places_now =
                    subst (λ b. HasPlaces room_id q places b l.rooms)
                      (ground arith ∙ ap (λ b. joined || b) (sym gone))
                      (fewer-HasPlaces room_id q places joined l.rooms h);
                seen = unseen (pid == q) refl e;
                queue = λ mode. refl;
              },
            )
        | inr (s, e) ↦
            let n = (set_state db s.session_id in_room l.sessions).1 in
            let nv = set_state-IsValid s.session_id in_room l.sessions v in
            let m = (set_current_room db s.session_id room_id n).1 in
            let rooms = update_room room_id (λ r. (add_player pid s.username r).1) l.rooms in
            (
              record {
                sessions = m;
                rooms = rooms;
                notified = l.notified ++ (record { player_id = pid; room_id = room_id } ∷ []);
              },
              rw (e, h.found, place_player) refl,
              record {
                kept = set_current_room-IsValid s.session_id room_id n nv;
                same = update-SameOthers room_id _ l.rooms;
                places_now =
                    subst (λ b. HasPlaces room_id q places b rooms)
                      (ap (λ b. joined || b) (somebody s (pid == q) refl e))
                      (add_player-HasPlaces room_id q pid places s.username joined l.rooms h);
                seen =
                    ap
                      (λ (o : Option Session). record {
                        session = o;
                        rooms =
                            told q
                              (l.notified ++ (record { player_id = pid; room_id = room_id } ∷ []));
                      })
                      (moved-seen l.sessions room_id pid q s v e)
                    ∙ view-moved room_id pid q s (get_by_player db q l.sessions) l.notified
                        (pid == q) refl (λ b. here s b e);
                queue = λ mode.
                    change-waiting laws mode s.session_id _ n
                    ∙ change-waiting laws mode s.session_id _ l.sessions;
              },
            )
      ]
    where
      here :
          (s : Session)
          → (pid == q) ≡ true
          → get_by_player db pid l.sessions ≡ some s
          → get_by_player db q l.sessions ≡ some s
      here s b e = subst (λ i. get_by_player db i l.sessions ≡ some s) ((==_iff pid q).0 b) e

      nobody :
          (b : Bool)
          → (pid == q) ≡ b
          → get_by_player db pid l.sessions ≡ none
          → (b && is_some (get_by_player db q l.sessions)) ≡ false
      nobody true b e =
          ap is_some (subst (λ i. get_by_player db i l.sessions ≡ none) ((==_iff pid q).0 b) e)
      nobody false b e = refl

      unseen :
          (b : Bool)
          → (pid == q) ≡ b
          → get_by_player db pid l.sessions ≡ none
          → view q l ≡ (if b then enter room_id (view q l) else view q l)
      unseen true b e = sym (
          enter_nobody room_id (get_by_player db q l.sessions) (told q l.notified)
            (subst (λ i. get_by_player db i l.sessions ≡ none) ((==_iff pid q).0 b) e))
      unseen false b e = refl

      somebody :
          (s : Session) (b : Bool)
          → (pid == q) ≡ b
          → get_by_player db pid l.sessions ≡ some s
          → b ≡ (b && is_some (get_by_player db q l.sessions))
      somebody s true b e =
          sym (
            ap is_some (subst (λ i. get_by_player db i l.sessions ≡ some s) ((==_iff pid q).0 b) e))
      somebody s false b e = refl
