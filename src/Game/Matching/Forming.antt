-- ===== src/Game/Matching/Forming.antt =====
-- How `tryMatch` of src/game/match_manager.cpp forms rooms of the players in the queue.
use miniarena.Prelude.{
  ℕ, zero, suc, ◌+◌, ◌*◌, ◌≤◌, ◌<◌, ◌≡◌, refl, ap, subst, ◌∙◌, Bool, true, false, ◌&&◌, ◌||◌, List,
  [], ◌∷◌, length, take, drop, length-drop, ◌==◌, ltb, arith, Bool-cases, inl, inr,
}
use miniarena.Prelude.Int.{ℤ}
use miniarena.Prelude.Dict.{nat_eq}
use miniarena.Game.Outcome.{running, and_then}
use miniarena.Game.Room.{create_room, get_room}
use miniarena.Game.Sessions.{Storage, get_by_player}
use miniarena.Game.Sessions.Valid.{IsValid}
use miniarena.Game.Matching.{Lobby, queue_size, fill_room, try_match}
use miniarena.Game.Matching.Queue.{QueueLaws}
use miniarena.Game.Matching.Valid.{store-IsValid}
use miniarena.Game.Matching.Placing.{View, is_some, view, place_player-Placed}
use miniarena.Game.Matching.Places.{HasPlaces, SameOthers, create-HasPlaces, create-others}
use miniarena.Game.Matching.Views.{
  is_in, fill_view, all_views, left_over, Members, is_some-if, is_some-fill,
}

module _ {db : Storage} (laws : QueueLaws db) where
  -- The lobby `d` after a room of `l` got the next players of the queue `ps`.
  record Filled (i : ℕ) (mode : ℤ) (room_id q : ℕ) (joined : Bool) (ps : List ℕ) (l d : Lobby db)
      : Type 0 where
    kept : IsValid d.sessions
    same : SameOthers room_id l.rooms d.rooms
    places_now :
        HasPlaces room_id q 0
          (joined || (is_in q (take i ps) && is_some (get_by_player db q l.sessions)))
          d.rooms
    seen : view q d ≡ fill_view q room_id (take i ps) (view q l)
    queue : laws.waiting mode d.sessions.store ≡ drop i ps

  one_more : (a b c s s1 : Bool) → s1 ≡ s → (a || (b && s) || (c && s1)) ≡ (a || ((b || c) && s))
  one_more a b c s s1 e = ground (arith, e)

  fill_room-Filled :
      (i : ℕ) (mode : ℤ) (room_id q : ℕ) (joined : Bool) (ps : List ℕ) (l : Lobby db)
      → IsValid l.sessions
      → HasPlaces room_id q i joined l.rooms
      → laws.waiting mode l.sessions.store ≡ ps
      → i ≤ length ps
      → (d : Lobby db) × (fill_room db i mode room_id l ≡ running d)
        × Filled i mode room_id q joined ps l d
  unfolding fill_room fill_view is_in get_by_player and_then
  fill_room-Filled zero mode room_id q joined ps l v h e k = (
    l,
    refl,
    record {
      kept = v;
      same = record { others = λ j n. refl; next = refl };
      places_now = subst (λ b. HasPlaces room_id q 0 b l.rooms) (ground arith) h;
      seen = refl;
      queue = e;
    },
  )
  fill_room-Filled (suc i) mode room_id q joined [] l v h e k = absurd (omega (arith, k))
  fill_room-Filled (suc i) mode room_id q joined (p ∷ ps) l v h e k =
      let (t, pe, qe) = laws.pop_law mode p ps l.sessions.store e in
      let n : Lobby db = record l { sessions = record l.sessions { store = t } } in
      let (d1, de, a) =
        place_player-Placed laws room_id q p i joined n (store-IsValid l.sessions t v) h in
      let here = is_some (get_by_player db q l.sessions) in
      let (d, fe, b) =
        fill_room-Filled i mode room_id q (joined || (p == q && here)) ps d1 a.kept a.places_now
          (a.queue mode ∙ qe) (omega (arith, k)) in
      let still : is_some (get_by_player db q d1.sessions) ≡ here =
        ap (λ (w : View). is_some w.session) a.seen ∙ is_some-if room_id (p == q) (view q n) in
      (
        d,
        rw (pe, fill_room) (rw (de, and_then) fe),
        record {
          kept = b.kept;
          same = record {
            others = λ j ne. b.same.others j ne ∙ a.same.others j ne;
            next = b.same.next ∙ a.same.next;
          };
          places_now =
              subst (λ c. HasPlaces room_id q 0 c d.rooms)
                (one_more joined (p == q) (is_in q (take i ps)) here
                  (is_some (get_by_player db q d1.sessions)) still)
                b.places_now;
          seen = b.seen ∙ ap (fill_view q room_id (take i ps)) a.seen;
          queue = b.queue;
        },
      )

  -- The lobby `d` after n rooms were formed of the queue `ps` of `l`, as the player `q` sees it: the
  -- players that are left are too few for a room; the new rooms have the numbers from the next one on,
  -- and `q` is in those that it must be in; the session of `q` and the rooms that `q` was told of are
  -- those of the last and of all such rooms; and the older rooms are the same.
  pub record Matched (n size : ℕ) (mode : ℤ) (q : ℕ) (ps : List ℕ) (l d : Lobby db) : Type 0 where
    pub kept : IsValid d.sessions
    pub enough : n * size ≤ length ps
    pub too_few : length ps < n * size + size
    pub queue : laws.waiting mode d.sessions.store ≡ left_over n size ps
    pub next : d.rooms.next_room_id ≡ l.rooms.next_room_id + n
    pub members :
        Members q (is_some (get_by_player db q l.sessions)) d.rooms n l.rooms.next_room_id size ps
    pub seen : view q d ≡ all_views q n l.rooms.next_room_id size ps (view q l)
    pub older : (j : ℕ) → j < l.rooms.next_room_id → get_room j d.rooms ≡ get_room j l.rooms

  try-end :
      (fuel room_size total : ℕ) (mode : ℤ) (l : Lobby db)
      → ltb (queue_size db mode l) room_size ≡ true
      → try_match db (suc fuel) room_size mode total l ≡ running (total, l)
  unfolding try_match
  try-end fuel room_size total mode l e = rw e refl

  try-more :
      (fuel room_size total : ℕ) (mode : ℤ) (l d : Lobby db)
      → let c = create_room room_size l.rooms in
        ltb (queue_size db mode l) room_size ≡ false
        → fill_room db room_size mode c.0 (record l { rooms = c.1 }) ≡ running d
        → try_match db (suc fuel) room_size mode total l
          ≡ try_match db fuel room_size mode (total + 1) d
  unfolding try_match and_then
  try-more fuel room_size total mode l d e f = rw (e, f, and_then) refl

  try_match-Matched :
      (fuel room_size : ℕ) (mode : ℤ) (total q : ℕ) (ps : List ℕ) (l : Lobby db)
      → 0 < room_size
      → IsValid l.sessions
      → laws.waiting mode l.sessions.store ≡ ps
      → length ps < fuel
      → (n : ℕ) × (d : Lobby db) × (try_match db fuel room_size mode total l
          ≡ running (total + n, d))
        × Matched n room_size mode q ps l d
  unfolding queue_size all_views left_over create_room
  try_match-Matched zero room_size mode total q ps l p v e h = absurd (omega (arith, h))
  try_match-Matched (suc fuel) room_size mode total q ps l p v e h =
      let size : queue_size db mode l ≡ length ps =
        laws.queue_size_law mode l.sessions.store ∙ ap length e in
      elim (Bool-cases (ltb (queue_size db mode l) room_size)) [
        | inl b ↦ (
          0,
          l,
          try-end fuel room_size total mode l b ∙ ap (λ n. running (n, l)) (omega arith),
          record {
            kept = v;
            enough = omega arith;
            too_few = ground (arith, b, size);
            queue = e;
            next = omega arith;
            members = tt;
            seen = refl;
            older = λ j k. refl;
          },
        )
        | inr b ↦
            let id = l.rooms.next_room_id in
            let k : room_size ≤ length ps = ground (arith, b, size) in
            let (d1, fe, a) =
              fill_room-Filled room_size mode id q false ps
                (record l { rooms = (create_room room_size l.rooms).1 }) v
                (create-HasPlaces q room_size l.rooms) e k in
            let rest = drop room_size ps in
            let size_left = length-drop room_size ps in
            let (n, d, te, m) =
              try_match-Matched fuel room_size mode (total + 1) q rest d1 p a.kept a.queue
                (omega (arith, size_left, h, p, k)) in
            let next_id : d1.rooms.next_room_id ≡ id + 1 = a.same.next in
            let still : is_some (get_by_player db q d1.sessions)
                ≡ is_some (get_by_player db q l.sessions) =
              ap (λ (w : View). is_some w.session) a.seen
              ∙ is_some-fill q id (take room_size ps) (view q l) in
            let first = a.places_now in
            (
              suc n,
              d,
              try-more fuel room_size total mode l d1 b fe
                  ∙ te
                  ∙ ap (λ i. running (i, d)) (omega arith),
              record {
                kept = m.kept;
                enough = grind (arith, m.enough, size_left, k);
                too_few = grind (arith, m.too_few, size_left, k);
                queue = m.queue;
                next = m.next ∙ omega (arith, next_id);
                members = (
                  (first.room, m.older id (omega (arith, next_id)) ∙ first.found, first.joins),
                  subst
                      (λ i.
                        Members q (is_some (get_by_player db q l.sessions)) d.rooms n i room_size
                          rest)
                      next_id
                      (subst (λ has. Members q has d.rooms n d1.rooms.next_room_id room_size rest)
                        still m.members),
                );
                seen =
                    m.seen
                    ∙ ap (λ i. all_views q n i room_size rest (view q d1)) next_id
                    ∙ ap (all_views q n (id + 1) room_size rest) a.seen;
                older = λ j f.
                    m.older j (omega (arith, f, next_id))
                    ∙ a.same.others j (ground (arith, f))
                    ∙ create-others room_size j l.rooms f;
              },
            )
      ]

  -- In a lobby whose session maps agree, with a queue in Redis whose pops take the players off in their
  -- order and that no writing of a session changes, and rooms for at least one player, `try_match`
  -- dereferences no null pointer, its reads of the queue do not fail, and it ends, with fuel above the
  -- size of the queue. It forms rooms until fewer players than a room takes are left, and returns the
  -- number of these rooms, which have the next numbers. Whoever `q` is: if `q` has a session, `q` is
  -- in exactly the rooms for which `q` is taken off the queue, is told of these in their order, and the
  -- last of them is the current room of the session; otherwise in none. The session maps still agree, and
  -- older rooms are the same.
  pub try_match_lem :
      (fuel room_size : ℕ) (mode : ℤ) (q : ℕ) (l : Lobby db)
      → 0 < room_size
      → IsValid l.sessions
      → queue_size db mode l < fuel
      → (n : ℕ) × (d : Lobby db) × (try_match db fuel room_size mode 0 l ≡ running (n, d))
        × Matched n room_size mode q (laws.waiting mode l.sessions.store) l d
  unfolding queue_size
  try_match_lem fuel room_size mode q l p v h =
      let (n, d, e, m) =
        try_match-Matched fuel room_size mode 0 q (laws.waiting mode l.sessions.store) l p v refl
          (omega (arith, h, laws.queue_size_law mode l.sessions.store)) in
      (n, d, e ∙ ap (λ i. running (i, d)) (omega arith), m)
