-- ===== src/Game/Matching/Views.antt =====
-- What `tryMatch` of src/game/match_manager.cpp must come to, for one player.
use miniarena.Prelude.{
  ℕ, zero, suc, ◌+◌, ◌≡◌, refl, ◌∙◌, Bool, true, false, ◌&&◌, ◌||◌, List, [], ◌∷◌, Option, none,
  some, take, drop, ◌==◌, if◌then◌else◌,
}
use miniarena.Game.Room.{Room, RoomManager, get_room, has_player}
use miniarena.Game.Sessions.{Session}
use miniarena.Game.Matching.Placing.{View, enter, is_some}

unfoldable pub is_in : ℕ → List ℕ → Bool
is_in q [] = false
is_in q (p ∷ ps) = p == q || is_in q ps

-- What a player sees of the players who are put in a room.
unfoldable pub fill_view : ℕ → ℕ → List ℕ → View → View
fill_view q room_id [] v = v
fill_view q room_id (p ∷ ps) v = fill_view q room_id ps (if p == q then enter room_id v else v)

-- What a player sees of n rooms, each of so many players off the queue.
unfoldable pub all_views : ℕ → ℕ → ℕ → ℕ → List ℕ → View → View
all_views q zero room_id size ps v = v
all_views q (suc n) room_id size ps v =
    all_views q n (room_id + 1) size (drop size ps) (fill_view q room_id (take size ps) v)

-- Who is left in the queue.
unfoldable pub left_over : ℕ → ℕ → List ℕ → List ℕ
left_over zero size ps = ps
left_over (suc n) size ps = left_over n size (drop size ps)

-- A player `q`, with a session if `has`, is in exactly those of the n rooms for which he is taken off
-- the queue.
abbrev pub Members : ℕ → Bool → RoomManager → ℕ → ℕ → ℕ → List ℕ → Type 0
Members q has rooms zero room_id size ps = Unit {0}
Members q has rooms (suc n) room_id size ps =
    ((room : Room) × (get_room room_id rooms ≡ some room)
      × (has_player q room ≡ (is_in q (take size ps) && has)))
    × Members q has rooms n (room_id + 1) size (drop size ps)

is_some-enter : (room_id : ℕ) (v : View) → is_some (enter room_id v).session ≡ is_some v.session
unfolding enter
is_some-enter room_id v = go v.session v.rooms
  where
    go :
        (o : Option Session) (ns : List ℕ)
        → is_some (enter room_id (record { session = o; rooms = ns })).session ≡ is_some o
    go none ns = refl
    go (some s) ns = refl

pub is_some-if :
    (room_id : ℕ) (b : Bool) (v : View)
    → is_some (if b then enter room_id v else v).session ≡ is_some v.session
is_some-if room_id true v = is_some-enter room_id v
is_some-if room_id false v = refl

pub is_some-fill :
    (q room_id : ℕ) (ps : List ℕ) (v : View)
    → is_some (fill_view q room_id ps v).session ≡ is_some v.session
unfolding fill_view
is_some-fill q room_id [] v = refl
is_some-fill q room_id (p ∷ ps) v =
    is_some-fill q room_id ps (if p == q then enter room_id v else v)
    ∙ is_some-if room_id (p == q) v
