-- ===== src/Game/Room/Counting.antt =====
-- The number of players and the number of ready players of a room.
use miniarena.Prelude.{
  ℕ, ◌+◌, ◌≤◌, ◌<◌, ◌≡◌, ◌≢◌, ◌↔◌, refl, Bool, true, false, none, some, [], ◌∷◌, arith, length,
  if◌then◌else◌, String, Bool-cases, inl, inr,
}
use miniarena.Prelude.Dict.{Dict, find, insert, erase, modify, nat_eq, Distinct, find-insert_self}
use miniarena.Prelude.Dict.Total.{
  total, total-insert, total-modify, total-erase, insert-Distinct, erase-Distinct, modify-Distinct,
  length-total,
}
use miniarena.Game.Room.{
  Room, RoomPlayerInfo, joined, add_player, remove_player, player_ready, all_ready, start_loading,
  start_battle, end_battle, destroy,
}

abbrev pub ready_one : RoomPlayerInfo → ℕ
ready_one i = if i.ready then 1 else 0

-- How many players of the room are ready.
abbrev pub ready_number : Room → ℕ
ready_number r = total ready_one r.players

-- The keys are distinct, the room holds no more players than it may, and the counter does not
-- fall below the number of ready players.
pub record IsValid (r : Room) : Type 0 where
  pub distinct : Distinct r.players
  pub bounded : length r.players ≤ r.max_players
  pub at_least : ready_number r ≤ r.ready_count

-- The operations of a client, and those of a battle.
pub data Op : Type 0 where
  add : ℕ → String → Op
  leave : ℕ → Op
  ready : ℕ → Op
  load start finish tear_down : Op

unfoldable pub apply : Op → Room → Room
apply (add p u) r = (add_player p u r).1
apply (leave p) r = remove_player p r
apply (ready p) r = player_ready p r
apply load r = start_loading r
apply start r = start_battle r
apply finish r = end_battle r
apply tear_down r = destroy r

add_player-IsValid : (p : ℕ) (u : String) {r : Room} → IsValid r → IsValid (add_player p u r).1
unfolding add_player
add_player-IsValid p u {r} v =
    let i = joined p u in
    let m = insert p i r.players in
    ground (
      arith,
      v,
      insert-Distinct p i r.players v.distinct,
      length-total r.players,
      length-total m,
      total-insert (λ w. 1) p i r.players,
      total-insert ready_one p i r.players,
    )

remove_player-IsValid : (p : ℕ) {r : Room} → IsValid r → IsValid (remove_player p r)
unfolding remove_player
remove_player-IsValid p {r} v = ground (
  arith,
  v,
  erase-Distinct p r.players v.distinct,
  length-total r.players,
  length-total (erase p r.players),
  total-erase (λ w. 1) p r.players v.distinct,
  total-erase ready_one p r.players v.distinct,
)

abbrev make_ready : RoomPlayerInfo → RoomPlayerInfo
make_ready i = record i { ready = true }

player_ready-IsValid : (p : ℕ) {r : Room} → IsValid r → IsValid (player_ready p r)
unfolding player_ready
player_ready-IsValid p {r} v = ground (
  arith,
  v,
  modify-Distinct p make_ready r.players v.distinct,
  length-total r.players,
  length-total (modify p make_ready r.players),
  total-modify (λ w. 1) p make_ready r.players,
  total-modify ready_one p make_ready r.players,
)

-- Every operation keeps a room valid: distinct players, at most `max_players` of them, and a ready
-- counter that is at least the number of ready players.
pub apply-IsValid : (o : Op) {r : Room} → IsValid r → IsValid (apply o r)
unfolding apply start_loading start_battle end_battle destroy total
apply-IsValid (add p u) v = add_player-IsValid p u v
apply-IsValid (leave p) v = remove_player-IsValid p v
apply-IsValid (ready p) v = player_ready-IsValid p v
apply-IsValid load v = ground (arith, v)
apply-IsValid start v = ground (arith, v)
apply-IsValid finish v = ground (arith, v)
apply-IsValid tear_down v = record { distinct = tt; bounded = omega arith; at_least = omega arith }

-- The counter is exact.
abbrev pub IsCounted : Room → Type 0
IsCounted r = ready_number r ≡ r.ready_count

-- Whether that player of the room is ready.
abbrev pub is_ready : ℕ → Room → Bool
is_ready p r = elim (find p r.players) [ none ↦ false | some i ↦ i.ready ]

-- The operation is not the tearing down of the room, and adds no player who is ready in it.
abbrev pub AddsUnready : Op → Room → Type 0
AddsUnready (add p u) r = is_ready p r ≡ false
AddsUnready tear_down r = ⊥
AddsUnready _ r = Unit {0}

abbrev pub AllReady : Dict ℕ RoomPlayerInfo → Type 0
AllReady [] = Unit {0}
AllReady ((k, i) ∷ m) = (i.ready ≡ true) × AllReady m

-- In a valid room with an exact ready counter, every operation keeps the counter exact, other than
-- destroying the room and `addPlayer` for a player who is ready in it.
pub Op-IsCounted :
    (o : Op) {r : Room} → IsValid r → IsCounted r → AddsUnready o r → IsCounted (apply o r)
unfolding apply add_player remove_player player_ready start_loading start_battle end_battle
Op-IsCounted (add p u) {r} v c h = ground (arith, total-insert ready_one p (joined p u) r.players)
Op-IsCounted (leave p) {r} v c h = ground (arith, total-erase ready_one p r.players v.distinct)
Op-IsCounted (ready p) {r} v c h = ground (arith, total-modify ready_one p make_ready r.players)
Op-IsCounted load v c h = ground arith
Op-IsCounted start v c h = ground arith
Op-IsCounted finish v c h = ground arith
Op-IsCounted tear_down v c h = absurd h

-- When a player who is ready joins again and is accepted, its ready mark is cleared and the counter
-- is not: a counter that was exact is then one more than the number of ready players.
pub add_ready_overcounts :
    (p : ℕ) (u : String) (r : Room)
    → IsCounted r
    → is_ready p r ≡ true
    → (add_player p u r).0 ≡ 0
    → let s = (add_player p u r).1 in (is_ready p s ≡ false) × (s.ready_count ≡ ready_number s + 1)
unfolding add_player
add_ready_overcounts p u r c h ok = ground (
  arith,
  total-insert ready_one p (joined p u) r.players,
  find-insert_self p (joined p u) r.players,
)

total-ready-le : (m : Dict ℕ RoomPlayerInfo) → total ready_one m ≤ length m
unfolding total
total-ready-le [] = omega arith
total-ready-le ((k, i) ∷ m) = ground (arith, total-ready-le m)

AllReady-of_total : (m : Dict ℕ RoomPlayerInfo) → total ready_one m ≡ length m → AllReady m
unfolding total
AllReady-of_total [] h = tt
AllReady-of_total ((k, i) ∷ m) h = elim (Bool-cases i.ready) [
  | inl e ↦ (e, AllReady-of_total m (ground (arith, h, e)))
  | inr e ↦ absurd (ground (arith, h, e, total-ready-le m))
]

total_of_AllReady : (m : Dict ℕ RoomPlayerInfo) → AllReady m → total ready_one m ≡ length m
unfolding total
total_of_AllReady [] h = refl
total_of_AllReady ((k, i) ∷ m) h = ground (arith, h.0, total_of_AllReady m h.1)

nonempty : (m : Dict ℕ RoomPlayerInfo) → m ≢ [] → 0 < length m
nonempty [] h = absurd (h refl)
nonempty (x ∷ m) h = omega arith

all_ready_nil : (r : Room) → r.players ≡ [] → all_ready r ≡ true → ⊥
unfolding all_ready
all_ready_nil r e h = ground (arith, e, h)

-- In a room whose counter is exact, `allReady` holds exactly when the room has a player and every
-- player of it is ready.
pub all_ready_iff :
    (r : Room) → IsCounted r → (all_ready r ≡ true) ↔ ((r.players ≢ []) × AllReady r.players)
unfolding all_ready
all_ready_iff r c = (
  (λ h. (
    (λ (e : r.players ≡ []). all_ready_nil r e h),
    AllReady-of_total r.players (ground (arith, c, h)),
  )),
  (λ h. ground (arith, c, total_of_AllReady r.players h.1, nonempty r.players h.0)),
)
