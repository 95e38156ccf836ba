-- ===== src/Game/Room/LifeCycle.antt =====
-- The life cycle of a room, of src/game/room.cpp: its phases and who is in it.
use miniarena.Prelude.{ℕ, ◌≤◌, ◌≡◌, ◌≢◌, refl, Bool, true, false, List, [], ◌∷◌, arith}
use miniarena.Prelude.Dict.{find, nat_eq, find-erase, find-modify}
use miniarena.Game.Room.{
  Room, RoomState, created, waiting_players, loading, running, settling, destroyed, create,
  add_player, remove_player, player_ready, has_player, start_loading, start_battle, end_battle,
  destroy,
}
use miniarena.Game.Room.Counting.{Op, add, leave, ready, load, start, finish, tear_down, apply}

unfoldable pub rank : RoomState → ℕ
rank created = 0
rank waiting_players = 1
rank loading = 2
rank running = 3
rank settling = 4
rank destroyed = 5

unfoldable pub run : List Op → Room → Room
run [] r = r
run (o ∷ os) r = run os (apply o r)

has-remove : (p q : ℕ) (r : Room) → has_player q (remove_player p r) ≡ true → has_player q r ≡ true
unfolding has_player remove_player
has-remove p q r h = ground (arith, h, find-erase p q r.players)

has-ready : (p q : ℕ) (r : Room) → has_player q (player_ready p r) ≡ true → has_player q r ≡ true
unfolding has_player player_ready
has-ready p q r h = ground (arith, h, find-modify p q (λ i. record i { ready = true }) r.players)

state-remove : (p : ℕ) (r : Room) → (remove_player p r).state ≡ r.state
unfolding remove_player
state-remove p r = ground arith

state-ready : (p : ℕ) (r : Room) → (player_ready p r).state ≡ r.state
unfolding player_ready
state-ready p r = ground arith

has-same :
    (q : ℕ) (r : Room) (s : RoomState) → has_player q (record r { state = s }) ≡ has_player q r
unfolding has_player
has-same q r s = refl

has-none : (q : ℕ) (r : Room) → has_player q (destroy r) ≡ true → ⊥
unfolding has_player destroy find
has-none q r h = cc

-- One operation does not take the phase back.
rank-step : (o : Op) (r : Room) → rank r.state ≤ rank (apply o r).state
unfolding apply rank add_player start_loading start_battle end_battle destroy
rank-step (add p u) r = ground arith
rank-step (leave p) r = ground (arith, state-remove p r)
rank-step (ready p) r = ground (arith, state-ready p r)
rank-step load r = ground arith
rank-step start r = ground arith
rank-step finish r = ground arith
rank-step tear_down r = ground arith

-- From loading on, one operation lets nobody in.
members-step :
    (o : Op) (r : Room) (q : ℕ)
    → 2 ≤ rank r.state
    → has_player q (apply o r) ≡ true
    → has_player q r ≡ true
unfolding apply rank add_player start_loading start_battle end_battle destroy
members-step (add p u) r q h m = ground (arith, h, m)
members-step (leave p) r q h m = has-remove p q r m
members-step (ready p) r q h m = has-ready p q r m
members-step load r q h m =
    ground (arith, has-same q r loading, has-same q r running, has-same q r settling, m)
members-step start r q h m =
    ground (arith, has-same q r loading, has-same q r running, has-same q r settling, m)
members-step finish r q h m =
    ground (arith, has-same q r loading, has-same q r running, has-same q r settling, m)
members-step tear_down r q h m = absurd (has-none q r m)

-- Over any sequence of operations the phase of a room (created, waiting, loading, running, settling,
-- destroyed) never goes back, and once it is loading or later every player in the room at the end
-- was in it at the start.
pub run-forward :
    (os : List Op) (r : Room)
    → (rank r.state ≤ rank (run os r).state)
      × (2 ≤ rank r.state → (q : ℕ) → has_player q (run os r) ≡ true → has_player q r ≡ true)
unfolding run
run-forward [] r = (omega arith, λ h q m. m)
run-forward (o ∷ os) r =
    let s = rank-step o r in
    let t = run-forward os (apply o r) in
    (omega (arith, s, t.0), λ h q m. members-step o r q h (t.1 (omega (arith, s, h)) q m))

-- The operations that the server itself performs on rooms: src/game calls `startLoading` nowhere.
abbrev pub NeverLoads : List Op → Type 0
NeverLoads [] = Unit {0}
NeverLoads (load ∷ os) = ⊥
NeverLoads (_ ∷ os) = NeverLoads os

abbrev not_begun : RoomState → Bool
not_begun loading = false
not_begun running = false
not_begun settling = false
not_begun _ = true

not_begun-step :
    (o : Op) (os : List Op) (r : Room)
    → NeverLoads (o ∷ os)
    → not_begun r.state ≡ true
    → (not_begun (apply o r).state ≡ true) × NeverLoads os
unfolding apply add_player start_loading start_battle end_battle destroy
not_begun-step (add p u) os r n h = (ground (arith, h), n)
not_begun-step (leave p) os r n h = (rw (state-remove p r) h, n)
not_begun-step (ready p) os r n h = (rw (state-ready p r) h, n)
not_begun-step load os r n h = absurd n
not_begun-step start os r n h = (ground (arith, h), n)
not_begun-step finish os r n h = (ground (arith, h), n)
not_begun-step tear_down os r n h = (refl, n)

run-not_begun :
    (os : List Op) (r : Room)
    → NeverLoads os
    → not_begun r.state ≡ true
    → not_begun (run os r).state ≡ true
unfolding run
run-not_begun [] r n h = h
run-not_begun (o ∷ os) r n h =
    let s = not_begun-step o os r n h in run-not_begun os (apply o r) s.1 s.0

-- A fresh room on which `startLoading` is not called is never running or settling, whatever the
-- other operations do and however often `startBattle` is called.
pub never_running :
    (os : List Op) (id max_players : ℕ)
    → NeverLoads os
    → let s = (run os (create id max_players)).state in (s ≢ running) × (s ≢ settling)
unfolding create
never_running os id max_players n =
    let h = run-not_begun os (create id max_players) n refl in
    ((λ e. ground (arith, h, e)), (λ e. ground (arith, h, e)))
