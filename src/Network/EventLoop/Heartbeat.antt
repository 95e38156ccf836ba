-- ===== src/Network/EventLoop/Heartbeat.antt =====
-- A connection of src/network/event_loop.cpp that is silent for the heartbeat interval.
use miniarena.Prelude.{ℕ, ◌≡◌, refl, none, some, [], ◌∷◌}
use miniarena.Prelude.Dict.{find, nat_eq}
use miniarena.Network.TimerWheel.{Wheel, bucket, next_slot, remove}
use miniarena.Network.TimerWheel.Valid.{IsValid}
use miniarena.Network.TimerWheel.Ticking.{tick_self_remove}
use miniarena.Network.EventLoop.{Client, EventLoop, heartbeat_fired, cleanup_closed}

heartbeat_fired-remove :
    (l : EventLoop) (id : ℕ) (k : Client) (w : Wheel (Unit {0}))
    → find id l.conns ≡ some k
    → heartbeat_fired l tt id w ≡ remove id w
unfolding heartbeat_fired
heartbeat_fired-remove l id k w e = rw (e, heartbeat_fired) refl

-- When exactly one heartbeat timer is due in a loop whose wheel is valid, and its connection is still
-- there, `cleanup_closed` is a fault: the callback closes the connection, which removes the timer that
-- the tick is looking at.
pub cleanup_closed_fault :
    (l : EventLoop) (id : ℕ) (k : Client)
    → IsValid l.timer_wheel
    → find id l.conns ≡ some k
    → bucket (next_slot l.timer_wheel) l.timer_wheel ≡ record { id = id; callback = some tt } ∷ []
    → cleanup_closed l ≡ none
unfolding cleanup_closed
cleanup_closed_fault l id k v e due =
    let t =
      tick_self_remove (heartbeat_fired l) id tt v (λ w. heartbeat_fired-remove l id k w e) due in
    rw (t, cleanup_closed) refl
