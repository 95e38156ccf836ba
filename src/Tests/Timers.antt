-- ===== src/Tests/Timers.antt =====
-- The theorems on src/network/timer_wheel.cpp, applied to a wheel with one timer.
use miniarena.Prelude.{ℕ, ◌≡◌, refl, none, some, List, [], ◌∷◌, arith, ◌==◌, if◌then◌else◌}
use miniarena.Prelude.Dict.{find, nat_eq}
use miniarena.Network.TimerWheel.{
  Wheel, bucket, empty_wheel, remove, add, next_slot, tick, slot_of, place,
}
use miniarena.Network.TimerWheel.Valid.{IsValid, placed, empty_wheel-IsValid, add-IsValid}
use miniarena.Network.TimerWheel.Ticking.{occurs, tick_lem, after, fires_on_time}

-- Callbacks are of one kind, and leave the wheel alone.
abbrev ignore : Unit {0} → ℕ → Wheel (Unit {0}) → Wheel (Unit {0})
ignore c id w = w

abbrev new_wheel : Wheel (Unit {0})
new_wheel = empty_wheel (Unit {0})

abbrev pub armed : Wheel (Unit {0})
armed = add 7 10 (some tt) new_wheel

pub armed-IsValid : IsValid armed
armed-IsValid = add-IsValid 7 10 (some tt) (empty_wheel-IsValid (Unit {0}))

tick_lem_example :
    (expired : List ℕ) × (v : Wheel (Unit {0})) × (tick ignore armed ≡ some (expired, v))
    × IsValid v
    × (v.current_slot ≡ next_slot armed)
    × ((id : ℕ) → occurs id expired ≡ placed (find id armed.id_to_slot) (next_slot armed))
    × ((id : ℕ)
        → find id v.id_to_slot ≡ (
            if placed (find id armed.id_to_slot) (next_slot armed) == 0
            then find id armed.id_to_slot
            else none))
tick_lem_example = tick_lem ignore (λ c id w. refl) armed-IsValid

fires_on_time_example :
    (v : Wheel (Unit {0})) × (expired : List ℕ) × (v' : Wheel (Unit {0})) × (after ignore 2
        (add 7 25 (some tt) new_wheel)
      ≡ some v)
    × (tick ignore v ≡ some (expired, v'))
    × (occurs 7 expired ≡ 1)
fires_on_time_example =
    fires_on_time ignore (λ c id w. refl) 2 7 25 (some tt) (empty_wheel-IsValid (Unit {0}))
      (omega arith) (omega arith)

pub armed-due : bucket (next_slot armed) armed ≡ record { id = 7; callback = some tt } ∷ []
unfolding add place remove next_slot slot_of empty_wheel find
armed-due = refl
