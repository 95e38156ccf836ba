-- ===== src/Network/TimerWheel.antt =====
-- src/network/timer_wheel.h and timer_wheel.cpp: connection timers in 6000 slots of 10 ms.
-- Callbacks run inside `tick` and may change the wheel, so firing one is a function from wheel to
-- wheel; an access to an entry that is no longer in its bucket is a fault (`none`). Sizes do not
-- overflow, and `entries_` is at least what is subtracted from it.
pub mod Buckets
pub mod Valid
pub mod Ticking
use miniarena.Prelude.{
  ℕ, zero, suc, ◌+◌, ◌-◌, ◌*◌, ◌/◌, ◌%◌, ◌≤◌, ◌<◌, Bool, true, false, Option, none, some, List, [],
  ◌∷◌, ◌++◌, length, get_elem?, get_or, set, replicate, ltb, ◌==◌, if◌then◌else◌,
}
use miniarena.Prelude.Dict.{Dict, find, insert, erase, nat_eq}

abbrev pub tick_ms : ℕ
tick_ms = 10

abbrev pub slot_count : ℕ
slot_count = 6000

-- `C` stands for the callbacks; an empty `std::function` is `none`.
pub record Entry (C : Type 0) : Type 0 where
  pub id : ℕ
  pub callback : Option C

pub record Wheel (C : Type 0) : Type 0 where
  pub slots : List (List (Entry C))
  pub current_slot : ℕ
  pub id_to_slot : Dict ℕ ℕ
  pub entries : ℕ

module _ {C : Type 0} where
  abbrev pub bucket : ℕ → Wheel C → List (Entry C)
  bucket s w = get_or w.slots s []

  -- The loops over a bucket: the first entry of a connection is erased.
  unfoldable pub erase_first : ℕ → List (Entry C) → List (Entry C)
  erase_first id [] = []
  erase_first id (e ∷ es) = if e.id == id then es else e ∷ erase_first id es

  -- The callback that `refresh` moves out of the bucket.
  unfoldable pub callback_of : ℕ → List (Entry C) → Option C
  callback_of id [] = none
  callback_of id (e ∷ es) = if e.id == id then e.callback else callback_of id es

  unfoldable pub slot_of : ℕ → Wheel C → ℕ
  slot_of delay_ms w =
      let ticks = (delay_ms + tick_ms - 1) / tick_ms in
      (w.current_slot + (if ticks == 0 then 1 else ticks)) % slot_count

  unfoldable pub remove : ℕ → Wheel C → Wheel C
  remove id w = elim (find id w.id_to_slot) [
    | none ↦ w
    | some slot ↦ record w {
      slots = set w.slots slot (erase_first id (bucket slot w));
      id_to_slot = erase id w.id_to_slot;
      entries = w.entries - 1;
    }
  ]

  -- `slots_[slot].push_back({id, cb}); id_to_slot_[id] = slot; ++entries_`.
  unfoldable pub place : ℕ → ℕ → Option C → Wheel C → Wheel C
  place id slot cb w = record w {
    slots = set w.slots slot (bucket slot w ++ (record { id = id; callback = cb } ∷ []));
    id_to_slot = insert id slot w.id_to_slot;
    entries = w.entries + 1;
  }

  unfoldable pub add : ℕ → ℕ → Option C → Wheel C → Wheel C
  add id timeout_ms cb w = let v = remove id w in place id (slot_of timeout_ms v) cb v

  unfoldable pub refresh : ℕ → ℕ → Wheel C → Wheel C
  refresh id timeout_ms w = elim (find id w.id_to_slot) [
    | none ↦ w
    | some old_slot ↦
        let cb = callback_of id (bucket old_slot w) in
        let v = record w {
          slots = set w.slots old_slot (erase_first id (bucket old_slot w));
          id_to_slot = erase id w.id_to_slot;
          entries = w.entries - 1;
        } in
        place id (slot_of timeout_ms v) cb v
  ]

  unfoldable pub next_slot : Wheel C → ℕ
  next_slot w = (w.current_slot + 1) % slot_count

  -- `entries_ -= bucket.size(); bucket.clear()`.
  unfoldable pub clear_slot : ℕ → List ℕ × Wheel C → List ℕ × Wheel C
  clear_slot slot (expired, w) = (
    expired,
    record w { slots = set w.slots slot []; entries = w.entries - length (bucket slot w) },
  )

  module _ (fire : C → ℕ → Wheel C → Wheel C) where
    unfoldable pub call : Entry C → Wheel C → Wheel C
    call e w = elim e.callback [ none ↦ w | some c ↦ fire c e.id w ]

    -- `for (auto& entry : bucket)` of `tick`: as many rounds as the bucket was long, by position.
    -- The reference `entry` is read again after the callback.
    unfoldable pub fire_loop : ℕ → ℕ → ℕ → List ℕ → Wheel C → Option (List ℕ × Wheel C)
    fire_loop zero i slot expired w = some (expired, w)
    fire_loop (suc n) i slot expired w = elim (get_elem? (bucket slot w) i) [
      | none ↦ none
      | some e ↦
          let v = call e w in
          elim (get_elem? (bucket slot v) i) [
            | none ↦ none
            | some e' ↦
                fire_loop n (i + 1) slot (expired ++ (e.id ∷ []))
                  (record v { id_to_slot = erase e'.id v.id_to_slot })
          ]
    ]

    unfoldable pub tick : Wheel C → Option (List ℕ × Wheel C)
    tick w =
        let slot = next_slot w in
        let v = record w { current_slot = slot } in
        elim (fire_loop (length (bucket slot v)) 0 slot [] v) [
          | none ↦ none
          | some r ↦ some (clear_slot slot r)
        ]

unfoldable pub empty_wheel : (C : Type 0) → Wheel C
empty_wheel C = record {
  slots = replicate slot_count [];
  current_slot = 0;
  id_to_slot = [];
  entries = 0;
}
