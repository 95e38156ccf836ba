-- ===== src/Network/TimerWheel/Valid.antt =====
-- The invariant of the wheel of src/network/timer_wheel.cpp: the map of connections to slots and the
-- buckets agree.
use miniarena.Prelude.{
  ℕ, zero, suc, ◌-◌, ◌<◌, ◌≡◌, refl, ap, ◌∙◌, Option, none, some, List, [], ◌∷◌, ◌++◌, arith,
  length, length-set, length-replicate, get_or, set, replicate, ◌==◌, if◌then◌else◌, Option-cases,
  inl, inr,
}
use miniarena.Prelude.Dict.{find, erase, nat_eq, find-insert, find-erase, find-erase_self}
use miniarena.Network.TimerWheel.{
  Entry, Wheel, slot_count, bucket, erase_first, callback_of, slot_of, remove, place, add, refresh,
  empty_wheel,
}
use miniarena.Network.TimerWheel.Buckets.{
  get_or-set, count, count-append, count-erase_first, count-one,
}

-- How often a connection with that entry in the map stands in slot `s`.
abbrev pub placed : Option ℕ → ℕ → ℕ
placed none s = 0
placed (some t) s = if t == s then 1 else 0

abbrev pub InRange : Option ℕ → Type 0
InRange none = Unit {0}
InRange (some t) = t < slot_count

pub record IsValid {C : Type 0} (w : Wheel C) : Type 0 where
  pub size : length w.slots ≡ slot_count
  pub current : w.current_slot < slot_count
  pub in_range : (id : ℕ) → InRange (find id w.id_to_slot)
  pub agree : (id s : ℕ) → count id (bucket s w) ≡ placed (find id w.id_to_slot) s

module _ {C : Type 0} where
  -- The entry of a connection taken out of its slot.
  abbrev unplace : ℕ → ℕ → Wheel C → Wheel C
  unplace id slot w = record w {
    slots = set w.slots slot (erase_first id (bucket slot w));
    id_to_slot = erase id w.id_to_slot;
    entries = w.entries - 1;
  }

  unplace-IsValid :
      (id slot : ℕ) {w : Wheel C}
      → IsValid w
      → find id w.id_to_slot ≡ some slot
      → IsValid (unplace id slot w)
  unplace-IsValid id slot {w} v e = record {
    size = length-set w.slots slot _ ∙ v.size;
    current = v.current;
    in_range = λ j. ground (arith, find-erase id j w.id_to_slot, v.in_range j);
    agree = λ j s. ground (
      arith,
      e,
      v.size,
      v.in_range id,
      find-erase id j w.id_to_slot,
      v.agree j s,
      get_or-set w.slots slot s (erase_first id (bucket slot w)) [],
      count-erase_first id j (bucket slot w),
    );
  }

  pub remove-IsValid :
      (id : ℕ) {w : Wheel C}
      → IsValid w
      → IsValid (remove id w) × (find id (remove id w).id_to_slot ≡ none)
  unfolding remove
  remove-IsValid id {w} v = elim (Option-cases (find id w.id_to_slot)) [
    | inl e ↦ rw (e, remove) (v, e)
    | inr (slot, e) ↦ rw (e, remove) (unplace-IsValid id slot v e, find-erase_self id w.id_to_slot)
  ]

  pub place-IsValid :
      (id slot : ℕ) (cb : Option C) {w : Wheel C}
      → IsValid w
      → find id w.id_to_slot ≡ none
      → slot < slot_count
      → IsValid (place id slot cb w)
  unfolding place
  place-IsValid id slot cb {w} v e h = record {
    size = length-set w.slots slot _ ∙ v.size;
    current = v.current;
    in_range = λ j. ground (arith, find-insert id j slot w.id_to_slot, v.in_range j);
    agree = λ j s. ground (
      arith,
      v.size,
      find-insert id j slot w.id_to_slot,
      v.agree j s,
      get_or-set w.slots slot s (bucket slot w ++ (record { id = id; callback = cb } ∷ [])) [],
      count-append j (bucket slot w) (record { id = id; callback = cb } ∷ []),
      count-one id j cb,
    );
  }

  slot_of-lt : (t : ℕ) (w : Wheel C) → slot_of t w < slot_count
  unfolding slot_of
  slot_of-lt t w = omega arith

  -- Adding a timer, in place of the connection's old one if it has one, keeps a wheel valid.
  pub add-IsValid : (id t : ℕ) (cb : Option C) {w : Wheel C} → IsValid w → IsValid (add id t cb w)
  unfolding add
  add-IsValid id t cb {w} v =
      let r = remove-IsValid id v in
      place-IsValid id (slot_of t (remove id w)) cb r.0 r.1 (slot_of-lt t (remove id w))

  -- Refreshing a timer keeps a wheel valid.
  pub refresh-IsValid : (id t : ℕ) {w : Wheel C} → IsValid w → IsValid (refresh id t w)
  unfolding refresh
  refresh-IsValid id t {w} v = elim (Option-cases (find id w.id_to_slot)) [
    | inl e ↦ rw (e, refresh) v
    | inr (slot, e) ↦
        let u = unplace id slot w in
        rw (e, refresh)
          (place-IsValid id (slot_of t u) (callback_of id (bucket slot w))
            (unplace-IsValid id slot v e) (find-erase_self id w.id_to_slot) (slot_of-lt t u))
  ]

get_or-replicate : {A : Type 0} (n s : ℕ) (d : A) → get_or (replicate n d) s d ≡ d
get_or-replicate zero s d = refl
get_or-replicate (suc n) zero d = refl
get_or-replicate (suc n) (suc s) d = get_or-replicate n s d

pub empty_wheel-IsValid : (C : Type 0) → IsValid (empty_wheel C)
unfolding empty_wheel find count
empty_wheel-IsValid C = record {
  size = length-replicate {A = List (Entry C)} slot_count [];
  current = omega arith;
  in_range = λ id. tt;
  agree = λ id s. ap (count id) (get_or-replicate slot_count s []);
}
