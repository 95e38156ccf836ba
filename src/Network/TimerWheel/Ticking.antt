-- ===== src/Network/TimerWheel/Ticking.antt =====
-- `tick` with callbacks that leave the wheel alone, the time at which a timer fires, and `tick` with
-- the callback of src/network/event_loop.cpp, which removes the timer that is being fired.
use miniarena.Prelude.{
  ℕ, zero, suc, ◌+◌, ◌-◌, ◌*◌, ◌/◌, ◌%◌, ◌≤◌, ◌<◌, ◌≡◌, ◌≢◌, refl, ap, sym, ◌∙◌, Option, none, some,
  List, [], ◌∷◌, ◌++◌, arith, append_assoc, append-nil, length, length-set, length-append,
  get_elem?, set, max, ◌==◌, if◌then◌else◌,
}
use miniarena.Prelude.Dict.{Dict, find, erase, nat_eq, find-insert_self, find-erase}
use miniarena.Network.TimerWheel.{
  Entry, Wheel, slot_count, tick_ms, bucket, erase_first, slot_of, remove, place, add, call,
  fire_loop, next_slot, clear_slot, tick,
}
use miniarena.Network.TimerWheel.Buckets.{get_or-set, count}
use miniarena.Network.TimerWheel.Valid.{placed, IsValid, add-IsValid}

-- How often a number stands in a list.
unfoldable pub occurs : ℕ → List ℕ → ℕ
occurs j [] = 0
occurs j (x ∷ xs) = if x == j then suc (occurs j xs) else occurs j xs

count_nil : (C : Type 0) (j : ℕ) → count {C = C} j [] ≡ 0
unfolding count
count_nil C j = refl

module _ {C : Type 0} where
  abbrev ids : List (Entry C) → List ℕ
  ids [] = []
  ids (e ∷ es) = e.id ∷ ids es

  abbrev erase_ids : List (Entry C) → Dict ℕ ℕ → Dict ℕ ℕ
  erase_ids [] m = m
  erase_ids (e ∷ es) m = erase_ids es (erase e.id m)

  occurs-ids : (j : ℕ) (es : List (Entry C)) → occurs j (ids es) ≡ count j es
  unfolding occurs count
  occurs-ids j [] = refl
  occurs-ids j (e ∷ es) = ground (arith, occurs-ids j es)

  find-erase_ids :
      (j : ℕ) (es : List (Entry C)) (m : Dict ℕ ℕ)
      → find j (erase_ids es m) ≡ (if count j es == 0 then find j m else none)
  unfolding count
  find-erase_ids j [] m = refl
  find-erase_ids j (e ∷ es) m =
      ground (arith, find-erase_ids j es (erase e.id m), find-erase e.id j m)

  get_elem?-middle :
      (pre : List (Entry C)) (e : Entry C) (es : List (Entry C))
      → get_elem? (pre ++ (e ∷ es)) (length pre) ≡ some e
  get_elem?-middle [] e es = refl
  get_elem?-middle (x ∷ pre) e es = get_elem?-middle pre e es

  next_slot-ne :
      (w : Wheel C) (k s : ℕ)
      → w.current_slot < slot_count
      → (w.current_slot + k) % slot_count ≡ s
      → 1 < k
      → k ≤ slot_count
      → next_slot w ≢ s
  unfolding next_slot
  next_slot-ne w k s c e h b = omega arith

  next_slot-add :
      (w : Wheel C) (k s : ℕ)
      → (w.current_slot + k) % slot_count ≡ s
      → 1 < k
      → (next_slot w + (k - 1)) % slot_count ≡ s
  unfolding next_slot
  next_slot-add w k s e h = omega arith

  placed-next :
      (w : Wheel C) (k s : ℕ)
      → w.current_slot < slot_count
      → (w.current_slot + k) % slot_count ≡ s
      → 0 < k
      → k ≤ slot_count
      → placed (some s) (next_slot w) ≡ (if k == 1 then 1 else 0)
  unfolding next_slot
  placed-next w k s c e h b = ground arith

  add-placed :
      (id t : ℕ) (cb : Option C) {w : Wheel C}
      → IsValid w
      → (find id (add id t cb w).id_to_slot ≡ some (slot_of t (remove id w)))
        × (((add id t cb w).current_slot + max 1 ((t + 9) / 10)) % slot_count
            ≡ slot_of t (remove id w))
  unfolding add place slot_of
  add-placed id t cb {w} v =
      (find-insert_self id (slot_of t (remove id w)) (remove id w).id_to_slot, ground arith)

  -- `n` ticks in a row.
  unfoldable pub after : (C → ℕ → Wheel C → Wheel C) → ℕ → Wheel C → Option (Wheel C)
  after fire zero w = some w
  after fire (suc n) w = elim (tick fire w) [ none ↦ none | some (expired, v) ↦ after fire n v ]

  module _ (fire : C → ℕ → Wheel C → Wheel C)
      (quiet : (c : C) (id : ℕ) (w : Wheel C) → fire c id w ≡ w) where
    call-quiet : (e : Entry C) (w : Wheel C) → call fire e w ≡ w
    unfolding call
    call-quiet e w = called e.callback refl
      where
        called : (o : Option C) → e.callback ≡ o → call fire e w ≡ w
        called none h = rw (h, call)
        called (some c) h = rw (h, call) (quiet c e.id w)

    fire_loop-quiet :
        (es pre : List (Entry C)) (slot i : ℕ) (acc : List ℕ) (w : Wheel C)
        → bucket slot w ≡ pre ++ es
        → i ≡ length pre
        → fire_loop fire (length es) i slot acc w
          ≡ some (acc ++ ids es, record w { id_to_slot = erase_ids es w.id_to_slot })
    unfolding fire_loop
    fire_loop-quiet [] pre slot i acc w h k = ap (λ l. some (l, w)) (sym (append-nil acc))
    fire_loop-quiet (e ∷ es) pre slot i acc w h k =
        let g : get_elem? (bucket slot w) i ≡ some e = rw (h, k) (get_elem?-middle pre e es) in
        let v = record w { id_to_slot = erase e.id w.id_to_slot } in
        let r =
          fire_loop-quiet es (pre ++ (e ∷ [])) slot (i + 1) (acc ++ (e.id ∷ [])) v
            (h ∙ sym (append_assoc pre (e ∷ []) es))
            (omega (arith, k, length-append pre (e ∷ []))) in
        ground (arith, g, call-quiet e w, r, append_assoc acc (e.id ∷ []) (ids es))

    -- The wheel after a tick.
    abbrev ticked : Wheel C → Wheel C
    ticked w =
        let slot = next_slot w in
        record w {
          current_slot = slot;
          slots = set w.slots slot [];
          id_to_slot = erase_ids (bucket slot w) w.id_to_slot;
          entries = w.entries - length (bucket slot w);
        }

    tick-quiet : (w : Wheel C) → tick fire w ≡ some (ids (bucket (next_slot w) w), ticked w)
    unfolding tick clear_slot
    tick-quiet w =
        let slot = next_slot w in
        ground (
          arith,
          fire_loop-quiet (bucket slot w) [] slot 0 [] (record w { current_slot = slot }) refl refl,
        )

    find-ticked :
        (j : ℕ) {w : Wheel C}
        → IsValid w
        → find j (ticked w).id_to_slot
          ≡ (if placed (find j w.id_to_slot) (next_slot w) == 0 then find j w.id_to_slot else none)
    find-ticked j {w} v =
        let slot = next_slot w in
        find-erase_ids j (bucket slot w) w.id_to_slot
        ∙ ap (λ n. if n == 0 then find j w.id_to_slot else none) (v.agree j slot)

    ticked-IsValid : {w : Wheel C} → IsValid w → IsValid (ticked w)
    unfolding next_slot
    ticked-IsValid {w} v = record {
      size = length-set w.slots (next_slot w) [] ∙ v.size;
      current = omega arith;
      in_range = λ j. ground (arith, find-ticked j v, v.in_range j);
      agree = λ j s. ground (
        arith,
        v.size,
        find-ticked j v,
        v.in_range j,
        v.agree j s,
        get_or-set w.slots (next_slot w) s [] [],
        count_nil C j,
      );
    }

    -- With callbacks that leave the wheel alone, a tick of a valid wheel ends without a fault in a
    -- valid wheel; it reports each connection exactly once if its timer stands in the next slot and
    -- not at all otherwise, and forgets exactly the timers that it reports.
    pub tick_lem :
        {w : Wheel C}
        → IsValid w
        → (expired : List ℕ) × (v : Wheel C) × (tick fire w ≡ some (expired, v))
          × IsValid v
          × (v.current_slot ≡ next_slot w)
          × ((id : ℕ) → occurs id expired ≡ placed (find id w.id_to_slot) (next_slot w))
          × ((id : ℕ)
              → find id v.id_to_slot ≡ (
                  if placed (find id w.id_to_slot) (next_slot w) == 0
                  then find id w.id_to_slot
                  else none))
    tick_lem {w} v = (
      ids (bucket (next_slot w) w),
      ticked w,
      tick-quiet w,
      ticked-IsValid v,
      refl,
      (λ id. occurs-ids id (bucket (next_slot w) w) ∙ v.agree id (next_slot w)),
      (λ id. find-ticked id v),
    )

    after-suc : (n : ℕ) (w : Wheel C) → after fire (suc n) w ≡ after fire n (ticked w)
    unfolding after
    after-suc n w = rw (tick-quiet w, after) refl

    -- A timer that is `k` slots ahead stays while fewer than `k` ticks pass.
    after-keeps :
        (n : ℕ) {w : Wheel C} (id k s : ℕ)
        → IsValid w
        → find id w.id_to_slot ≡ some s
        → (w.current_slot + k) % slot_count ≡ s
        → n < k
        → k ≤ slot_count
        → (v : Wheel C) × (after fire n w ≡ some v)
          × IsValid v
          × (find id v.id_to_slot ≡ some s)
          × ((v.current_slot + (k - n)) % slot_count ≡ s)
    unfolding after
    after-keeps zero {w} id k s v f e h b = (w, refl, v, f, omega (arith, e))
    after-keeps (suc n) {w} id k s v f e h b =
        let c : next_slot w ≢ s = next_slot-ne w k s v.current e (omega arith) b in
        let g : find id (ticked w).id_to_slot ≡ some s = ground (arith, find-ticked id v, f, c) in
        let r =
          after-keeps n {w = ticked w} id (k - 1) s (ticked-IsValid v) g
            (next_slot-add w k s e (omega arith)) (omega arith) (omega arith) in
        (
          r.0,
          after-suc n w ∙ r.1,
          r.2,
          r.3,
          ap (λ m. ((r.0).current_slot + m) % slot_count) (omega arith) ∙ r.4,
        )

    -- A timer added with a timeout of at most 60 seconds fires on tick number `max(1, ⌈timeout/10⌉)`
    -- and on no tick before, when callbacks leave the wheel alone and nothing else touches the
    -- wheel: the wheel runs up to each such tick without a fault, and that tick reports the
    -- connection once if its number is this one, and not at all if it is smaller.
    pub fires_on_time :
        (n id timeout_ms : ℕ) (cb : Option C) {w : Wheel C}
        → IsValid w
        → timeout_ms ≤ tick_ms * slot_count
        → n < max 1 ((timeout_ms + 9) / 10)
        → (v : Wheel C) × (expired : List ℕ) × (v' : Wheel C) × (after fire n
              (add id timeout_ms cb w)
            ≡ some v)
          × (tick fire v ≡ some (expired, v'))
          × (occurs id expired ≡ (if n + 1 == max 1 ((timeout_ms + 9) / 10) then 1 else 0))
    fires_on_time n id t cb {w} v b h =
        let k = max 1 ((t + 9) / 10) in
        let a = add-placed id t cb v in
        let r =
          after-keeps n id k (slot_of t (remove id w)) (add-IsValid id t cb v) a.0 a.1 h
            (omega arith) in
        let u = r.0 in
        (
          u,
          ids (bucket (next_slot u) u),
          ticked u,
          r.1,
          tick-quiet u,
          occurs-ids id (bucket (next_slot u) u)
              ∙ (r.2).agree id (next_slot u)
              ∙ ap (λ o. placed o (next_slot u)) r.3
              ∙ placed-next u (k - n) (slot_of t (remove id w)) (r.2).current r.4 (omega arith)
                  (omega arith)
              ∙ ground (arith, h),
        )

  -- The callback that src/network/event_loop.cpp installs closes the connection, which removes its
  -- timer. If exactly one timer is due and its callback does that, the tick of a valid wheel is a
  -- fault: after the callback `entry` refers to an element that the callback erased.
  pub tick_self_remove :
      (fire : C → ℕ → Wheel C → Wheel C) {w : Wheel C} (id : ℕ) (c : C)
      → IsValid w
      → ((v : Wheel C) → fire c id v ≡ remove id v)
      → bucket (next_slot w) w ≡ record { id = id; callback = some c } ∷ []
      → tick fire w ≡ none
  unfolding tick fire_loop call remove erase_first count
  tick_self_remove fire {w} id c v self due =
      let slot = next_slot w in
      let m : find id w.id_to_slot ≡ some slot = ground (arith, v.agree id slot, due) in
      let u = record w { current_slot = slot } in
      ground (
        arith,
        due,
        m,
        v.size,
        v.in_range id,
        self u,
        get_or-set w.slots slot slot (erase_first id (bucket slot w)) [],
      )
