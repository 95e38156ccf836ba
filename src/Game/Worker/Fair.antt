-- ===== src/Game/Worker/Fair.antt =====
-- What the rounds of a worker keep of the players of its rooms.
use miniarena.Prelude.{
  ℕ, ◌≡◌, refl, Bool, true, false, Option, none, some, List, [], ◌∷◌, arith, ltb, leb,
  if◌then◌else◌, ◌-◌, ◌/◌, ◌==◌, Bool-cases, inl, inr,
}
use miniarena.Prelude.Int.{ℤ, pos}
use miniarena.Prelude.Dict.{Dict, find, insert, erase, modify, nat_eq, find-modify, map_option}
use miniarena.Prelude.Dict.Total.{total}
use miniarena.Game.Combat.{FloatOps, Command, BattlePlayer}
use miniarena.Game.Tick.{
  Arena, process_tick, process_commands, update_cooldowns, cool, tick_interval_ms,
}
use miniarena.Game.Tick.Health.{kd-modify, IsFair, Sound, process_commands-IsFair}
use miniarena.Game.Worker.{
  RoomState, PendingOp, add_room, remove_room, mark_disconnected, LogicWorker, apply_op, apply_ops,
  drain_pending_ops, fell_out, check_disconnected, engine_tick, tick_room, tick_rooms, tick,
  run_once, Shared,
}

module _ {F : Type 0} where
  -- The players of a battle, apart from the rest of its state.
  abbrev pub arena_of : Dict ℕ (BattlePlayer F) → Arena F
  arena_of m = record { players = m; last_seq = []; sent = [] }

  abbrev pub FairPlayers : Dict ℕ (BattlePlayer F) → Type 0
  FairPlayers m = IsFair (arena_of m)

  abbrev pub FairRooms : Dict ℕ (RoomState F) → Type 0
  FairRooms [] = Unit {0}
  FairRooms ((k, r) ∷ m) = FairPlayers r.players × FairRooms m

  -- The operations that wait add only fair rooms.
  abbrev pub FairOps : List (PendingOp F) → Type 0
  FairOps [] = Unit {0}
  FairOps (add_room id players ∷ ops) = FairPlayers players × FairOps ops
  FairOps (_ ∷ ops) = FairOps ops

  insert-FairRooms :
      (k : ℕ) (r : RoomState F) (m : Dict ℕ (RoomState F))
      → FairPlayers r.players
      → FairRooms m
      → FairRooms (insert k r m)
  unfolding insert
  insert-FairRooms k r [] h v = (h, tt)
  insert-FairRooms k r ((j, s) ∷ m) h v = elim (Bool-cases (j == k)) [
    | inl e ↦ rw e (h, v.1)
    | inr e ↦ rw e (v.0, insert-FairRooms k r m h v.1)
  ]

  erase-FairRooms : (k : ℕ) (m : Dict ℕ (RoomState F)) → FairRooms m → FairRooms (erase k m)
  unfolding erase
  erase-FairRooms k [] v = tt
  erase-FairRooms k ((j, s) ∷ m) v = elim (Bool-cases (j == k)) [
    | inl e ↦ rw e (erase-FairRooms k m v.1)
    | inr e ↦ rw e (v.0, erase-FairRooms k m v.1)
  ]

  modify-FairRooms :
      (k : ℕ) (f : RoomState F → RoomState F) (m : Dict ℕ (RoomState F))
      → ((r : RoomState F) → (f r).players ≡ r.players)
      → FairRooms m
      → FairRooms (modify k f m)
  unfolding modify
  modify-FairRooms k f [] h v = tt
  modify-FairRooms k f ((j, s) ∷ m) h v = elim (Bool-cases (j == k)) [
    | inl e ↦ rw e (rw (h s) v.0, v.1)
    | inr e ↦ rw e (v.0, modify-FairRooms k f m h v.1)
  ]

  pub apply_ops-FairRooms :
      (now : ℕ) (ops : List (PendingOp F)) (m : Dict ℕ (RoomState F))
      → FairOps ops
      → FairRooms m
      → FairRooms (apply_ops now ops m)
  unfolding apply_ops apply_op
  apply_ops-FairRooms now [] m o v = v
  apply_ops-FairRooms now (add_room id players ∷ ops) m o v =
      apply_ops-FairRooms now ops _ o.1 (insert-FairRooms id _ m o.0 v)
  apply_ops-FairRooms now (remove_room id ∷ ops) m o v =
      apply_ops-FairRooms now ops _ o (erase-FairRooms id m v)
  apply_ops-FairRooms now (mark_disconnected id p ∷ ops) m o v =
      apply_ops-FairRooms now ops _ o (modify-FairRooms id _ m (λ r. refl) v)

  -- Falling out of a battle, and the cooling of the skills.
  fell_out-FairPlayers :
      (k : ℕ) (m : Dict ℕ (BattlePlayer F)) → FairPlayers m → FairPlayers (modify k fell_out m)
  fell_out-FairPlayers k m v = record {
    sound = λ j. ground (arith, find-modify k j fell_out m, v.sound j);
    balanced = omega (
      arith,
      v.balanced,
      kd-modify (λ p. p.kills) k fell_out m (λ p. refl),
      kd-modify (λ p. p.deaths) k fell_out m (λ p. refl),
    );
  }

  check_disconnected-FairPlayers :
      (now : ℕ) (gone : Dict ℕ ℕ) (r : RoomState F)
      → FairPlayers r.players
      → FairPlayers (check_disconnected now gone r).players
  unfolding check_disconnected
  check_disconnected-FairPlayers now [] r v = v
  check_disconnected-FairPlayers now ((k, since) ∷ gone) r v =
      check_disconnected-FairPlayers now gone _ (either (ltb 30 ((now - since) / 1000)))
    where
      either :
          (b : Bool)
          → FairPlayers
              (if b
                then record {
                  players = modify k fell_out r.players;
                  disconnected = erase k r.disconnected;
                }
                else r).players
      either true = fell_out-FairPlayers k r.players v
      either false = v

  find-update_cooldowns :
      (dt : ℤ) (k : ℕ) (m : Dict ℕ (BattlePlayer F))
      → find k (update_cooldowns dt m)
        ≡ map_option (λ p. record p { cooldowns = cool dt p.cooldowns }) (find k m)
  unfolding update_cooldowns find
  find-update_cooldowns dt k [] = refl
  find-update_cooldowns dt k ((j, p) ∷ m) = ground (arith, find-update_cooldowns dt k m)

  total-update_cooldowns :
      (f : BattlePlayer F → ℕ) (dt : ℤ) (m : Dict ℕ (BattlePlayer F))
      → ((p : BattlePlayer F) → f (record p { cooldowns = cool dt p.cooldowns }) ≡ f p)
      → total f (update_cooldowns dt m) ≡ total f m
  unfolding update_cooldowns total
  total-update_cooldowns f dt [] e = refl
  total-update_cooldowns f dt ((j, p) ∷ m) e = omega (arith, e p, total-update_cooldowns f dt m e)

  update_cooldowns-FairPlayers :
      (dt : ℤ) (m : Dict ℕ (BattlePlayer F)) → FairPlayers m → FairPlayers (update_cooldowns dt m)
  update_cooldowns-FairPlayers dt m v = record {
    sound = λ j. rw (find-update_cooldowns dt j m) (cooled-Sound (find j m) (v.sound j));
    balanced = omega (
      arith,
      v.balanced,
      total-update_cooldowns (λ p. p.kills) dt m (λ p. refl),
      total-update_cooldowns (λ p. p.deaths) dt m (λ p. refl),
    );
  }
    where
      cooled-Sound :
          (o : Option (BattlePlayer F))
          → Sound o
          → Sound (map_option (λ p. record p { cooldowns = cool dt p.cooldowns }) o)
      cooled-Sound none h = tt
      cooled-Sound (some p) h = h

module _ (fl : FloatOps) where
  open fl use {F}

  engine_tick-FairPlayers :
      (cmds : List (Command F)) (m : Dict ℕ (BattlePlayer F)) (h : Shared F)
      → FairPlayers m
      → FairPlayers (engine_tick fl cmds m h).0
  unfolding engine_tick process_tick
  engine_tick-FairPlayers cmds m h v =
      let start : Arena F = record { players = m; last_seq = h.last_seq; sent = [] } in
      let played : IsFair (process_commands fl cmds start) =
        process_commands-IsFair fl cmds start (record { sound = v.sound; balanced = v.balanced }) in
      update_cooldowns-FairPlayers (pos tick_interval_ms) (process_commands fl cmds start).players
        (record { sound = played.sound; balanced = played.balanced })

  tick_rooms-FairRooms :
      (now : ℕ) (cmds : List (Command F)) (m : Dict ℕ (RoomState F)) (h : Shared F)
      → FairRooms m
      → FairRooms (tick_rooms fl now cmds m h).0
  unfolding tick_rooms tick_room
  tick_rooms-FairRooms now cmds [] h v = tt
  tick_rooms-FairRooms now cmds ((k, r) ∷ m) h v = (
    check_disconnected-FairPlayers now r.disconnected _
        (engine_tick-FairPlayers cmds r.players h v.0),
    tick_rooms-FairRooms now cmds m _ v.1,
  )

  -- One round of the loop of a worker, however late it comes and whatever commands wait: if the rooms
  -- it has and the rooms that wait to be added are fair (hit points are at least 0, a player who is
  -- alive has at least 1, and all players of a room together have as many kills as deaths), then so
  -- are its rooms afterwards, those from which a player has fallen out included.
  pub run_once-FairRooms :
      (now elapsed : ℕ) (w : LogicWorker F)
      → FairOps w.pending_ops
      → FairRooms w.rooms
      → FairRooms (run_once fl now elapsed w).rooms
  unfolding run_once tick drain_pending_ops
  run_once-FairRooms now elapsed w o v =
      let added = apply_ops-FairRooms now w.pending_ops w.rooms o v in
      elim (Bool-cases (leb tick_interval_ms elapsed)) [
        | inl e ↦ rw e (tick_rooms-FairRooms now _ _ w.shared added)
        | inr e ↦ rw e added
      ]
