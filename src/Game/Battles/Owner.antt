-- ===== src/Game/Battles/Owner.antt =====
-- Which worker of src/game/battle_manager.cpp has the battle of a room, and gets its commands.
use miniarena.Prelude.{
  ℕ, zero, suc, ◌%◌, ◌<◌, ◌≡◌, refl, ap, ◌∙◌, Bool, true, false, some, List, [], ◌∷◌, ◌++◌, arith,
  ◌==◌, length, if◌then◌else◌, get_elem?,
}
use native.Mathlib.Nat.{mod-lt}
use miniarena.Prelude.Dict.{Dict, find, nat_eq, find-insert_self}
use miniarena.Game.Combat.{FloatOps, Command, BattlePlayer}
use miniarena.Game.Room.{Room}
use miniarena.Game.Sessions.{Storage, SessionManager}
use miniarena.Game.Worker.{
  RoomState, PendingOp, add_room, LogicWorker, push_op, push_command, room_count, apply_op,
  apply_ops, drain_pending_ops,
}
use miniarena.Game.Battles.{
  BattleManager, battle_players, change_at, wake_workers, assign_worker, dispatch_command,
  start_battle,
}

get_elem?-lt :
    {A : Type 0} (xs : List A) (i : ℕ) → i < length xs → (a : A) × (get_elem? xs i ≡ some a)
get_elem?-lt [] i h = absurd (omega (arith, h))
get_elem?-lt (x ∷ xs) zero h = (x, refl)
get_elem?-lt (x ∷ xs) (suc i) h = get_elem?-lt xs i (omega (arith, h))

get_elem?-change_at :
    {A : Type 0} (f : A → A) (xs : List A) (i : ℕ) (a : A)
    → get_elem? xs i ≡ some a
    → get_elem? (change_at i f xs) i ≡ some (f a)
unfolding change_at
get_elem?-change_at f [] i a e = absurd (ground (arith, e))
get_elem?-change_at f (x ∷ xs) zero a e =
    let q : x ≡ a = ground (arith, e) in ap (λ y. some (f y)) q
get_elem?-change_at f (x ∷ xs) (suc i) a e = get_elem?-change_at f xs i a e

module _ {F : Type 0} where
  abbrev woken : ℕ → LogicWorker F → LogicWorker F
  woken now w = if room_count w == 0 then drain_pending_ops now w else w

  get_elem?-wake_workers :
      (now : ℕ) (ws : List (LogicWorker F)) (i : ℕ) (w : LogicWorker F)
      → get_elem? ws i ≡ some w
      → get_elem? (wake_workers now ws) i ≡ some (woken now w)
  unfolding wake_workers
  get_elem?-wake_workers now [] i w e = absurd (ground (arith, e))
  get_elem?-wake_workers now (x ∷ ws) zero w e =
      let q : x ≡ w = ground (arith, e) in ap (λ y. some (woken now y)) q
  get_elem?-wake_workers now (x ∷ ws) (suc i) w e = get_elem?-wake_workers now ws i w e

  apply_ops-append :
      (now : ℕ) (ops : List (PendingOp F)) (op : PendingOp F) (rooms : Dict ℕ (RoomState F))
      → apply_ops now (ops ++ (op ∷ [])) rooms ≡ apply_op now op (apply_ops now ops rooms)
  unfolding apply_ops
  apply_ops-append now [] op rooms = refl
  apply_ops-append now (o ∷ ops) op rooms = apply_ops-append now ops op (apply_op now o rooms)

  -- A worker that is drained has no operation left, so draining it again changes nothing.
  drain-woken :
      (now later : ℕ) (w : LogicWorker F) (b : Bool)
      → (drain_pending_ops later (if b then drain_pending_ops now w else w)).rooms
        ≡ apply_ops (if b then now else later) w.pending_ops w.rooms
  unfolding drain_pending_ops apply_ops
  drain-woken now later w true = refl
  drain-woken now later w false = refl

module _ {F : Type 0} where
  drained_room :
      (now later room_id : ℕ) (players : Dict ℕ (BattlePlayer F)) (w : LogicWorker F)
      → find room_id
          (drain_pending_ops later (woken now (push_op (add_room room_id players) w))).rooms
        ≡ some (record { players = players; disconnected = [] })
  unfolding push_op apply_op
  drained_room now later room_id players w =
      let op : PendingOp F = add_room room_id players in
      let v = push_op op w in
      let b = room_count v == 0 in
      let t = if b then now else later in
      ap (find room_id) (drain-woken now later v b ∙ apply_ops-append t w.pending_ops op w.rooms)
      ∙ find-insert_self room_id _ (apply_ops t w.pending_ops w.rooms)

  dispatch-change :
      (room_id i : ℕ) (cmd : Command F) (b : BattleManager F) (w : LogicWorker F)
      → find room_id b.room_to_worker ≡ some i
      → get_elem? b.workers i ≡ some w
      → get_elem? (dispatch_command room_id cmd b).workers i ≡ some (push_command cmd w)
  unfolding dispatch_command
  dispatch-change room_id i cmd b w e g =
      rw (e, dispatch_command) (get_elem?-change_at (push_command cmd) b.workers i w g)

module _ (db : Storage) (fl : FloatOps) where
  open fl use {F}

  -- When a battle is started with at least one worker, the room belongs to the worker whose index is
  -- the room's id modulo the number of workers: once that worker takes what waits for it, it runs the
  -- room with the players of the battle, and a command for the room goes to the end of its queue.
  pub start_battle_lem :
      (now later : ℕ) (r : Room) (cmd : Command F) (b : BattleManager F) (m : SessionManager db)
      → 0 < length b.workers
      → let c = (start_battle db fl now r b m).0 in
        let i = r.room_id % length b.workers in
        (w : LogicWorker F) × (get_elem? c.workers i ≡ some w)
        × (find r.room_id (drain_pending_ops later w).rooms
            ≡ some (record { players = battle_players fl r.players []; disconnected = [] }))
        × (get_elem? (dispatch_command r.room_id cmd c).workers i ≡ some (push_command cmd w))
  unfolding start_battle assign_worker
  start_battle_lem now later r cmd b m h =
      let i = r.room_id % length b.workers in
      let op : PendingOp F = add_room r.room_id (battle_players fl r.players []) in
      let c = (start_battle db fl now r b m).0 in
      let (w, e) = get_elem?-lt b.workers i (mod-lt r.room_id h) in
      let v = woken now (push_op op w) in
      let g : get_elem? c.workers i ≡ some v =
        get_elem?-wake_workers now _ i (push_op op w)
          (get_elem?-change_at (push_op op) b.workers i w e) in
      (
        v,
        g,
        drained_room now later r.room_id (battle_players fl r.players []) w,
        dispatch-change r.room_id i cmd c v (find-insert_self r.room_id i b.room_to_worker) g,
      )
