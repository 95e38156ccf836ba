-- ===== src/Game/Battles/Fair.antt =====
-- Fair battles (hit points, kills and deaths) in all the workers of src/game/battle_manager.cpp.
use miniarena.Prelude.{
  ℕ, zero, suc, ◌+◌, ◌≡◌, leb, refl, subst, sym, Bool, true, false, some, List, [], ◌∷◌, ◌++◌,
  arith, ◌==◌, length, if◌then◌else◌, Bool-cases, Option-cases, inl, inr, get_elem?,
}
use miniarena.Prelude.Dict.{Dict, find, insert, nat_eq, find-insert}
use miniarena.Prelude.Dict.Total.{total, total-insert}
use miniarena.Game.Combat.{FloatOps, Command, BattlePlayer, new_player}
use miniarena.Game.Room.{Room, RoomPlayerInfo}
use miniarena.Game.Sessions.{Storage, SessionManager}
use miniarena.Game.Tick.Health.{Sound}
use miniarena.Game.Tick.{tick_interval_ms}
use miniarena.Game.Worker.{
  PendingOp, add_room, remove_room, new_worker, mark_disconnected, LogicWorker, push_op,
  push_command, room_count, drain_pending_ops, run_once, tick,
}
use miniarena.Game.Worker.Fair.{
  FairPlayers, FairRooms, FairOps, apply_ops-FairRooms, run_once-FairRooms,
}
use miniarena.Game.Battles.{
  BattleManager, placed, battle_players, change_at, make_workers, wake_workers, dispatch_command,
  on_player_disconnect, start_battle, assign_worker,
}

module _ {F : Type 0} where
  -- What a worker has and what it is about to add is fair.
  abbrev pub FairWorker : LogicWorker F → Type 0
  FairWorker w = FairOps w.pending_ops × FairRooms w.rooms

  abbrev pub AllFair : List (LogicWorker F) → Type 0
  AllFair [] = Unit {0}
  AllFair (w ∷ ws) = FairWorker w × AllFair ws

  change_at-AllFair :
      (i : ℕ) (f : LogicWorker F → LogicWorker F) (ws : List (LogicWorker F))
      → ((w : LogicWorker F) → FairWorker w → FairWorker (f w))
      → AllFair ws
      → AllFair (change_at i f ws)
  unfolding change_at
  change_at-AllFair i f [] h v = tt
  change_at-AllFair zero f (w ∷ ws) h v = (h w v.0, v.1)
  change_at-AllFair (suc i) f (w ∷ ws) h v = (v.0, change_at-AllFair i f ws h v.1)

  pub get_elem?-FairWorker :
      (i : ℕ) (ws : List (LogicWorker F)) (w : LogicWorker F)
      → AllFair ws
      → get_elem? ws i ≡ some w
      → FairWorker w
  get_elem?-FairWorker i [] w v e = absurd (ground (arith, e))
  get_elem?-FairWorker zero (x ∷ ws) w v e =
      let q : x ≡ w = ground (arith, e) in subst FairWorker q v.0
  get_elem?-FairWorker (suc i) (x ∷ ws) w v e = get_elem?-FairWorker i ws w v.1 e

  FairOps-append :
      (ops : List (PendingOp F)) (op : PendingOp F)
      → FairOps ops
      → FairOps (op ∷ [])
      → FairOps (ops ++ (op ∷ []))
  FairOps-append [] op v h = h
  FairOps-append (add_room id players ∷ ops) op v h = (v.0, FairOps-append ops op v.1 h)
  FairOps-append (remove_room id ∷ ops) op v h = FairOps-append ops op v h
  FairOps-append (mark_disconnected id p ∷ ops) op v h = FairOps-append ops op v h

  push_op-AllFair :
      (i : ℕ) (op : PendingOp F) (ws : List (LogicWorker F))
      → FairOps (op ∷ [])
      → AllFair ws
      → AllFair (change_at i (push_op op) ws)
  unfolding push_op
  push_op-AllFair i op ws h v =
      change_at-AllFair i (push_op op) ws (λ w g. (FairOps-append w.pending_ops op g.0 h, g.1)) v

  wake_workers-AllFair :
      (now : ℕ) (ws : List (LogicWorker F)) → AllFair ws → AllFair (wake_workers now ws)
  unfolding wake_workers drain_pending_ops
  wake_workers-AllFair now [] v = tt
  wake_workers-AllFair now (w ∷ ws) v = (woken (room_count w == 0), wake_workers-AllFair now ws v.1)
    where
      woken : (b : Bool) → FairWorker (if b then drain_pending_ops now w else w)
      woken true = (tt, apply_ops-FairRooms now w.pending_ops w.rooms v.0.0 v.0.1)
      woken false = v.0

  pub dispatch_command-AllFair :
      (room_id : ℕ) (cmd : Command F) (b : BattleManager F)
      → AllFair b.workers
      → AllFair (dispatch_command room_id cmd b).workers
  unfolding push_command dispatch_command
  dispatch_command-AllFair room_id cmd b v = elim (Option-cases (find room_id b.room_to_worker)) [
    | inl e ↦ rw (e, dispatch_command) v
    | inr (i, e) ↦
        rw (e, dispatch_command) (change_at-AllFair i (push_command cmd) b.workers (λ w g. g) v)
  ]

  pub on_player_disconnect-AllFair :
      (player_id room_id : ℕ) (b : BattleManager F)
      → AllFair b.workers
      → AllFair (on_player_disconnect player_id room_id b).workers
  unfolding on_player_disconnect
  on_player_disconnect-AllFair player_id room_id b v =
      elim (Option-cases (find room_id b.room_to_worker)) [
        | inl e ↦ rw (e, on_player_disconnect) v
        | inr (i, e) ↦
            rw (e, on_player_disconnect)
              (push_op-AllFair i (mark_disconnected room_id player_id) b.workers tt v)
      ]

pub make_workers-AllFair : (F : Type 0) (n i : ℕ) → AllFair (make_workers F n i)
unfolding make_workers new_worker
make_workers-AllFair F zero i = tt
make_workers-AllFair F (suc n) i = ((tt, tt), make_workers-AllFair F n (i + 1))

module _ (fl : FloatOps) where
  open fl use {F}

  -- The players of a new battle are alive and have full hit points, and nobody has killed.
  battle_players-FairPlayers :
      (rest : Dict ℕ RoomPlayerInfo) (m : Dict ℕ (BattlePlayer F))
      → ((k : ℕ) → Sound (find k m))
      → total (λ p. p.kills) m ≡ 0
      → total (λ p. p.deaths) m ≡ 0
      → FairPlayers (battle_players fl rest m)
  unfolding battle_players placed new_player
  battle_players-FairPlayers [] m s k d = record { sound = s; balanced = omega (arith, k, d) }
  battle_players-FairPlayers ((pid, info) ∷ rest) m s k d =
      let p = placed fl (length m) pid info in
      battle_players-FairPlayers rest (insert pid p m)
        (λ j. ground (arith, s j, find-insert pid j p m))
        (omega (arith, k, total-insert (λ q. q.kills) pid p m))
        (omega (arith, d, total-insert (λ q. q.deaths) pid p m))

  -- Starting the battle of a room, whatever its players are, keeps all battles fair: those that run
  -- and those that wait to be added, the new one included.
  pub start_battle-AllFair :
      (db : Storage) (now : ℕ) (r : Room) (b : BattleManager F) (m : SessionManager db)
      → AllFair b.workers
      → AllFair (start_battle db fl now r b m).0.workers
  unfolding start_battle find total
  start_battle-AllFair db now r b m v = wake_workers-AllFair now _ (
      push_op-AllFair (assign_worker r.room_id b) _ b.workers
        (battle_players-FairPlayers r.players [] (λ k. tt) refl refl, tt) v)

  -- A round leaves no operation waiting.
  run_once-pending_ops :
      (now elapsed : ℕ) (w : LogicWorker F) → (run_once fl now elapsed w).pending_ops ≡ []
  unfolding run_once tick drain_pending_ops
  run_once-pending_ops now elapsed w = elim (Bool-cases (leb tick_interval_ms elapsed)) [
    | inl e ↦ rw e refl
    | inr e ↦ rw e refl
  ]

  pub run_once-FairWorker :
      (now elapsed : ℕ) (w : LogicWorker F) → FairWorker w → FairWorker (run_once fl now elapsed w)
  run_once-FairWorker now elapsed w v = (
    subst FairOps (sym (run_once-pending_ops now elapsed w)) tt,
    run_once-FairRooms fl now elapsed w v.0 v.1,
  )

  -- The round of one worker, whose calls are then taken off its broadcaster.
  pub round-AllFair :
      (i : ℕ) (v : LogicWorker F) (ws : List (LogicWorker F))
      → FairWorker v
      → AllFair ws
      → AllFair (change_at i (λ x. v) ws)
  round-AllFair i v ws g h = change_at-AllFair i (λ x. v) ws (λ w k. g) h
