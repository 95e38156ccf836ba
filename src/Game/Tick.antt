-- ===== src/Game/Tick.antt =====
-- src/game/tick_engine.h and tick_engine.cpp: one tick of a battle. Players stand in a map and are
-- changed through their keys, as the source changes them through references, so that a player who
-- attacks himself is one object. A message is a value in place of its serialization; those that
-- go out at once are listed in order.
pub mod Cases
pub mod Health
pub mod Replay
use miniarena.Prelude.{
  ℕ, ◌+◌, ◌-◌, ◌≤◌, Bool, true, false, not, ◌&&◌, ◌||◌, Option, none, some, List, [], ◌∷◌, ◌++◌,
  ltb, leb, ◌==◌, if◌then◌else◌,
}
use miniarena.Prelude.Int.{ℤ, pos, ◌+ℤ◌, ◌-ℤ◌, lebℤ, ltbℤ}
use miniarena.Prelude.Dict.{Dict, find, insert, modify, nat_eq}
use miniarena.Game.Combat.{
  FloatOps, CommandType, move, stop_move, attack, skill, leave, Command, BattlePlayer, SkillDef,
  skill_of, calc_damage,
}

abbrev pub tick_interval_ms : ℕ
tick_interval_ms = 50

-- `PlayerDeathNotify`.
pub record Death : Type 0 where
  pub player_id : ℕ
  pub killer_id : ℕ
  pub death_count : ℕ

-- One entry of `BattleStateNotify`.
pub record PlayerState (F : Type 0) : Type 0 where
  pub player_id : ℕ
  pub position_x : F
  pub position_y : F
  pub direction_x : F
  pub direction_y : F
  pub hp : ℤ
  pub max_hp : ℤ
  pub alive : Bool

-- The players of the room, the engine's `last_seq_`, and the deaths broadcast so far.
pub record Arena (F : Type 0) : Type 0 where
  pub players : Dict ℕ (BattlePlayer F)
  pub last_seq : Dict ℕ ℕ
  pub sent : List Death

-- Whether the sequence number was seen; if not, it is noted.
unfoldable pub is_duplicate : ℕ → ℕ → Dict ℕ ℕ → Bool × Dict ℕ ℕ
is_duplicate pid seq last_seq = elim (find pid last_seq) [
  | none ↦ (false, insert pid seq last_seq)
  | some last ↦ if leb seq last then (true, last_seq) else (false, insert pid seq last_seq)
]

-- The loop over the cooldowns of one player: each is lowered, and erased when none is left.
unfoldable pub cool : ℤ → Dict ℕ ℤ → Dict ℕ ℤ
cool dt_ms [] = []
cool dt_ms ((n, ms) ∷ m) =
    let left = ms -ℤ dt_ms in if lebℤ left (pos 0) then cool dt_ms m else (n, left) ∷ cool dt_ms m

module _ {F : Type 0} where
  -- The parts of a hit, on the target and on the one who hits.
  abbrev pub wound : ℤ → BattlePlayer F → BattlePlayer F
  wound dmg t = record t { hp = t.hp -ℤ dmg; damage_taken = t.damage_taken +ℤ dmg }

  abbrev pub credit : ℤ → BattlePlayer F → BattlePlayer F
  credit dmg a = record a { damage_dealt = a.damage_dealt +ℤ dmg }

  abbrev pub fall : BattlePlayer F → BattlePlayer F
  fall t = record t { hp = pos 0; alive = false; deaths = t.deaths + 1 }

  abbrev pub add_kill : BattlePlayer F → BattlePlayer F
  add_kill a = record a { kills = a.kills + 1 }

  -- What follows a hit: `if (target.hp <= 0) { … }`, with the broadcast if `notify`; `killer_id` is
  -- the `id` of the attacker.
  unfoldable pub settle_kill : Bool → ℕ → ℕ → ℕ → Arena F → Arena F
  settle_kill notify killer_id attacker target s = elim (find target s.players) [
    | none ↦ s
    | some t ↦
        if lebℤ t.hp (pos 0)
        then record s {
          players = modify attacker add_kill (modify target fall s.players);
          sent =
              if notify
              then s.sent
                ++ (record { player_id = t.id; killer_id = killer_id; death_count = t.deaths + 1 }
                    ∷ [])
              else s.sent;
        }
        else s
  ]

  -- `target.hp -= dmg; target.damage_taken += dmg; attacker.damage_dealt += dmg;` and the rest.
  unfoldable pub hit : Bool → ℤ → ℕ → ℕ → ℕ → Arena F → Arena F
  hit notify dmg killer_id attacker target s =
      settle_kill notify killer_id attacker target
        (record s { players = modify attacker (credit dmg) (modify target (wound dmg) s.players) })

  abbrev pub set_cooldown : ℕ → ℤ → BattlePlayer F → BattlePlayer F
  set_cooldown n ms p = record p { cooldowns = insert n ms p.cooldowns }

  -- Whether that skill of the player has time left on its cooldown.
  unfoldable pub cooling : ℕ → BattlePlayer F → Bool
  cooling n p = elim (find n p.cooldowns) [ none ↦ false | some ms ↦ ltbℤ (pos 0) ms ]

  unfoldable pub update_cooldowns : ℤ → Dict ℕ (BattlePlayer F) → Dict ℕ (BattlePlayer F)
  update_cooldowns dt_ms [] = []
  update_cooldowns dt_ms ((k, p) ∷ m) =
      (k, record p { cooldowns = cool dt_ms p.cooldowns }) ∷ update_cooldowns dt_ms m

  unfoldable pub state_of : BattlePlayer F → PlayerState F
  state_of p = record {
    player_id = p.id;
    position_x = p.pos_x;
    position_y = p.pos_y;
    direction_x = p.dir_x;
    direction_y = p.dir_y;
    hp = p.hp;
    max_hp = p.max_hp;
    alive = p.alive;
  }

module _ (fl : FloatOps) where
  open fl use {F, add, sub, mul, div, sqrt, lt, le, of_int, to_int, lit}

  unfoldable pub process_move : F → F → F → BattlePlayer F → BattlePlayer F
  process_move dir_x dir_y dt_sec p =
      let len = sqrt (add (mul dir_x dir_x) (mul dir_y dir_y)) in
      if lt len (lit 1 10000)
      then p
      else let ndx = div dir_x len in
        let ndy = div dir_y len in
        let dist = mul p.move_speed dt_sec in
        record p {
          pos_x = add p.pos_x (mul ndx dist);
          pos_y = add p.pos_y (mul ndy dist);
          dir_x = ndx;
          dir_y = ndy;
        }

  unfoldable pub distance : BattlePlayer F → BattlePlayer F → F
  distance t a =
      let dx = sub t.pos_x a.pos_x in
      let dy = sub t.pos_y a.pos_y in sqrt (add (mul dx dx) (mul dy dy))

  -- `attacker` and `target` are keys of players that the caller has found, `a` and `t`.
  unfoldable pub process_attack : ℕ → BattlePlayer F → ℕ → BattlePlayer F → Arena F → Arena F
  process_attack attacker a target t s =
      if not a.alive || not t.alive
      then s
      else if lt (lit 60 1) (distance t a)
      then s
      else hit true (calc_damage a.atk t.def) a.id attacker target s

  unfoldable pub skill_damage : SkillDef F → BattlePlayer F → BattlePlayer F → ℤ
  skill_damage sk c t = to_int (mul (of_int (calc_damage c.atk t.def)) sk.damage_ratio)

  -- The target of a skill, found before the cooldown is set: `target && target->alive`.
  unfoldable pub strike : SkillDef F → ℕ → BattlePlayer F → ℕ → BattlePlayer F → Arena F → Arena F
  strike sk caster c target t s =
      if not t.alive
      then s
      else if sk.aoe
      then hit false (skill_damage sk c t) c.id caster target s
      else if le (distance t c) sk.range
      then hit true (skill_damage sk c t) c.id caster target s
      else s

  unfoldable pub process_skill :
      ℕ → BattlePlayer F → ℕ → Option (BattlePlayer F) → Command F → Arena F → Arena F
  process_skill caster c target found cmd s =
      if not c.alive then s else elim (skill_of fl cmd.skill_id) [
        | none ↦ s
        | some sk ↦
            if cooling sk.number c
            then s
            else let s' = record s {
              players = modify caster (set_cooldown sk.number sk.cooldown_ms) s.players;
            } in
              elim found [ none ↦ s' | some t ↦ strike sk caster c target t s' ]
      ]

  unfoldable pub dt_sec : F
  dt_sec = div (of_int (pos tick_interval_ms)) (lit 1000 1)

  -- The switch on the command's type, for a sender `p` that is alive.
  unfoldable pub perform : CommandType → Command F → BattlePlayer F → Arena F → Arena F
  perform move cmd p s = record s {
    players = modify cmd.player_id (process_move cmd.move_dir_x cmd.move_dir_y dt_sec) s.players;
  }
  perform stop_move cmd p s = record s {
    players = modify cmd.player_id (λ q. record q { dir_x = lit 0 1; dir_y = lit 0 1 }) s.players;
  }
  perform attack cmd p s = elim (find cmd.target_id s.players) [
    | none ↦ s
    | some t ↦ process_attack cmd.player_id p cmd.target_id t s
  ]
  perform skill cmd p s =
      process_skill cmd.player_id p cmd.target_id (find cmd.target_id s.players) cmd s
  perform leave cmd p s = record s {
    players = modify cmd.player_id (λ q. record q { alive = false }) s.players;
  }

  -- The body of the loop over the commands.
  unfoldable pub process_command : Command F → Arena F → Arena F
  process_command cmd s = elim (find cmd.player_id s.players) [
    | none ↦ s
    | some p ↦
        if not p.alive
        then s
        else let (seen, last) = is_duplicate cmd.player_id cmd.sequence s.last_seq in
          if seen then s else perform cmd.type cmd p (record s { last_seq = last })
  ]

  unfoldable pub process_commands : List (Command F) → Arena F → Arena F
  process_commands [] s = s
  process_commands (cmd ∷ cmds) s = process_commands cmds (process_command cmd s)

  -- The overrides queued for the players, in the order in which the map is iterated.
  unfoldable pub states : Dict ℕ (BattlePlayer F) → List (ℕ × PlayerState F)
  states [] = []
  states ((k, p) ∷ m) = (k, state_of p) ∷ states m

  unfoldable pub process_tick : List (Command F) → Arena F → Arena F × List (ℕ × PlayerState F)
  process_tick cmds s =
      let s1 = process_commands cmds s in
      let s2 = record s1 { players = update_cooldowns (pos tick_interval_ms) s1.players } in
      (s2, states s2.players)
