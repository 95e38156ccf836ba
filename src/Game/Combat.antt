-- ===== src/Game/Combat.antt =====
-- src/game/battle_player.h, command.h and command.cpp, and the skill table of tick_engine.h and
-- tick_engine.cpp: the data of a battle. `float` is a parameter: a type with the operations that the
-- source uses, of which nothing is assumed. `int32_t` values do not overflow; counters that only
-- grow are natural numbers.
use miniarena.Prelude.{
  ℕ, Bool, true, false, Option, none, some, List, [], ◌∷◌, ◌++◌, String, ◌==◌, if◌then◌else◌,
}
use miniarena.Prelude.Int.{ℤ, pos, negsuc, ◌-ℤ◌, maxℤ, half}
use miniarena.Prelude.Dict.{Dict}

pub record FloatOps : Type 1 where
  pub F : Type 0
  pub add : F → F → F
  pub sub : F → F → F
  pub mul : F → F → F
  pub div : F → F → F
  pub sqrt : F → F
  pub lt : F → F → Bool
  pub le : F → F → Bool
  pub of_int : ℤ → F
  -- `static_cast<int32_t>`
  pub to_int : F → ℤ
  pub floor : F → F
  -- the literal with that numerator and denominator
  pub lit : ℕ → ℕ → F

pub data CommandType : Type 0 where
  move stop_move attack skill leave : CommandType

pub record Command (F : Type 0) : Type 0 where
  pub type : CommandType
  pub player_id : ℕ
  pub sequence : ℕ
  pub timestamp_ms : ℕ
  pub move_dir_x : F
  pub move_dir_y : F
  pub target_id : ℕ
  pub skill_id : ℤ
  pub skill_target_x : F
  pub skill_target_y : F

pub record BattlePlayer (F : Type 0) : Type 0 where
  pub id : ℕ
  pub username : String
  pub pos_x : F
  pub pos_y : F
  pub dir_x : F
  pub dir_y : F
  pub hp : ℤ
  pub max_hp : ℤ
  pub atk : ℤ
  pub def : ℤ
  pub move_speed : F
  pub alive : Bool
  pub cooldowns : Dict ℕ ℤ
  pub kills : ℕ
  pub deaths : ℕ
  pub damage_dealt : ℤ
  pub damage_taken : ℤ

-- A player with the default attributes.
unfoldable pub new_player : (fl : FloatOps) → ℕ → String → BattlePlayer fl.F
new_player fl id username = record {
  id = id;
  username = username;
  pos_x = fl.lit 0 1;
  pos_y = fl.lit 0 1;
  dir_x = fl.lit 0 1;
  dir_y = fl.lit 1 1;
  hp = pos 1000;
  max_hp = pos 1000;
  atk = pos 100;
  def = pos 50;
  move_speed = fl.lit 200 1;
  alive = true;
  cooldowns = [];
  kills = 0;
  deaths = 0;
  damage_dealt = pos 0;
  damage_taken = pos 0;
}

pub record SkillDef (F : Type 0) : Type 0 where
  pub number : ℕ
  pub cooldown_ms : ℤ
  pub damage_ratio : F
  pub range : F
  pub aoe : Bool
  pub aoe_radius : F

-- `kSkills`.
abbrev pub heavy_strike : (fl : FloatOps) → SkillDef fl.F
heavy_strike fl = record {
  number = 1;
  cooldown_ms = pos 3000;
  damage_ratio = fl.lit 3 2;
  range = fl.lit 50 1;
  aoe = false;
  aoe_radius = fl.lit 0 1;
}

abbrev pub whirlwind : (fl : FloatOps) → SkillDef fl.F
whirlwind fl = record {
  number = 2;
  cooldown_ms = pos 5000;
  damage_ratio = fl.lit 4 5;
  range = fl.lit 80 1;
  aoe = true;
  aoe_radius = fl.lit 60 1;
}

abbrev pub dash : (fl : FloatOps) → SkillDef fl.F
dash fl = record {
  number = 3;
  cooldown_ms = pos 8000;
  damage_ratio = fl.lit 1 2;
  range = fl.lit 200 1;
  aoe = false;
  aoe_radius = fl.lit 0 1;
}

-- `kSkills[skill_id - 1]`, and nothing for an id outside 1 to `kNumSkills`.
unfoldable pub skill_of : (fl : FloatOps) → ℤ → Option (SkillDef fl.F)
skill_of fl (negsuc n) = none
skill_of fl (pos n) =
    if n == 1
    then some (heavy_strike fl)
    else if n == 2
    then some (whirlwind fl)
    else if n == 3
    then some (dash fl)
    else none

unfoldable pub calc_damage : ℤ → ℤ → ℤ
calc_damage atk def = maxℤ (pos 1) (atk -ℤ half def)

-- The queue of commands between the I/O threads and a logic thread; each call holds the lock.
unfoldable pub push {ℓ} : {A : Type ℓ} → A → List A → List A
push cmd queue = queue ++ (cmd ∷ [])

-- `drain` moves the commands one by one to the result and leaves the queue empty.
drain_into {ℓ} : {A : Type ℓ} → List A → List A → List A × List A
drain_into result [] = (result, [])
drain_into result (cmd ∷ queue) = drain_into (result ++ (cmd ∷ [])) queue

unfoldable pub drain {ℓ} : {A : Type ℓ} → List A → List A × List A
unfolding drain_into
drain queue = drain_into [] queue
