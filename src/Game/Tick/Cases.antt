-- ===== src/Game/Tick/Cases.antt =====
-- Case rules for the functions of a tick: what can be left behind by each.
use miniarena.Prelude.{
  ℕ, ◌≡◌, Bool, true, false, Option, some, arith, Bool-cases, Option-cases, inl, inr,
}
use miniarena.Prelude.Dict.{Dict, find, modify, nat_eq, find-modify}
use miniarena.Game.Combat.{FloatOps, Command, BattlePlayer, SkillDef, skill_of, calc_damage}
use miniarena.Game.Tick.{
  Arena, is_duplicate, hit, set_cooldown, cooling, process_attack, skill_damage, strike,
  process_skill, perform, process_command,
}

-- The state once the caster's cooldown is set.
abbrev pub cooled : {F : Type 0} → ℕ → SkillDef F → Arena F → Arena F
cooled i sk s = record s { players = modify i (set_cooldown sk.number sk.cooldown_ms) s.players }

pub find-cooled :
    {F : Type 0} (i : ℕ) (sk : SkillDef F) (s : Arena F) (c : BattlePlayer F)
    → find i s.players ≡ some c
    → find i (cooled i sk s).players ≡ some (set_cooldown sk.number sk.cooldown_ms c)
find-cooled i sk s c e =
    ground (arith, e, find-modify i i (set_cooldown sk.number sk.cooldown_ms) s.players)

module _ (fl : FloatOps) (P : Arena fl.F → Type 0) where
  open fl use {F}

  pub process_attack_cases :
      (i : ℕ) (a : BattlePlayer F) (j : ℕ) (t : BattlePlayer F) (s : Arena F)
      → P s
      → P (hit true (calc_damage a.atk t.def) a.id i j s)
      → P (process_attack fl i a j t s)
  unfolding process_attack
  process_attack_cases i a j t s same struck = ground (arith, same, struck)

  pub strike_cases :
      (sk : SkillDef F) (i : ℕ) (c : BattlePlayer F) (j : ℕ) (t : BattlePlayer F) (s : Arena F)
      → P s
      → ((b : Bool) → P (hit b (skill_damage fl sk c t) c.id i j s))
      → P (strike fl sk i c j t s)
  unfolding strike
  strike_cases sk i c j t s same struck = ground (arith, same, struck true, struck false)

  pub process_skill_cases :
      (i : ℕ) (c : BattlePlayer F) (j : ℕ) (found : Option (BattlePlayer F)) (cmd : Command F)
      (s : Arena F)
      → P s
      → ((sk : SkillDef F) → P (cooled i sk s))
      → ((sk : SkillDef F) (t : BattlePlayer F) → P (strike fl sk i c j t (cooled i sk s)))
      → P (process_skill fl i c j found cmd s)
  unfolding process_skill
  process_skill_cases i c j found cmd s same wasted struck = elim (Bool-cases c.alive) [
    | inr d ↦ rw d same
    | inl l ↦ elim (Option-cases (skill_of fl cmd.skill_id)) [
      | inl n ↦ rw (l, n) same
      | inr (sk, k) ↦ elim (Bool-cases (cooling sk.number c)) [
        | inl w ↦ rw (l, k, w) same
        | inr r ↦ elim (Option-cases found) [
          | inl n ↦ rw (l, k, r, n) (wasted sk)
          | inr (t, f) ↦ rw (l, k, r, f) (struck sk t)
        ]
      ]
    ]
  ]

  pub process_command_cases :
      (cmd : Command F) (s : Arena F)
      → P s
      → ((p : BattlePlayer F) (last : Dict ℕ ℕ)
          → find cmd.player_id s.players ≡ some p
          → p.alive ≡ true
          → P (perform fl cmd.type cmd p (record s { last_seq = last })))
      → P (process_command fl cmd s)
  unfolding process_command
  process_command_cases cmd s same done = elim (Option-cases (find cmd.player_id s.players)) [
    | inl n ↦ rw (n, process_command) same
    | inr (p, e) ↦ elim (Bool-cases p.alive) [
      | inr d ↦ rw (e, process_command) (rw d same)
      | inl l ↦
          rw (e, process_command)
            (rw l (
              ground
                (arith, same, done p (is_duplicate cmd.player_id cmd.sequence s.last_seq).1 e l)))
    ]
  ]
