-- ===== src/Game/Tick/Health.antt =====
-- Hit points, kills and deaths under the commands of src/game/tick_engine.cpp.
use miniarena.Prelude.{
  ℕ, ◌+◌, ◌≡◌, ◌≢◌, refl, Bool, true, false, Option, none, some, List, [], ◌∷◌, arith, ◌==◌,
  if◌then◌else◌, Bool-cases, Option-cases, inl, inr,
}
use miniarena.Prelude.Int.{ℤ, pos, ◌≤ℤ◌, lebℤ, maxℤ}
use miniarena.Prelude.Dict.{Dict, find, modify, nat_eq, find-modify, map_option}
use miniarena.Prelude.Dict.Total.{weight, total, total-modify}
use miniarena.Game.Combat.{
  FloatOps, CommandType, move, stop_move, attack, skill, leave, Command, BattlePlayer, SkillDef,
  calc_damage,
}
use miniarena.Game.Tick.Cases.{
  process_attack_cases, strike_cases, process_skill_cases, cooled, find-cooled,
  process_command_cases,
}
use miniarena.Game.Tick.{
  Arena, wound, credit, fall, add_kill, settle_kill, hit, set_cooldown, process_move,
  process_attack, skill_damage, strike, process_skill, perform, process_command, process_commands,
}

-- Any hit is at least one point.
pub calc_damage-ge_one : (atk def : ℤ) → pos 1 ≤ℤ calc_damage atk def
unfolding calc_damage maxℤ
calc_damage-ge_one atk def = ground arith

module _ {F : Type 0} where
  -- Hit points are never negative, and a player who is alive has some.
  abbrev pub Sound : Option (BattlePlayer F) → Type 0
  Sound none = Unit {0}
  Sound (some p) = (pos 0 ≤ℤ p.hp) × (p.alive ≡ true → pos 1 ≤ℤ p.hp)

  abbrev pub AllSound : Arena F → Type 0
  AllSound s = (k : ℕ) → Sound (find k s.players)

  settle_kill-players :
      (b : Bool) (i a t : ℕ) (s : Arena F)
      → (settle_kill b i a t s).players ≡ (elim (find t s.players) [
        | none ↦ s.players
        | some p ↦
            if lebℤ p.hp (pos 0) then modify a add_kill (modify t fall s.players) else s.players
      ])
  unfolding settle_kill
  settle_kill-players b i a t s = ground arith

  -- A change that leaves hit points and life alone.
  Sound-modify :
      (a k : ℕ) (g : BattlePlayer F → BattlePlayer F) (m : Dict ℕ (BattlePlayer F))
      → ((p : BattlePlayer F) → (g p).hp ≡ p.hp)
      → ((p : BattlePlayer F) → (g p).alive ≡ p.alive)
      → Sound (find k m)
      → Sound (find k (modify a g m))
  Sound-modify a k g m eh ea h = rw (find-modify a k g m) (changed (a == k) (find k m) h)
    where
      changed :
          (b : Bool) (o : Option (BattlePlayer F))
          → Sound o
          → Sound (if b then map_option g o else o)
      changed false o h = h
      changed true none h = tt
      changed true (some p) h = ground (arith, eh p, ea p, h)

  -- What follows a hit puts the target right, if everybody else is sound.
  settled-Sound :
      (a t k : ℕ) (m : Dict ℕ (BattlePlayer F))
      → (t ≢ k → Sound (find k m))
      → Sound (
          find k (elim (find t m) [
            | none ↦ m
            | some p ↦ if lebℤ p.hp (pos 0) then modify a add_kill (modify t fall m) else m
          ]))
  settled-Sound a t k m h = elim (Option-cases (find t m)) [
    | inl e ↦ rw e (ground (arith, h, e))
    | inr (p, e) ↦ elim (Bool-cases (lebℤ p.hp (pos 0))) [
      | inl d ↦
          rw (e, d)
            (Sound-modify a k add_kill (modify t fall m) (λ q. refl) (λ q. refl)
              (ground (arith, h, e, find-modify t k fall m)))
      | inr d ↦ rw (e, d) (ground (arith, h, e, d))
    ]
  ]

  -- A hit on a player keeps everybody sound.
  hit-AllSound :
      (b : Bool) (dmg : ℤ) (i a t : ℕ) (s : Arena F) → AllSound s → AllSound (hit b dmg i a t s)
  unfolding hit
  hit-AllSound b dmg i a t s h k =
      let m0 = modify t (wound dmg) s.players in
      let m1 = modify a (credit dmg) m0 in
      let s1 = record s { players = m1 } in
      rw (settle_kill-players b i a t s1) (
        settled-Sound a t k m1 (λ n.
          Sound-modify a k (credit dmg) m0 (λ p. refl) (λ p. refl)
            (ground (arith, n, find-modify t k (wound dmg) s.players, h k))))

  -- The numbers of kills and deaths of all players together.
  abbrev pub kills : Arena F → ℕ
  kills s = total (λ p. p.kills) s.players

  abbrev pub deaths : Arena F → ℕ
  deaths s = total (λ p. p.deaths) s.players

  -- A change of one player that touches neither count.
  pub kd-modify :
      (f : BattlePlayer F → ℕ) (a : ℕ) (g : BattlePlayer F → BattlePlayer F)
      (m : Dict ℕ (BattlePlayer F))
      → ((p : BattlePlayer F) → f (g p) ≡ f p)
      → total f (modify a g m) ≡ total f m
  kd-modify f a g m e = balance (find a m) (total-modify f a g m)
    where
      balance :
          (o : Option (BattlePlayer F))
          → total f (modify a g m) + weight f o ≡ total f m + weight f (map_option g o)
          → total f (modify a g m) ≡ total f m
      balance none h = omega (arith, h)
      balance (some p) h = omega (arith, h, e p)

  -- A change of one player, who is there, that adds one to a count.
  kd-bump :
      (f : BattlePlayer F → ℕ) (a : ℕ) (g : BattlePlayer F → BattlePlayer F)
      (m : Dict ℕ (BattlePlayer F)) (p : BattlePlayer F)
      → find a m ≡ some p
      → f (g p) ≡ f p + 1
      → total f (modify a g m) ≡ total f m + 1
  kd-bump f a g m p e h = ground (arith, e, h, total-modify f a g m)

  settled-balance :
      (b : Bool) (i a t : ℕ) (s : Arena F) (x : BattlePlayer F)
      → find a s.players ≡ some x
      → kills s ≡ deaths s
      → kills (settle_kill b i a t s) ≡ deaths (settle_kill b i a t s)
  settled-balance b i a t s x e h =
      rw (settle_kill-players b i a t s) (elim (Option-cases (find t s.players)) [
        | inl n ↦ rw n h
        | inr (p, n) ↦ elim (Bool-cases (lebℤ p.hp (pos 0))) [
          | inl d ↦
              rw (n, d)
                (let m = modify t fall s.players in
                  let y : BattlePlayer F = if t == a then fall x else x in
                  let ey : find a m ≡ some y = ground (arith, e, find-modify t a fall s.players) in
                  omega (
                    arith,
                    h,
                    kd-bump (λ q. q.kills) a add_kill m y ey refl,
                    kd-modify (λ q. q.deaths) a add_kill m (λ q. refl),
                    kd-modify (λ q. q.kills) t fall s.players (λ q. refl),
                    kd-bump (λ q. q.deaths) t fall s.players p n refl,
                  ))
          | inr d ↦ rw (n, d) h
        ]
      ])

  -- A hit adds a kill exactly when it adds a death.
  hit-balance :
      (b : Bool) (dmg : ℤ) (i a t : ℕ) (s : Arena F) (x : BattlePlayer F)
      → find a s.players ≡ some x
      → kills s ≡ deaths s
      → kills (hit b dmg i a t s) ≡ deaths (hit b dmg i a t s)
  unfolding hit
  hit-balance b dmg i a t s x e h =
      let m0 = modify t (wound dmg) s.players in
      let m1 = modify a (credit dmg) m0 in
      let s1 = record s { players = m1 } in
      let y : BattlePlayer F = if a == t then credit dmg (wound dmg x) else credit dmg x in
      let ey : find a m1 ≡ some y =
        ground (arith, e, find-modify a a (credit dmg) m0, find-modify t a (wound dmg) s.players) in
      let k1 : kills s1 ≡ deaths s1 = omega (
        arith,
        h,
        kd-modify (λ p. p.kills) a (credit dmg) m0 (λ p. refl),
        kd-modify (λ p. p.deaths) a (credit dmg) m0 (λ p. refl),
        kd-modify (λ p. p.kills) t (wound dmg) s.players (λ p. refl),
        kd-modify (λ p. p.deaths) t (wound dmg) s.players (λ p. refl),
      ) in
      settled-balance b i a t s1 y ey k1

-- What a battle keeps: sound players, and as many kills as deaths.
pub record IsFair {F : Type 0} (s : Arena F) : Type 0 where
  pub sound : AllSound s
  pub balanced : kills s ≡ deaths s

module _ {F : Type 0} where
  hit-IsFair :
      (b : Bool) (dmg : ℤ) (i a t : ℕ) (s : Arena F) (x : BattlePlayer F)
      → find a s.players ≡ some x
      → IsFair s
      → IsFair (hit b dmg i a t s)
  hit-IsFair b dmg i a t s x e v = record {
    sound = hit-AllSound b dmg i a t s v.sound;
    balanced = hit-balance b dmg i a t s x e v.balanced;
  }

  -- A change of one player that keeps life, hit points and both counts.
  modify-IsFair :
      (a : ℕ) (g : BattlePlayer F → BattlePlayer F) (s : Arena F)
      → ((p : BattlePlayer F) → (g p).hp ≡ p.hp)
      → ((p : BattlePlayer F) → (g p).alive ≡ p.alive)
      → ((p : BattlePlayer F) → (g p).kills ≡ p.kills)
      → ((p : BattlePlayer F) → (g p).deaths ≡ p.deaths)
      → IsFair s
      → IsFair (record s { players = modify a g s.players })
  modify-IsFair a g s eh ea ek ed v = record {
    sound = λ k. Sound-modify a k g s.players eh ea (v.sound k);
    balanced = omega (
      arith,
      v.balanced,
      kd-modify (λ p. p.kills) a g s.players ek,
      kd-modify (λ p. p.deaths) a g s.players ed,
    );
  }

  leave-Sound :
      (a k : ℕ) (m : Dict ℕ (BattlePlayer F))
      → Sound (find k m)
      → Sound (find k (modify a (λ q. record q { alive = false }) m))
  leave-Sound a k m h =
      ground (arith, h, find-modify a k (λ (q : BattlePlayer F). record q { alive = false }) m)

module _ (fl : FloatOps) where
  open fl use {F, le, lit}

  attack-IsFair :
      (i : ℕ) (a : BattlePlayer F) (j : ℕ) (t : BattlePlayer F) (s : Arena F)
      → find i s.players ≡ some a
      → IsFair s
      → IsFair (process_attack fl i a j t s)
  unfolding process_attack
  attack-IsFair i a j t s e v =
      process_attack_cases fl IsFair i a j t s v
        (hit-IsFair true (calc_damage a.atk t.def) a.id i j s a e v)

  strike-IsFair :
      (sk : SkillDef F) (i : ℕ) (c : BattlePlayer F) (j : ℕ) (t : BattlePlayer F) (s : Arena F)
      (x : BattlePlayer F)
      → find i s.players ≡ some x
      → IsFair s
      → IsFair (strike fl sk i c j t s)
  strike-IsFair sk i c j t s x e v =
      strike_cases fl IsFair sk i c j t s v
        λ b. hit-IsFair b (skill_damage fl sk c t) c.id i j s x e v

  skill-IsFair :
      (i : ℕ) (c : BattlePlayer F) (j : ℕ) (found : Option (BattlePlayer F)) (cmd : Command F)
      (s : Arena F)
      → find i s.players ≡ some c
      → IsFair s
      → IsFair (process_skill fl i c j found cmd s)
  skill-IsFair i c j found cmd s e v =
      let cool-IsFair = λ (sk : SkillDef F).
        modify-IsFair i (set_cooldown sk.number sk.cooldown_ms) s (λ p. refl) (λ p. refl)
          (λ p. refl) (λ p. refl) v in
      process_skill_cases fl IsFair i c j found cmd s v cool-IsFair λ sk t.
        strike-IsFair sk i c j t (cooled i sk s) (set_cooldown sk.number sk.cooldown_ms c)
          (find-cooled i sk s c e) (cool-IsFair sk)

  perform-IsFair :
      (ty : CommandType) (cmd : Command F) (p : BattlePlayer F) (s : Arena F)
      → find cmd.player_id s.players ≡ some p
      → IsFair s
      → IsFair (perform fl ty cmd p s)
  unfolding perform process_move
  perform-IsFair move cmd p s e v =
      modify-IsFair cmd.player_id _ s (λ q. ground arith) (λ q. ground arith) (λ q. ground arith)
        (λ q. ground arith) v
  perform-IsFair stop_move cmd p s e v =
      modify-IsFair cmd.player_id _ s (λ p. refl) (λ p. refl) (λ p. refl) (λ p. refl) v
  perform-IsFair attack cmd p s e v = attack_option (find cmd.target_id s.players) refl
    where
      attack_option :
          (o : Option (BattlePlayer F))
          → find cmd.target_id s.players ≡ o
          → IsFair (perform fl attack cmd p s)
      attack_option none n = rw (n, perform) v
      attack_option (some t) n =
          rw (n, perform) (attack-IsFair cmd.player_id p cmd.target_id t s e v)
  perform-IsFair skill cmd p s e v =
      skill-IsFair cmd.player_id p cmd.target_id (find cmd.target_id s.players) cmd s e v
  perform-IsFair leave cmd p s e v = record {
    sound = λ k. leave-Sound cmd.player_id k s.players (v.sound k);
    balanced = omega (
      arith,
      v.balanced,
      kd-modify (λ q. q.kills) cmd.player_id (λ q. record q { alive = false }) s.players
          (λ q. refl),
      kd-modify (λ q. q.deaths) cmd.player_id (λ q. record q { alive = false }) s.players
          (λ q. refl),
    );
  }

  -- Whatever commands arrive, in whatever order, and whatever the floating-point operations return:
  -- hit points stay at least 0, a player who is alive has at least 1, and all players together have
  -- as many kills as deaths.
  pub process_commands-IsFair :
      (cmds : List (Command F)) (s : Arena F) → IsFair s → IsFair (process_commands fl cmds s)
  unfolding process_commands
  process_commands-IsFair [] s v = v
  process_commands-IsFair (cmd ∷ cmds) s v =
      process_commands-IsFair cmds (process_command fl cmd s) (
        process_command_cases fl IsFair cmd s v λ p last e alive.
          perform-IsFair cmd.type cmd p (record s { last_seq = last }) e
            (record { sound = v.sound; balanced = v.balanced }))
