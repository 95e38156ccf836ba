-- ===== src/Game/Tick/Replay.antt =====
-- Which commands have an effect, and on whom.
use miniarena.Prelude.{
  ℕ, ◌≤◌, ◌≡◌, ◌≢◌, refl, ap, ◌∙◌, Bool, true, false, Option, none, some, arith, leb, Bool-cases,
  Option-cases, inl, inr,
}
use miniarena.Prelude.Int.{ℤ}
use miniarena.Prelude.Dict.{Dict, find, insert, modify, nat_eq, find-modify, find-insert_self}
use miniarena.Game.Combat.{
  FloatOps, CommandType, move, stop_move, attack, skill, leave, Command, BattlePlayer, SkillDef,
  calc_damage,
}
use miniarena.Game.Tick.Cases.{
  process_attack_cases, strike_cases, process_skill_cases, cooled, process_command_cases,
}
use miniarena.Game.Tick.{
  Arena, is_duplicate, wound, credit, fall, add_kill, settle_kill, hit, set_cooldown, strike,
  process_skill, perform, process_command,
}

module _ {F : Type 0} where
  -- Players other than `i` and `j` are the same in both states, and so are the sequence numbers.
  pub record OnlyTouches (i j : ℕ) (s t : Arena F) : Type 0 where
    pub others : (k : ℕ) → i ≢ k → j ≢ k → find k t.players ≡ find k s.players
    pub numbers : t.last_seq ≡ s.last_seq

  find-modify_ne :
      (i k : ℕ) (g : BattlePlayer F → BattlePlayer F) (m : Dict ℕ (BattlePlayer F))
      → i ≢ k
      → find k (modify i g m) ≡ find k m
  find-modify_ne i k g m n = ground (arith, n, find-modify i k g m)

  touch_same : (i j : ℕ) (s : Arena F) → OnlyTouches i j s s
  touch_same i j s = record { others = λ k a b. refl; numbers = refl }

  touch_trans :
      (i j : ℕ) (s t u : Arena F) → OnlyTouches i j s t → OnlyTouches i j t u → OnlyTouches i j s u
  touch_trans i j s t u p q = record {
    others = λ k a b. q.others k a b ∙ p.others k a b;
    numbers = q.numbers ∙ p.numbers;
  }

  touch-modify :
      (i j : ℕ) (g : BattlePlayer F → BattlePlayer F) (s : Arena F)
      → OnlyTouches i j s (record s { players = modify i g s.players })
  touch-modify i j g s = record {
    others = λ k a b. find-modify_ne i k g s.players a;
    numbers = refl;
  }

  hit-OnlyTouches :
      (b : Bool) (dmg : ℤ) (id i j : ℕ) (s : Arena F) → OnlyTouches i j s (hit b dmg id i j s)
  unfolding hit settle_kill
  hit-OnlyTouches b dmg id i j s =
      let m0 = modify j (wound dmg) s.players in
      let m1 = modify i (credit dmg) m0 in
      record {
        others = λ k p q. ground (
          arith,
          find-modify_ne j k (wound dmg) s.players q,
          find-modify_ne i k (credit dmg) m0 p,
          find-modify_ne j k fall m1 q,
          find-modify_ne i k add_kill (modify j fall m1) p,
        );
        numbers = ground arith;
      }

module _ (fl : FloatOps) where
  open fl use {F}

  skill-OnlyTouches :
      (i : ℕ) (c : BattlePlayer F) (j : ℕ) (found : Option (BattlePlayer F)) (cmd : Command F)
      (s : Arena F)
      → OnlyTouches i j s (process_skill fl i c j found cmd s)
  skill-OnlyTouches i c j found cmd s =
      let chill = λ (sk : SkillDef F). touch-modify i j (set_cooldown sk.number sk.cooldown_ms) s in
      process_skill_cases fl (OnlyTouches i j s) i c j found cmd s (touch_same i j s) chill λ sk t.
        touch_trans i j s (cooled i sk s) (strike fl sk i c j t (cooled i sk s)) (chill sk) (
          strike_cases fl (OnlyTouches i j (cooled i sk s)) sk i c j t (cooled i sk s)
            (touch_same i j (cooled i sk s)) (λ b. hit-OnlyTouches b _ c.id i j (cooled i sk s)))

  perform-OnlyTouches :
      (ty : CommandType) (cmd : Command F) (p : BattlePlayer F) (s : Arena F)
      → OnlyTouches cmd.player_id cmd.target_id s (perform fl ty cmd p s)
  unfolding perform
  perform-OnlyTouches move cmd p s = touch-modify cmd.player_id cmd.target_id _ s
  perform-OnlyTouches stop_move cmd p s = touch-modify cmd.player_id cmd.target_id _ s
  perform-OnlyTouches attack cmd p s = attack_option (find cmd.target_id s.players) refl
    where
      i : ℕ
      i = cmd.player_id

      j : ℕ
      j = cmd.target_id

      attack_option :
          (o : Option (BattlePlayer F))
          → find j s.players ≡ o
          → OnlyTouches i j s (perform fl attack cmd p s)
      attack_option none n = rw (n, perform) (touch_same i j s)
      attack_option (some t) n =
          rw (n, perform)
            (process_attack_cases fl (OnlyTouches i j s) i p j t s (touch_same i j s)
              (hit-OnlyTouches true (calc_damage p.atk t.def) p.id i j s))
  perform-OnlyTouches skill cmd p s =
      skill-OnlyTouches cmd.player_id p cmd.target_id (find cmd.target_id s.players) cmd s
  perform-OnlyTouches leave cmd p s = touch-modify cmd.player_id cmd.target_id _ s

  -- A command of any kind leaves every player other than its sender and its target as it was.
  pub process_command-others :
      (cmd : Command F) (s : Arena F) (k : ℕ)
      → cmd.player_id ≢ k
      → cmd.target_id ≢ k
      → find k (process_command fl cmd s).players ≡ find k s.players
  process_command-others cmd s k a b =
      process_command_cases fl (λ t. find k t.players ≡ find k s.players) cmd s refl
        λ p last e l.
          (perform-OnlyTouches cmd.type cmd p (record s { last_seq = last })).others k a b

  -- The sender is missing or dead, or the number is not above the last one of the sender.
  pub data Spent (cmd : Command F) (s : Arena F) : Type 0 where
    missing : find cmd.player_id s.players ≡ none → Spent cmd s
    dead :
        (p : BattlePlayer F) → find cmd.player_id s.players ≡ some p → p.alive ≡ false → Spent cmd s
    seen : (n : ℕ) → find cmd.player_id s.last_seq ≡ some n → cmd.sequence ≤ n → Spent cmd s

  -- A command whose sender is not in the battle or is dead, or whose sequence number is not above the
  -- last one of its sender, leaves the state exactly as it is.
  pub process_command-Spent :
      (cmd : Command F) (s : Arena F) → Spent cmd s → process_command fl cmd s ≡ s
  unfolding process_command is_duplicate
  process_command-Spent cmd s (missing e) = ground (arith, e)
  process_command-Spent cmd s (dead p e d) = ground (arith, e, d)
  process_command-Spent cmd s (seen n e h) = ground (arith, e, h)

  performed :
      (cmd : Command F) (s : Arena F) (p : BattlePlayer F)
      → find cmd.player_id s.players ≡ some p
      → p.alive ≡ true
      → is_duplicate cmd.player_id cmd.sequence s.last_seq
        ≡ (false, insert cmd.player_id cmd.sequence s.last_seq)
      → process_command fl cmd s
        ≡ perform fl cmd.type cmd p
            (record s { last_seq = insert cmd.player_id cmd.sequence s.last_seq })
  unfolding process_command
  performed cmd s p e l d = rw (e, process_command) (rw (l, d) refl)

  Spent-stays : (cmd : Command F) (s : Arena F) → Spent cmd s → Spent cmd (process_command fl cmd s)
  Spent-stays cmd s h = rw (process_command-Spent cmd s h) h

  -- The state in which a command that is not a duplicate is performed.
  abbrev noted : Command F → Arena F → Arena F
  noted cmd s = record s { last_seq = insert cmd.player_id cmd.sequence s.last_seq }

  fresh_spends :
      (cmd : Command F) (s : Arena F) (p : BattlePlayer F)
      → find cmd.player_id s.players ≡ some p
      → p.alive ≡ true
      → is_duplicate cmd.player_id cmd.sequence s.last_seq
        ≡ (false, insert cmd.player_id cmd.sequence s.last_seq)
      → Spent cmd (process_command fl cmd s)
  fresh_spends cmd s p e l d = rw (performed cmd s p e l d) (
      seen cmd.sequence
        (ap (find cmd.player_id) (perform-OnlyTouches cmd.type cmd p (noted cmd s)).numbers
          ∙ find-insert_self cmd.player_id cmd.sequence s.last_seq)
        (omega arith))

  processed-Spent : (cmd : Command F) (s : Arena F) → Spent cmd (process_command fl cmd s)
  unfolding is_duplicate
  processed-Spent cmd s = elim (Option-cases (find cmd.player_id s.players)) [
    | inl e ↦ Spent-stays cmd s (missing e)
    | inr (p, e) ↦ elim (Bool-cases p.alive) [
      | inr d ↦ Spent-stays cmd s (dead p e d)
      | inl l ↦ elim (Option-cases (find cmd.player_id s.last_seq)) [
        | inl n ↦ fresh_spends cmd s p e l (ground (arith, n))
        | inr (last, n) ↦ elim (Bool-cases (leb cmd.sequence last)) [
          | inl h ↦ Spent-stays cmd s (seen last n (ground (arith, h)))
          | inr h ↦ fresh_spends cmd s p e l (ground (arith, n, h))
        ]
      ]
    ]
  ]

  -- Processing any command a second time right after the first, as when a client sends it twice,
  -- changes nothing.
  pub process_command_twice :
      (cmd : Command F) (s : Arena F)
      → process_command fl cmd (process_command fl cmd s) ≡ process_command fl cmd s
  process_command_twice cmd s =
      process_command-Spent cmd (process_command fl cmd s) (processed-Spent cmd s)
