-- ===== src/Game/Worker/Absent.antt =====
-- The players of src/game/logic_worker.cpp who are gone.
use miniarena.Prelude.{
  ℕ, ◌-◌, ◌/◌, ◌≡◌, refl, ap, sym, ◌∙◌, Bool, true, false, Option, none, some, [], ◌∷◌, arith, ltb,
  leb, ◌==◌, if◌then◌else◌, ==_iff,
}
use miniarena.Prelude.Dict.{
  Dict, find, erase, modify, nat_eq, find-modify, find-erase, map_option, Distinct,
}
use miniarena.Prelude.Int.{pos}
use miniarena.Game.Combat.{BattlePlayer}
use miniarena.Game.Worker.{RoomState, fell_out, check_disconnected}

seconds_late : (d : ℕ) → ltb 30 (d / 1000) ≡ leb 31000 d
seconds_late d = ground arith

-- Gone for 31 seconds or more.
abbrev pub is_late : ℕ → Option ℕ → Bool
is_late now none = false
is_late now (some since) = leb 31000 (now - since)

abbrev pub forgotten : Bool → Option ℕ → Option ℕ
forgotten late since = if late then none else since

module _ {F : Type 0} where
  -- What the check makes of one player and of when he left.
  abbrev pub judged : Bool → Option (BattlePlayer F) → Option (BattlePlayer F)
  judged late p = if late then map_option (λ q. record q { alive = false; hp = pos 0 }) p else p

  abbrev pub Checked : (now k : ℕ) → Option ℕ → RoomState F → RoomState F → Type 0
  Checked now k since r r' =
      (find k r'.players ≡ judged (is_late now since) (find k r.players))
      × (find k r'.disconnected ≡ forgotten (is_late now since) (find k r.disconnected))

  -- The body of the loop, for the player `j`.
  check_one-Checked :
      (now j since k : ℕ) (late : Bool) (r : RoomState F)
      → ltb 30 ((now - since) / 1000) ≡ late
      → Checked now k (if j == k then some since else none) r (
          if late
          then record {
            players = modify j fell_out r.players;
            disconnected = erase j r.disconnected;
          }
          else r)
  check_one-Checked now j since k late r e = ground (
    arith,
    e,
    seconds_late (now - since),
    find-modify j k fell_out r.players,
    find-erase j k r.disconnected,
  )

  -- Two rounds for one player, of which at most one is about him.
  Checked-trans :
      (now k : ℕ) (a b : Option ℕ) (r s t : RoomState F) (c : Bool)
      → (c ≡ true → b ≡ none)
      → Checked now k (if c then a else none) r s
      → Checked now k b s t
      → Checked now k (if c then a else b) r t
  Checked-trans now k a b r s t false e h g =
      (g.0 ∙ ap (judged (is_late now b)) h.0, g.1 ∙ ap (forgotten (is_late now b)) h.1)
  Checked-trans now k a b r s t true e h g = (rw (e refl) at g.0 ∙ h.0, rw (e refl) at g.1 ∙ h.1)

  -- The loop over the players of a room who are gone, whose map lists nobody twice: a player who has
  -- been gone for 31 seconds or more (whole seconds are compared, and 30 are allowed) is no longer
  -- alive, has no hit points, and is otherwise as before, and is no longer listed as gone; every other
  -- player, and since when he is gone, is as before.
  pub check_disconnected-Checked :
      (now : ℕ) (gone : Dict ℕ ℕ) (r : RoomState F) (k : ℕ)
      → Distinct gone
      → Checked now k (find k gone) r (check_disconnected now gone r)
  unfolding check_disconnected find
  check_disconnected-Checked now [] r k d = (refl, refl)
  check_disconnected-Checked now ((j, since) ∷ gone) r k d =
      let late = ltb 30 ((now - since) / 1000) in
      let s : RoomState F =
        if late
        then record { players = modify j fell_out r.players; disconnected = erase j r.disconnected }
        else r in
      Checked-trans now k (some since) (find k gone) r s (check_disconnected now gone s) (j == k)
        (λ e. ap (λ i. find i gone) (sym ((==_iff j k).0 e)) ∙ d.0)
        (check_one-Checked now j since k late r refl) (check_disconnected-Checked now gone s k d.1)
