-- ===== src/Tests/Ranks.antt =====
-- The theorem on the settlement of src/game/battle_manager.cpp, with an insertion sort for `std::sort`.
use miniarena.Prelude.{
  ℕ, ◌+◌, ◌≤◌, ◌≡◌, refl, Bool, List, [], ◌∷◌, arith, leb, ◌==◌, if◌then◌else◌, map, length,
  Bool-cases, inl, inr,
}
use miniarena.Prelude.Dict.{Dict}
use miniarena.Game.Combat.{BattlePlayer, new_player}
use miniarena.Game.Battles.{SettlementEntry, compute_settlement}
use miniarena.Game.Battles.Settlement.{
  count_if, count_players, AtMost, Descending, numbers_from, SortLaws, without_rank,
  compute_settlement_lem,
}
use miniarena.Tests.Battles.{whole_numbers}

abbrev insert_entry : SettlementEntry → List SettlementEntry → List SettlementEntry
insert_entry e [] = e ∷ []
insert_entry e (d ∷ es) = if leb d.kills e.kills then e ∷ d ∷ es else d ∷ insert_entry e es

abbrev by_kills : List SettlementEntry → List SettlementEntry
by_kills [] = []
by_kills (e ∷ es) = insert_entry e (by_kills es)

AtMost-le : (m n : ℕ) (es : List SettlementEntry) → m ≤ n → AtMost m es → AtMost n es
AtMost-le m n [] h a = tt
AtMost-le m n (e ∷ es) h a = (omega (arith, h, a.0), AtMost-le m n es h a.1)

insert-AtMost :
    (n : ℕ) (e : SettlementEntry) (es : List SettlementEntry)
    → e.kills ≤ n
    → AtMost n es
    → AtMost n (insert_entry e es)
insert-AtMost n e [] h a = (h, tt)
insert-AtMost n e (d ∷ es) h a = elim (Bool-cases (leb d.kills e.kills)) [
  | inl b ↦ rw b (h, a)
  | inr b ↦ rw b (a.0, insert-AtMost n e es h a.1)
]

insert-Descending :
    (e : SettlementEntry) (es : List SettlementEntry)
    → Descending es
    → Descending (insert_entry e es)
insert-Descending e [] o = (tt, tt)
insert-Descending e (d ∷ es) o = elim (Bool-cases (leb d.kills e.kills)) [
  | inl b ↦
      let h : d.kills ≤ e.kills = ground (arith, b) in
      rw b ((h, AtMost-le d.kills e.kills es h o.0), o)
  | inr b ↦ rw b (insert-AtMost d.kills e es (ground (arith, b)) o.0, insert-Descending e es o.1)
]

by_kills-Descending : (es : List SettlementEntry) → Descending (by_kills es)
by_kills-Descending [] = tt
by_kills-Descending (e ∷ es) = insert-Descending e (by_kills es) (by_kills-Descending es)

count_if-insert :
    (p : SettlementEntry → Bool) (e : SettlementEntry) (es : List SettlementEntry)
    → count_if p (insert_entry e es) ≡ (if p e then 1 else 0) + count_if p es
unfolding count_if
count_if-insert p e [] = refl
count_if-insert p e (d ∷ es) = elim (Bool-cases (leb d.kills e.kills)) [
  | inl b ↦ rw b refl
  | inr b ↦ rw b (omega (arith, count_if-insert p e es))
]

count_if-by_kills :
    (p : SettlementEntry → Bool) (es : List SettlementEntry)
    → count_if p (by_kills es) ≡ count_if p es
unfolding count_if
count_if-by_kills p [] = refl
count_if-by_kills p (e ∷ es) =
    omega (arith, count_if-insert p e (by_kills es), count_if-by_kills p es)

by_kills-SortLaws : SortLaws by_kills
by_kills-SortLaws = record { rearranged = count_if-by_kills; ordered = by_kills-Descending }

abbrev fighters : Dict ℕ (BattlePlayer ℕ)
fighters =
    (1, record (new_player whole_numbers 1 "ann") { kills = 1 })
    ∷ (2, record (new_player whole_numbers 2 "bob") { kills = 4 })
    ∷ []

compute_settlement_lem_example :
    (count_if (without_rank (λ e. e.kills == 4)) (compute_settlement by_kills fighters)
      ≡ count_players (λ e. e.kills == 4) fighters)
    × (map (λ e. e.rank) (compute_settlement by_kills fighters) ≡ numbers_from 1 (length fighters))
    × Descending (compute_settlement by_kills fighters)
compute_settlement_lem_example =
    compute_settlement_lem by_kills fighters (λ e. e.kills == 4) by_kills-SortLaws
