-- ===== src/Game/Battles/Settlement.antt =====
-- The settlement of src/game/battle_manager.cpp, which ranks the players by their kills.
use miniarena.Prelude.{
  ℕ, zero, suc, ◌+◌, ◌≤◌, ◌≡◌, refl, ap, ◌∙◌, Bool, true, List, [], ◌∷◌, map, arith, length,
  if◌then◌else◌,
}
use miniarena.Prelude.Dict.{Dict}
use miniarena.Game.Combat.{BattlePlayer}
use miniarena.Game.Battles.{SettlementEntry, entries_of, rank_from, compute_settlement}

-- How many entries satisfy a test.
unfoldable pub count_if : (SettlementEntry → Bool) → List SettlementEntry → ℕ
count_if p [] = 0
count_if p (e ∷ es) = (if p e then 1 else 0) + count_if p es

-- How many players have figures that satisfy a test, as an entry without a rank.
unfoldable pub count_players : {F : Type 0} → (SettlementEntry → Bool) → Dict ℕ (BattlePlayer F) → ℕ
count_players p [] = 0
count_players p ((pid, b) ∷ players) =
    (if p (record {
      player_id = pid;
      kills = b.kills;
      deaths = b.deaths;
      damage_dealt = b.damage_dealt;
      damage_taken = b.damage_taken;
      rank = 0;
    })
      then 1
      else 0)
    + count_players p players

-- The most kills first.
abbrev pub AtMost : ℕ → List SettlementEntry → Type 0
AtMost n [] = Unit {0}
AtMost n (e ∷ es) = (e.kills ≤ n) × AtMost n es

abbrev pub Descending : List SettlementEntry → Type 0
Descending [] = Unit {0}
Descending (e ∷ es) = AtMost e.kills es × Descending es

-- i, i + 1, and so on: n numbers.
unfoldable pub numbers_from : ℕ → ℕ → List ℕ
numbers_from i zero = []
numbers_from i (suc n) = i ∷ numbers_from (i + 1) n

-- What `std::sort` documents, for the comparison by kills: the same entries, the most kills first.
pub record SortLaws (sort : List SettlementEntry → List SettlementEntry) : Type 0 where
  pub rearranged :
      (p : SettlementEntry → Bool) (es : List SettlementEntry)
      → count_if p (sort es) ≡ count_if p es
  pub ordered : (es : List SettlementEntry) → Descending (sort es)

-- A test that does not read the rank.
abbrev pub without_rank : (SettlementEntry → Bool) → SettlementEntry → Bool
without_rank p e = p (record e { rank = 0 })

count_if-rank_from :
    (p : SettlementEntry → Bool) (i : ℕ) (es : List SettlementEntry)
    → count_if (without_rank p) (rank_from i es) ≡ count_if (without_rank p) es
unfolding count_if rank_from
count_if-rank_from p i [] = refl
count_if-rank_from p i (e ∷ es) = omega (arith, count_if-rank_from p (i + 1) es)

count_if-entries_of :
    {F : Type 0} (p : SettlementEntry → Bool) (players : Dict ℕ (BattlePlayer F))
    → count_if (without_rank p) (entries_of players) ≡ count_players p players
unfolding count_if entries_of count_players
count_if-entries_of p [] = refl
count_if-entries_of p ((pid, b) ∷ players) = omega (arith, count_if-entries_of p players)

count_if-all : (es : List SettlementEntry) → count_if (λ e. true) es ≡ length es
unfolding count_if
count_if-all [] = refl
count_if-all (e ∷ es) = omega (arith, count_if-all es)

length-entries_of :
    {F : Type 0} (players : Dict ℕ (BattlePlayer F)) → length (entries_of players) ≡ length players
unfolding entries_of
length-entries_of [] = refl
length-entries_of ((pid, b) ∷ players) = omega (arith, length-entries_of players)

ranks-rank_from :
    (i : ℕ) (es : List SettlementEntry)
    → map (λ e. e.rank) (rank_from i es) ≡ numbers_from (i + 1) (length es)
unfolding rank_from numbers_from
ranks-rank_from i [] = refl
ranks-rank_from i (e ∷ es) = ap (◌∷◌ (i + 1)) (ranks-rank_from (i + 1) es)

rank_from-AtMost : (n i : ℕ) (es : List SettlementEntry) → AtMost n es → AtMost n (rank_from i es)
unfolding rank_from
rank_from-AtMost n i [] h = tt
rank_from-AtMost n i (e ∷ es) h = (h.0, rank_from-AtMost n (i + 1) es h.1)

rank_from-Descending :
    (i : ℕ) (es : List SettlementEntry) → Descending es → Descending (rank_from i es)
unfolding rank_from
rank_from-Descending i [] h = tt
rank_from-Descending i (e ∷ es) h =
    (rank_from-AtMost e.kills (i + 1) es h.0, rank_from-Descending (i + 1) es h.1)

-- If `std::sort` gives the same entries with the most kills first: the settlement has, apart from the
-- ranks, exactly one entry for each player, with the figures of the player; the ranks are, in order,
-- 1, 2, 3 and so on up to the number of players; and the entries stand in the order of their kills,
-- the most first.
pub compute_settlement_lem :
    {F : Type 0} (sort : List SettlementEntry → List SettlementEntry)
    (players : Dict ℕ (BattlePlayer F)) (p : SettlementEntry → Bool)
    → SortLaws sort
    → (count_if (without_rank p) (compute_settlement sort players) ≡ count_players p players)
      × (map (λ e. e.rank) (compute_settlement sort players) ≡ numbers_from 1 (length players))
      × Descending (compute_settlement sort players)
unfolding compute_settlement
compute_settlement_lem sort players p laws =
    let es = entries_of players in
    let size : length (sort es) ≡ length players = omega (
      arith,
      count_if-all (sort es),
      count_if-all es,
      laws.rearranged (λ e. true) es,
      length-entries_of players,
    ) in
    (
      count_if-rank_from p 0 (sort es)
          ∙ laws.rearranged (without_rank p) es
          ∙ count_if-entries_of p players,
      ranks-rank_from 0 (sort es) ∙ ap (numbers_from 1) size,
      rank_from-Descending 0 (sort es) (laws.ordered es),
    )
