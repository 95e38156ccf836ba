-- ===== src/Game/Aoi.antt =====
-- src/game/aoi_grid.h and aoi_grid.cpp: the world in cells of 200 pixels, and who stands in each. A cell
-- is the pair of its numbers; these do not overflow.
pub mod Grid
pub mod Nearby
use miniarena.Prelude.{
  ℕ, ◌+◌, Bool, true, false, ◌&&◌, Option, none, some, List, [], ◌∷◌, ◌++◌, ◌≡◌, ◌↔◌, arith,
  if◌then◌else◌,
}
use miniarena.Prelude.Int.{ℤ, pos, negsuc, ◌+ℤ◌, int_beq, int_beq_iff}
use miniarena.Prelude.Dict.{Eq, Dict, find, insert, erase, nat_eq}
use miniarena.Prelude.Sets.{put_in, take_out}
use miniarena.Game.Combat.{FloatOps}

abbrev pub CellKey : Type 0
CellKey = ℤ × ℤ

abbrev pub cell_beq : CellKey → CellKey → Bool
cell_beq a b = int_beq a.0 b.0 && int_beq a.1 b.1

pub cell_beq_iff : (a b : CellKey) → (cell_beq a b ≡ true) ↔ (a ≡ b)
cell_beq_iff (x, y) (u, v) = ground (arith, int_beq_iff x u, int_beq_iff y v)

instance abbrev pub cell_eq : Eq CellKey
cell_eq = record { beq = cell_beq; beq_iff = cell_beq_iff }

pub record AoiGrid : Type 0 where
  pub grid : Dict CellKey (List ℕ)
  pub player_cells : Dict ℕ CellKey

unfoldable pub empty_grid : AoiGrid
empty_grid = record { grid = []; player_cells = [] }

-- The players of a cell, none if it has no entry.
unfoldable pub players_at : CellKey → Dict CellKey (List ℕ) → List ℕ
players_at c grid = elim (find c grid) [ none ↦ [] | some ps ↦ ps ]

-- A cell whose set is empty has no entry.
unfoldable pub set_cell : CellKey → List ℕ → Dict CellKey (List ℕ) → Dict CellKey (List ℕ)
set_cell c [] grid = erase c grid
set_cell c (p ∷ ps) grid = insert c (p ∷ ps) grid

-- `grid_[c].erase(id); if (grid_[c].empty()) grid_.erase(c);`
unfoldable pub leave_cell : ℕ → CellKey → Dict CellKey (List ℕ) → Dict CellKey (List ℕ)
leave_cell id c grid = set_cell c (take_out id (players_at c grid)) grid

-- `grid_[c].insert(id); player_cells_[id] = c;`
unfoldable pub enter_cell : ℕ → CellKey → AoiGrid → AoiGrid
enter_cell id c g = record {
  grid = insert c (put_in id (players_at c g.grid)) g.grid;
  player_cells = insert id c g.player_cells;
}

-- `update`, once the new cell is known.
unfoldable pub move_to : ℕ → CellKey → AoiGrid → AoiGrid
move_to id c g = elim (find id g.player_cells) [
  | none ↦ enter_cell id c g
  | some old ↦
      if cell_beq old c then g else enter_cell id c (record g { grid = leave_cell id old g.grid })
]

unfoldable pub remove : ℕ → AoiGrid → AoiGrid
remove id g = elim (find id g.player_cells) [
  | none ↦ g
  | some c ↦ record { grid = leave_cell id c g.grid; player_cells = erase id g.player_cells }
]

-- The loops `dx`, `dy` from -1 to 1.
abbrev pub offsets : List ℤ
offsets = negsuc 0 ∷ pos 0 ∷ pos 1 ∷ []

unfoldable pub column_of : CellKey → ℤ → List ℤ → Dict CellKey (List ℕ) → List ℕ
column_of c dx [] grid = []
column_of c dx (dy ∷ dys) grid = players_at (c.0 +ℤ dx, c.1 +ℤ dy) grid ++ column_of c dx dys grid

unfoldable pub columns_of : CellKey → List ℤ → Dict CellKey (List ℕ) → List ℕ
columns_of c [] grid = []
columns_of c (dx ∷ dxs) grid = column_of c dx offsets grid ++ columns_of c dxs grid

unfoldable pub get_nearby : ℕ → AoiGrid → List ℕ
get_nearby id g = elim (find id g.player_cells) [ none ↦ [] | some c ↦ columns_of c offsets g.grid ]

module _ (fl : FloatOps) where
  open fl use {F, div, floor, to_int, lit}

  unfoldable pub cell_of : F → F → CellKey
  cell_of x y = (to_int (floor (div x (lit 200 1))), to_int (floor (div y (lit 200 1))))

  unfoldable pub update : ℕ → F → F → AoiGrid → AoiGrid
  update id x y g = move_to id (cell_of x y) g
