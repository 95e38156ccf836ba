-- ===== src/Game/Aoi/Grid.antt =====
-- The invariant of the grid, and the neighbourhood of a player as a relation between cells.
use miniarena.Prelude.{
  ℕ, ◌+◌, Bool, true, ◌&&◌, Option, none, some, List, [], ◌∷◌, ◌≡◌, refl, ap, ◌∙◌, arith,
  if◌then◌else◌, ◌==◌, Option-cases, Bool-cases, inl, inr,
}
use miniarena.Prelude.Int.{ℤ, pos, negsuc, ◌+ℤ◌, int_beq, lebℤ, +ℤ_parts}
use miniarena.Prelude.Dict.{Dict, find, insert, erase, nat_eq, find-insert, find-erase}
use miniarena.Prelude.Sets.{occurs, put_in, take_out, occurs-put_in, occurs-take_out}
use miniarena.Game.Aoi.{
  CellKey, cell_beq, cell_beq_iff, cell_eq, AoiGrid, empty_grid, players_at, set_cell, leave_cell,
  enter_cell, move_to, remove,
}

-- How often a player whose cell is `o` stands in cell `c`.
abbrev pub stands : Option CellKey → CellKey → ℕ
stands none c = 0
stands (some d) c = if cell_beq d c then 1 else 0

-- Each player stands exactly in the cell that the map of players names.
abbrev pub IsValid : AoiGrid → Type 0
IsValid g =
    (id : ℕ) (c : CellKey) → occurs id (players_at c g.grid) ≡ stands (find id g.player_cells) c

pub empty_grid-IsValid : IsValid empty_grid
unfolding empty_grid players_at find occurs
empty_grid-IsValid id c = refl

players_at-insert :
    (d c : CellKey) (ps : List ℕ) (grid : Dict CellKey (List ℕ))
    → players_at c (insert d ps grid) ≡ (if cell_beq d c then ps else players_at c grid)
unfolding players_at
players_at-insert d c ps grid = ground (arith, find-insert d c ps grid)

players_at-erase :
    (d c : CellKey) (grid : Dict CellKey (List ℕ))
    → players_at c (erase d grid) ≡ (if cell_beq d c then [] else players_at c grid)
unfolding players_at
players_at-erase d c grid = ground (arith, find-erase d c grid)

players_at-set :
    (d c : CellKey) (ps : List ℕ) (grid : Dict CellKey (List ℕ))
    → players_at c (set_cell d ps grid) ≡ (if cell_beq d c then ps else players_at c grid)
unfolding set_cell
players_at-set d c [] grid = players_at-erase d c grid
players_at-set d c (p ∷ ps) grid = players_at-insert d c (p ∷ ps) grid

cell_refl : (c : CellKey) → cell_beq c c ≡ true
cell_refl c = (cell_beq_iff c c).1 refl

cell_ne : (c d e : CellKey) → cell_beq c d ≡ true → cell_beq c e ≡ cell_beq d e
cell_ne c d e h = ap (λ x. cell_beq x e) ((cell_beq_iff c d).0 h)

occurs_nil : (j : ℕ) → occurs j [] ≡ 0
unfolding occurs
occurs_nil j = refl

occurs-leave :
    (id j : ℕ) (old c : CellKey) (grid : Dict CellKey (List ℕ))
    → occurs j (players_at c (leave_cell id old grid)) ≡ (
        if cell_beq old c
        then if id == j then 0 else occurs j (players_at c grid)
        else occurs j (players_at c grid))
unfolding leave_cell
occurs-leave id j old c grid = elim (Bool-cases (cell_beq old c)) [
  | inl e ↦
      let q : old ≡ c = (cell_beq_iff old c).0 e in
      rw (players_at-set old c (take_out id (players_at old grid)) grid, e, q)
        (occurs-take_out j id (players_at c grid))
  | inr e ↦ rw (players_at-set old c (take_out id (players_at old grid)) grid, e) refl
]

occurs-enter :
    (id j : ℕ) (d c : CellKey) (grid : Dict CellKey (List ℕ))
    → occurs j (players_at c (insert d (put_in id (players_at d grid)) grid)) ≡ (
        if cell_beq d c
        then occurs j (put_in id (players_at c grid))
        else occurs j (players_at c grid))
occurs-enter id j d c grid = elim (Bool-cases (cell_beq d c)) [
  | inl e ↦
      let q : d ≡ c = (cell_beq_iff d c).0 e in
      rw (players_at-insert d c (put_in id (players_at d grid)) grid, e, q) refl
  | inr e ↦ rw (players_at-insert d c (put_in id (players_at d grid)) grid, e) refl
]

-- A player who stands nowhere enters a cell.
enter-IsValid :
    (id : ℕ) (d : CellKey) (g : AoiGrid)
    → ((j : ℕ) (c : CellKey)
        → occurs j (players_at c g.grid)
          ≡ (if id == j then 0 else stands (find j g.player_cells) c))
    → IsValid (enter_cell id d g)
unfolding enter_cell
enter-IsValid id d g h j c = ground (
  arith,
  occurs-enter id j d c g.grid,
  occurs-put_in j id (players_at c g.grid),
  h j c,
  find-insert id j d g.player_cells,
)

left_lem :
    (id : ℕ) (old : CellKey) (g : AoiGrid)
    → find id g.player_cells ≡ some old
    → IsValid g
    → (j : ℕ) (c : CellKey)
    → occurs j (players_at c (leave_cell id old g.grid))
      ≡ (if id == j then 0 else stands (find j g.player_cells) c)
left_lem id old g e v j c = ground (arith, e, v j c, occurs-leave id j old c g.grid)

pub move_to-IsValid : (id : ℕ) (d : CellKey) (g : AoiGrid) → IsValid g → IsValid (move_to id d g)
unfolding move_to
move_to-IsValid id d g v = elim (Option-cases (find id g.player_cells)) [
  | inl e ↦ rw (e, move_to) (enter-IsValid id d g (λ j c. ground (arith, e, v j c)))
  | inr (old, e) ↦ elim (Bool-cases (cell_beq old d)) [
    | inl s ↦ rw (e, move_to) (rw s v)
    | inr s ↦
        rw (e, move_to)
          (rw s (
            enter-IsValid id d (record g { grid = leave_cell id old g.grid })
              (left_lem id old g e v)))
  ]
]

pub remove-IsValid : (id : ℕ) (g : AoiGrid) → IsValid g → IsValid (remove id g)
unfolding remove
remove-IsValid id g v = elim (Option-cases (find id g.player_cells)) [
  | inl e ↦ rw (e, remove) v
  | inr (c, e) ↦
      rw (e, remove)
        (λ j d. left_lem id c g e v j d ∙ ground (arith, find-erase id j g.player_cells))
]

-- Two numbers of cells that differ by one at most, and two such cells.
abbrev pub is_near : ℤ → ℤ → Bool
is_near a b = lebℤ a (b +ℤ pos 1) && lebℤ b (a +ℤ pos 1)

abbrev pub is_neighbour : CellKey → CellKey → Bool
is_neighbour c d = is_near c.0 d.0 && is_near c.1 d.1

pub three_offsets :
    (a b : ℤ) (n : ℕ)
    → (if int_beq b (a +ℤ negsuc 0) then n else 0)
        + (if int_beq b (a +ℤ pos 0) then n else 0)
        + (if int_beq b (a +ℤ pos 1) then n else 0)
      ≡ (if is_near a b then n else 0)
three_offsets a b n =
    ground
      (arith, +ℤ_parts a (negsuc 0), +ℤ_parts a (pos 0), +ℤ_parts a (pos 1), +ℤ_parts b (pos 1))
