-- ===== src/Game/Aoi/Nearby.antt =====
-- `getNearby` as a relation between cells.
use miniarena.Prelude.{
  ℕ, ◌+◌, Bool, true, false, ◌&&◌, Option, none, some, List, [], ◌∷◌, ◌++◌, ◌≡◌, refl, ap, ◌∙◌,
  arith, if◌then◌else◌, ◌==◌, Option-cases, Bool-cases, inl, inr,
}
use miniarena.Prelude.Int.{ℤ, pos, negsuc, ◌+ℤ◌, int_beq}
use miniarena.Prelude.Dict.{find, nat_eq, find-insert, find-erase}
use miniarena.Prelude.Sets.{occurs, occurs-append}
use miniarena.Game.Aoi.{
  CellKey, cell_beq, AoiGrid, players_at, offsets, column_of, columns_of, get_nearby, empty_grid,
  move_to, enter_cell, remove, cell_beq_iff,
}
use miniarena.Game.Aoi.Grid.{
  empty_grid-IsValid, move_to-IsValid, remove-IsValid, stands, IsValid, is_near, is_neighbour,
  three_offsets,
}

-- The three cells of a column that a player in cell `d` may stand in, and the three columns.
stands_column :
    (c d : CellKey) (x : ℤ)
    → stands (some d) (x, c.1 +ℤ negsuc 0)
        + (stands (some d) (x, c.1 +ℤ pos 0) + stands (some d) (x, c.1 +ℤ pos 1))
      ≡ (if int_beq d.0 x then if is_near c.1 d.1 then 1 else 0 else 0)
stands_column c d x = elim (Bool-cases (int_beq d.0 x)) [
  | inl e ↦ rw e (omega (arith, three_offsets c.1 d.1 1))
  | inr e ↦ rw e (omega arith)
]

occurs-three :
    (j : ℕ) (xs ys zs : List ℕ)
    → occurs j (xs ++ (ys ++ (zs ++ []))) ≡ occurs j xs + (occurs j ys + occurs j zs)
unfolding occurs
occurs-three j xs ys zs = omega (
  arith,
  occurs-append j xs (ys ++ (zs ++ [])),
  occurs-append j ys (zs ++ []),
  occurs-append j zs [],
)

-- Whether a player whose cell is `o` stands in the neighbourhood of `c`, as a number.
abbrev pub nearby_count : CellKey → Option CellKey → ℕ
nearby_count c none = 0
nearby_count c (some d) = if is_neighbour c d then 1 else 0

both : (a b : Bool) → ◌≡◌ {A = ℕ} (if a then if b then 1 else 0 else 0) (if a && b then 1 else 0)
both true b = refl
both false b = refl

module _ (g : AoiGrid) (v : IsValid g) where
  occurs-column :
      (c : CellKey) (dx : ℤ) (j : ℕ)
      → let o = find j g.player_cells in
        occurs j (column_of c dx offsets g.grid)
        ≡ stands o (c.0 +ℤ dx, c.1 +ℤ negsuc 0)
          + (stands o (c.0 +ℤ dx, c.1 +ℤ pos 0) + stands o (c.0 +ℤ dx, c.1 +ℤ pos 1))
  unfolding column_of occurs
  occurs-column c dx j =
      let x = c.0 +ℤ dx in
      let p = λ (dy : ℤ). players_at (x, c.1 +ℤ dy) g.grid in
      omega (
        arith,
        occurs-three j (p (negsuc 0)) (p (pos 0)) (p (pos 1)),
        v j (x, c.1 +ℤ negsuc 0),
        v j (x, c.1 +ℤ pos 0),
        v j (x, c.1 +ℤ pos 1),
      )

  occurs-columns :
      (c : CellKey) (j : ℕ)
      → occurs j (columns_of c offsets g.grid) ≡ nearby_count c (find j g.player_cells)
  unfolding columns_of
  occurs-columns c j =
      let q = λ (dx : ℤ). column_of c dx offsets g.grid in
      occurs-three j (q (negsuc 0)) (q (pos 0)) (q (pos 1)) ∙ counted (find j g.player_cells) refl
    where
      counted :
          (o : Option CellKey)
          → find j g.player_cells ≡ o
          → occurs j (column_of c (negsuc 0) offsets g.grid)
              + (occurs j (column_of c (pos 0) offsets g.grid)
                  + occurs j (column_of c (pos 1) offsets g.grid))
            ≡ nearby_count c o
      counted none e = ground (
        arith,
        e,
        occurs-column c (negsuc 0) j,
        occurs-column c (pos 0) j,
        occurs-column c (pos 1) j,
      )
      counted (some d) e =
          let r = λ (dx : ℤ).
            occurs-column c dx j
            ∙ ap
                (λ o.
                  stands o (c.0 +ℤ dx, c.1 +ℤ negsuc 0)
                  + (stands o (c.0 +ℤ dx, c.1 +ℤ pos 0) + stands o (c.0 +ℤ dx, c.1 +ℤ pos 1)))
                e
            ∙ stands_column c d (c.0 +ℤ dx) in
          omega (
            arith,
            r (negsuc 0),
            r (pos 0),
            r (pos 1),
            three_offsets c.0 d.0 (if is_near c.1 d.1 then 1 else 0),
            both (is_near c.0 d.0) (is_near c.1 d.1),
          )

  get_nearby_lem :
      (id j : ℕ)
      → occurs j (get_nearby id g) ≡ (elim (find id g.player_cells) [
        | none ↦ 0
        | some c ↦ nearby_count c (find j g.player_cells)
      ])
  unfolding get_nearby occurs
  get_nearby_lem id j = elim (Option-cases (find id g.player_cells)) [
    | inl e ↦ rw (e, get_nearby) refl
    | inr (c, e) ↦ rw (e, get_nearby) (occurs-columns c j)
  ]

-- The calls that change the grid, and the specification: the cell of each player, or none.
pub data Move : Type 0 where
  go : ℕ → CellKey → Move
  quit : ℕ → Move

unfoldable pub play : List Move → AoiGrid → AoiGrid
play [] g = g
play (go id c ∷ ms) g = play ms (move_to id c g)
play (quit id ∷ ms) g = play ms (remove id g)

unfoldable pub cells_after : List Move → (ℕ → Option CellKey) → ℕ → Option CellKey
cells_after [] f = f
cells_after (go id c ∷ ms) f = cells_after ms (λ j. if id == j then some c else f j)
cells_after (quit id ∷ ms) f = cells_after ms (λ j. if id == j then none else f j)

find-move_to :
    (id j : ℕ) (c : CellKey) (g : AoiGrid)
    → find j (move_to id c g).player_cells ≡ (if id == j then some c else find j g.player_cells)
unfolding move_to enter_cell
find-move_to id j c g = elim (Option-cases (find id g.player_cells)) [
  | inl e ↦ rw (e, move_to) (find-insert id j c g.player_cells)
  | inr (old, e) ↦ elim (Bool-cases (cell_beq old c)) [
    | inl s ↦
        let q : old ≡ c = (cell_beq_iff old c).0 s in rw (e, move_to) (rw s (ground (arith, e, q)))
    | inr s ↦ rw (e, move_to) (rw s (find-insert id j c g.player_cells))
  ]
]

find-remove :
    (id j : ℕ) (g : AoiGrid)
    → find j (remove id g).player_cells ≡ (if id == j then none else find j g.player_cells)
unfolding remove
find-remove id j g = elim (Option-cases (find id g.player_cells)) [
  | inl e ↦ rw (e, remove) (ground (arith, e))
  | inr (c, e) ↦ rw (e, remove) (find-erase id j g.player_cells)
]

play_lem :
    (ms : List Move) (g : AoiGrid) (f : ℕ → Option CellKey)
    → IsValid g
    → ((j : ℕ) → find j g.player_cells ≡ f j)
    → IsValid (play ms g) × ((j : ℕ) → find j (play ms g).player_cells ≡ cells_after ms f j)
unfolding play cells_after
play_lem [] g f v h = (v, h)
play_lem (go id c ∷ ms) g f v h =
    play_lem ms (move_to id c g) (λ j. if id == j then some c else f j) (move_to-IsValid id c g v)
      (λ j. find-move_to id j c g ∙ ap (λ o. if id == j then some c else o) (h j))
play_lem (quit id ∷ ms) g f v h =
    play_lem ms (remove id g) (λ j. if id == j then none else f j) (remove-IsValid id g v)
      (λ j. find-remove id j g ∙ ap (λ o. if id == j then none else o) (h j))

-- Over any sequence of updates and removals of an empty grid, `get_nearby` of a player that is in the
-- grid at the end lists each player whose last cell is the same or one of the eight around it exactly
-- once, and nobody else; for a player that is not in the grid it lists nobody.
pub get_nearby_refines :
    (ms : List Move) (id j : ℕ)
    → let f = cells_after ms (λ i. none) in
      occurs j (get_nearby id (play ms empty_grid))
      ≡ (elim (f id) [ none ↦ 0 | some c ↦ nearby_count c (f j) ])
unfolding empty_grid find
get_nearby_refines ms id j =
    let f = cells_after ms (λ i. none) in
    let p = play_lem ms empty_grid (λ i. none) empty_grid-IsValid (λ i. refl) in
    get_nearby_lem (play ms empty_grid) p.0 id j
    ∙ ap
        (λ o. elim o [
          | none ↦ 0
          | some c ↦ nearby_count c (find j (play ms empty_grid).player_cells)
        ])
        (p.1 id)
    ∙ ap (λ o. elim (f id) [ none ↦ 0 | some c ↦ nearby_count c o ]) (p.1 j)
