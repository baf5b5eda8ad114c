-- ===== src/Grid.antt =====
-- The area-of-interest grid of World (MMO/Server/Game/World.h, World.cpp): a cell holds the sessions
-- that see it. A session is named by its address.
pub mod Cells
pub mod Vision
pub mod Position
use mmorpg_server.Base.{
  ℕ, zero, suc, ◌+◌, ◌-◌, ◌*◌, ◌/◌, Bool, true, false, not, ◌&&◌, ◌||◌, List, [], ◌∷◌, ◌++◌, map,
  ltb, ◌==◌, if◌then◌else◌,
}
use mmorpg_server.Base.Int.{ℤ, pos, negsuc, ◌+ℤ◌, ◌-ℤ◌, ltb_ℤ, leb_ℤ, eqb_ℤ, abs, sub_ℕ, int_div}

abbrev pub map_size : ℕ
map_size = 1000

abbrev pub grid_size : ℕ
grid_size = 100

abbrev pub grid_count : ℕ
grid_count = map_size / grid_size

pub record GridPos : Type 0 where
  pub x : ℤ
  pub y : ℤ

-- operator==.
abbrev pub same_pos : GridPos → GridPos → Bool
same_pos p q = eqb_ℤ p.x q.x && eqb_ℤ p.y q.y

unfoldable pub is_invalid : GridPos → Bool
is_invalid p =
    ltb_ℤ p.x (pos 0)
    || (ltb_ℤ p.y (pos 0) || (leb_ℤ (pos grid_count) p.x || leb_ℤ (pos grid_count) p.y))

-- One coordinate of GetGridPos: the cell of a truncated coordinate, held to the map.
unfoldable pub grid_coordinate : ℤ → ℤ
grid_coordinate n =
    let g = int_div n grid_size in
    let low = if ltb_ℤ g (pos 0) then pos 0 else g in
    if leb_ℤ (pos grid_count) low then pos (grid_count - 1) else low

-- std::set<Session*>, as its elements in ascending order.
unfoldable pub insert : ℕ → List ℕ → List ℕ
insert a [] = a ∷ []
insert a (b ∷ bs) = if ltb a b then a ∷ b ∷ bs else if a == b then b ∷ bs else b ∷ insert a bs

unfoldable pub erase : ℕ → List ℕ → List ℕ
erase a [] = []
erase a (b ∷ bs) = if a == b then erase a bs else b ∷ erase a bs

abbrev pub contains : List ℕ → ℕ → Bool
contains [] a = false
contains (b ∷ bs) a = b == a || contains bs a

-- `grids[pos.y][pos.x]`. The code reads and writes it at valid positions only.
abbrev pub Grids : Type 0
Grids = GridPos → List ℕ

abbrev pub set_cell : Grids → GridPos → List ℕ → Grids
set_cell g p s = λ q. if same_pos p q then s else g q

-- `for (int d = from; ...; d++)` for `n` rounds.
abbrev pub counted : ℕ → ℤ → List ℤ
counted zero from = []
counted (suc n) from = from ∷ counted n (from +ℤ pos 1)

-- The offsets from -range to range.
abbrev pub offsets : ℕ → List ℤ
offsets range = counted (range + range + 1) (sub_ℕ 0 range)

abbrev pub row_cells : GridPos → ℤ → List ℤ → List GridPos
row_cells c dy [] = []
row_cells c dy (dx ∷ dxs) = record { x = c.x +ℤ dx; y = c.y +ℤ dy } ∷ row_cells c dy dxs

abbrev pub square_cells : GridPos → List ℤ → List ℤ → List GridPos
square_cells c [] dxs = []
square_cells c (dy ∷ dys) dxs = row_cells c dy dxs ++ square_cells c dys dxs

-- The positions that the two nested loops over `dy` and `dx` visit, in order.
abbrev pub vision_cells : GridPos → ℕ → List GridPos
vision_cells c range = square_cells c (offsets range) (offsets range)

-- `abs(p.x - q.x) > range || abs(p.y - q.y) > range`.
unfoldable pub is_outside : ℕ → GridPos → GridPos → Bool
is_outside range p q = ltb range (abs (p.x -ℤ q.x)) || ltb range (abs (p.y -ℤ q.y))

-- A loop over positions that skips the invalid ones and those that fail `test`.
unfoldable pub for_cells : (GridPos → Bool) → (List ℕ → List ℕ) → List GridPos → Grids → Grids
for_cells test change [] g = g
for_cells test change (p ∷ ps) g =
    for_cells test change ps
      (if is_invalid p then g else if test p then set_cell g p (change (g p)) else g)

unfoldable pub insert_to_vision_grids : ℕ → GridPos → ℕ → Grids → Grids
unfolding for_cells
insert_to_vision_grids session center range =
    for_cells (λ p. true) (insert session) (vision_cells center range)

unfoldable pub remove_from_vision_grids : ℕ → GridPos → ℕ → Grids → Grids
unfolding for_cells
remove_from_vision_grids session center range =
    for_cells (λ p. true) (erase session) (vision_cells center range)

-- Leave the cells that only the old position sees, then join those that only the new one sees.
unfoldable pub update_vision_grids : ℕ → GridPos → GridPos → ℕ → Grids → Grids
unfolding for_cells
update_vision_grids session old_pos new_pos range g =
    for_cells (λ p. is_outside range p old_pos) (insert session) (vision_cells new_pos range)
      (for_cells (λ p. is_outside range p new_pos) (erase session) (vision_cells old_pos range) g)
