-- ===== src/Grid/Position.antt =====
-- The cell of a position (GetGridPos and IsInvalid of MMO/Server/Game/World.h).
use mmorpg_server.Base.{ℕ, ◌/◌, ◌<◌, ◌≡◌, true, false, arith}
use mmorpg_server.Base.Int.{ℤ, pos, -ℤ_parts, one_part, ltb_ℤ, leb_ℤ, int_div, ◌-ℤ◌}
use mmorpg_server.Grid.{GridPos, grid_coordinate, grid_count, grid_size, is_invalid, is_outside}
use mmorpg_server.Grid.Vision.{sees}

grid_coordinate_bounds :
    (n : ℤ)
    → (ltb_ℤ (grid_coordinate n) (pos 0) ≡ false)
      × (leb_ℤ (pos grid_count) (grid_coordinate n) ≡ false)
unfolding grid_coordinate
grid_coordinate_bounds n = ground arith

-- Whatever the coordinates, GetGridPos gives a valid cell.
pub grid_coordinate-valid :
    (m n : ℤ) → is_invalid (record { x = grid_coordinate m; y = grid_coordinate n }) ≡ false
unfolding is_invalid
grid_coordinate-valid m n = ground (arith, grid_coordinate_bounds m, grid_coordinate_bounds n)

-- A coordinate on the map lies in the cell that its hundreds name.
pub grid_coordinate_on_map : (n : ℕ) → n < 1000 → grid_coordinate (pos n) ≡ pos (n / grid_size)
unfolding grid_coordinate int_div
grid_coordinate_on_map n lt = ground arith

pub sees_self : (range : ℕ) (c : GridPos) → is_invalid c ≡ false → sees range c c ≡ true
unfolding is_outside
sees_self range c valid =
    ground (arith, -ℤ_parts c.x c.x, -ℤ_parts c.y c.y, one_part (c.x -ℤ c.x), one_part (c.y -ℤ c.y))

-- Seeing is mutual between valid cells.
pub sees_comm :
    (range : ℕ) (c d : GridPos)
    → is_invalid c ≡ false
    → is_invalid d ≡ false
    → sees range c d ≡ sees range d c
unfolding is_outside
sees_comm range c d vc vd = ground (
  arith,
  -ℤ_parts c.x d.x,
  -ℤ_parts d.x c.x,
  -ℤ_parts c.y d.y,
  -ℤ_parts d.y c.y,
  one_part (c.x -ℤ d.x),
  one_part (d.x -ℤ c.x),
  one_part (c.y -ℤ d.y),
  one_part (d.y -ℤ c.y),
)
