-- ===== src/Tests/Grids.antt =====
-- Runs of the grid, the time wheel and the logic threads (MMO/Server/Game/World.cpp,
-- MMO/Server/Core/TimeWheel.cpp, MMO/Server/Core/LogicManager.h).
use mmorpg_server.Base.{
  ℕ, ◌≡◌, refl, true, false, not, List, [], ◌∷◌, ◌++◌, ◌==◌, arith, ◌&&◌, ◌||◌, if◌then◌else◌, ◌/◌,
  ◌%◌, suc, ◌-◌, ◌<◌,
}
use mmorpg_server.Base.Int.{ℤ, pos}
use mmorpg_server.Grid.{
  GridPos, Grids, contains, is_invalid, grid_coordinate, insert_to_vision_grids,
  remove_from_vision_grids, update_vision_grids,
}
use mmorpg_server.Grid.Vision.{update-eq-remove_insert}
use mmorpg_server.TimeWheel.{TimeWheel, new_wheel, update, wheel_tick}
use mmorpg_server.TimeWheel.Firing.{fired, rounds, update_lem}

abbrev cell : ℕ → ℕ → GridPos
cell x y = record { x = pos x; y = pos y }

abbrev one_watcher : Grids
one_watcher = insert_to_vision_grids 7 (cell 2 2) 1 (λ q. [])

abbrev small_wheel : TimeWheel ℕ
small_wheel = new_wheel 0

update-eq-remove_insert_example :
    contains (update_vision_grids 7 (cell 2 2) (cell 3 2) 1 one_watcher (cell 4 2)) 7
    ≡ contains
        (insert_to_vision_grids 7
          (cell 3 2)
          1
          (remove_from_vision_grids 7 (cell 2 2) 1 one_watcher)
          (cell 4 2))
        7
unfolding insert_to_vision_grids mmorpg_server.Grid.is_outside is_invalid
    mmorpg_server.Base.Int.◌-ℤ◌ mmorpg_server.Base.Int.◌+ℤ◌
update-eq-remove_insert_example =
    update-eq-remove_insert 7 7 (cell 2 2) (cell 3 2) 1 one_watcher (cell 4 2) refl

update_lem_example :
    (update 4 250 small_wheel ≡ (fired 2 small_wheel, rounds 2 small_wheel))
    × (250 - (update 4 250 small_wheel).1.last_tick < wheel_tick)
unfolding new_wheel
update_lem_example = update_lem 4 250 small_wheel (omega arith) (omega arith)
