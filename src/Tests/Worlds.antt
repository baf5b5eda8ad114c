-- ===== src/Tests/Worlds.antt =====
-- Runs of the world and of damage (MMO/Server/Game/World.cpp, MMO/Server/Game/Player.cpp).
use mmorpg_server.Base.{refl, true, false, List, [], ◌∷◌, arith}
use mmorpg_server.Base.Int.{ℤ, pos, leb_ℤ}
use mmorpg_server.Grid.{is_invalid}
use mmorpg_server.Game.{Game, set_at}
use mmorpg_server.World.{enter_game, leave_game, handle_move, get_grid_pos}
use mmorpg_server.Game.{Message}
use mmorpg_server.World.Subscribed.{IsSubscribed}
use mmorpg_server.World.Reach.{
  WorldReach, enters, moves, leaves, here, next, reach-empty-IsSubscribed,
}
use mmorpg_server.Tests.Machine.{machine, empty_world, one_player, two_players}

-- The first player walks out of the other's sight, and then leaves.
abbrev walked : Game machine
walked = handle_move machine 1 (pos 50) (pos 250) two_players

abbrev left : Game machine
left = leave_game machine 1 walked

one_fresh : WorldReach machine empty_world one_player
unfolding mmorpg_server.Game.map_find
one_fresh = next here (enters empty_world 1 250 250 refl)

pub two_players-IsSubscribed : IsSubscribed machine two_players
unfolding mmorpg_server.Game.map_find enter_game mmorpg_server.Grid.insert_to_vision_grids
    mmorpg_server.Grid.is_invalid mmorpg_server.Base.Int.◌+ℤ◌ mmorpg_server.World.get_grid_pos
    mmorpg_server.Grid.grid_coordinate mmorpg_server.Base.Int.int_div mmorpg_server.Grid.insert
    mmorpg_server.Game.map_set
two_players-IsSubscribed =
    reach-empty-IsSubscribed machine {g = empty_world} (λ q. refl) refl
      (next one_fresh (enters one_player 2 350 250 refl))

reach-empty-IsSubscribed_example : IsSubscribed machine left
unfolding mmorpg_server.Game.map_find enter_game mmorpg_server.Grid.insert_to_vision_grids
    mmorpg_server.Grid.is_invalid mmorpg_server.Base.Int.◌+ℤ◌ mmorpg_server.World.get_grid_pos
    mmorpg_server.Grid.grid_coordinate mmorpg_server.Base.Int.int_div mmorpg_server.Grid.insert
    mmorpg_server.Game.map_set handle_move mmorpg_server.Grid.update_vision_grids
    mmorpg_server.Grid.is_outside mmorpg_server.Base.Int.◌-ℤ◌ mmorpg_server.Grid.erase
reach-empty-IsSubscribed_example =
    reach-empty-IsSubscribed machine {g = empty_world} {h = left} (λ q. refl) refl
      (next
        (next (next one_fresh (enters one_player 2 350 250 refl))
          (moves two_players 1 (pos 50) (pos 250) refl))
        (leaves walked 1 refl))
