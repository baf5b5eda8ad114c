-- ===== src/World/Moves.antt =====
-- Who is told what of a move (HandleMove of MMO/Server/Game/World.cpp).
use mmorpg_server.Base.{ℕ, Bool, not, ◌&&◌, List, [], ◌∷◌}
use mmorpg_server.Grid.{GridPos, is_invalid, is_outside, vision_cells}
use mmorpg_server.Grid.Vision.{sees}
use mmorpg_server.Platform.{Platform, Session}
use mmorpg_server.Game.{Game, Message, spawn, despawn}
use mmorpg_server.World.{center, clamp, MoveTargets, move_locked}
use mmorpg_server.World.Pairs.{some_cell}
use mmorpg_server.World.Subscribed.{in_game}

module _ (P : Platform) where
  open P use {Float, vision_range}

  -- The messages of the two loops of sends.
  abbrev pub despawns : (ℕ → Session Float P.Ext) → List (ℕ × ℕ) → List (ℕ × Message Float)
  despawns heap [] = []
  despawns heap ((target, obj) ∷ ps) = (target, despawn (heap obj).player_id) ∷ despawns heap ps

  abbrev pub spawns : (ℕ → Session Float P.Ext) → List (ℕ × ℕ) → List (ℕ × Message Float)
  spawns heap [] = []
  spawns heap ((target, obj) ∷ ps) =
      let o = heap obj in (target, spawn o.player_id o.x o.y) ∷ spawns heap ps

  -- The move as HandleMove has it when it starts to send.
  abbrev pub moved : ℕ → Float → Float → Game P → MoveTargets P × Game P
  moved a raw_x raw_y g = move_locked P a (clamp P raw_x) (clamp P raw_y) g

  -- A session of the game that sees one of the cells that the first position sees and the second does
  -- not.
  abbrev pub sees_between : Game P → ℕ → GridPos → GridPos → Bool
  sees_between g b near far =
      some_cell
        (λ q.
          not (is_invalid q)
          && (is_outside vision_range q far
              && (in_game P g b && sees vision_range (center P g b) q)))
        (vision_cells near vision_range)
