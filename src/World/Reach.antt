-- ===== src/World/Reach.antt =====
-- The grid over calls of EnterGame, HandleMove and LeaveGame (MMO/Server/Game/World.cpp), in any order.
use mmorpg_server.Base.{ℕ, ◌≡◌, refl, true, ◌&&◌, none, []}
use mmorpg_server.Grid.{GridPos, contains}
use mmorpg_server.Platform.{Platform}
use mmorpg_server.Game.{Game, map_find}
use mmorpg_server.World.{center, enter_game, leave_game, handle_move}
use mmorpg_server.Grid.Vision.{sees}
use mmorpg_server.World.Subscribed.{
  IsSubscribed, in_game, enter_game-IsSubscribed, leave_game-IsSubscribed, handle_move-IsSubscribed,
}

module _ (P : Platform) where
  -- A session enters with an id that the map does not hold; only a session of the game moves or
  -- leaves.
  pub data WorldStep : Game P → Game P → Type 0 where
    enters :
        (g : Game P) (a rand_x rand_y : ℕ)
        → map_find (g.heap a).player_id g.sessions ≡ none
        → WorldStep g (enter_game P a rand_x rand_y g)
    moves :
        (g : Game P) (a : ℕ) (x y : P.Float)
        → in_game P g a ≡ true
        → WorldStep g (handle_move P a x y g)
    leaves : (g : Game P) (a : ℕ) → in_game P g a ≡ true → WorldStep g (leave_game P a g)

  pub data WorldReach (g : Game P) : Game P → Type 0 where
    here : WorldReach g g
    next : {h k : Game P} → WorldReach g h → WorldStep h k → WorldReach g k

  step-IsSubscribed : {g h : Game P} → WorldStep g h → IsSubscribed P g → IsSubscribed P h
  step-IsSubscribed (enters g a rand_x rand_y fresh) inv =
      enter_game-IsSubscribed P a rand_x rand_y g inv fresh
  step-IsSubscribed (moves g a x y inside) inv = handle_move-IsSubscribed P a x y g inv inside
  step-IsSubscribed (leaves g a inside) inv = leave_game-IsSubscribed P a g inv inside

  pub reach-IsSubscribed : {g h : Game P} → IsSubscribed P g → WorldReach g h → IsSubscribed P h
  reach-IsSubscribed inv here = inv
  reach-IsSubscribed inv (next r s) = step-IsSubscribed s (reach-IsSubscribed inv r)

  -- From an empty world, any number of calls, in any order: of EnterGame, each by a session whose player id
  -- the map of sessions does not hold, and of HandleMove and LeaveGame, each by a session that the map
  -- holds under its player id. Then each cell holds exactly the sessions of the game whose position sees it.
  -- (No call changes a player id. Other calls, which the handlers do not rule out, are not among these.)
  pub reach-empty-IsSubscribed :
      {g h : Game P}
      → ((q : GridPos) → g.grids q ≡ [])
      → g.sessions ≡ []
      → WorldReach g h
      → IsSubscribed P h
  unfolding map_find
  reach-empty-IsSubscribed {g} empty none_in r = reach-IsSubscribed (λ a q. start a q) r
    where
      start :
          (a : ℕ) (q : GridPos)
          → contains (g.grids q) a ≡ (in_game P g a && sees P.vision_range (center P g a) q)
      start a q = rw (empty q, none_in, map_find) refl
