-- ===== src/World.antt =====
-- class World (MMO/Server/Game/World.h, World.cpp). Each function is one call: what it does while it
-- holds the world's mutex and the sends that follow, with no other thread between them. `rand()` is an
-- argument.
pub mod Subscribed
pub mod Reach
pub mod Observers
pub mod Pairs
pub mod Moves
pub mod Entered
use mmorpg_server.Base.{
  ℕ, suc, ◌+◌, ◌-◌, ◌%◌, Bool, true, false, not, ◌&&◌, ◌||◌, Option, none, some, List, [], ◌∷◌,
  ◌++◌, ◌==◌, if◌then◌else◌,
}
use mmorpg_server.Base.Int.{ℤ, pos}
use mmorpg_server.Grid.{
  GridPos, Grids, same_pos, map_size, grid_coordinate, is_invalid, is_outside, vision_cells,
  insert_to_vision_grids, remove_from_vision_grids, update_vision_grids,
}
use mmorpg_server.Platform.{Platform, Session}
use mmorpg_server.Game.{
  Game, Player, Message, spawn, despawn, move, die, set_at, map_find, map_set, map_erase, send,
  send_all,
}

-- The elements of a cell other than one session.
unfoldable pub others : ℕ → List ℕ → List ℕ
others session [] = []
others session (a ∷ rest) = if a == session then others session rest else a ∷ others session rest

-- The elements that are not null.
unfoldable pub non_null : List ℕ → List ℕ
non_null [] = []
non_null (a ∷ rest) = if a == 0 then non_null rest else a ∷ non_null rest

-- Both orders of each pair: (other, session), (session, other).
unfoldable pub both_ways : ℕ → List ℕ → List (ℕ × ℕ)
both_ways session [] = []
both_ways session (a ∷ rest) = (a, session) ∷ (session, a) ∷ both_ways session rest

-- The collecting loops of HandleMove: the pairs of the valid cells out of sight of `from`.
unfoldable pub pairs_outside : ℕ → Grids → ℕ → GridPos → List GridPos → List (ℕ × ℕ)
unfolding both_ways others
pairs_outside session grids range from [] = []
pairs_outside session grids range from (p ∷ ps) =
    let rest = pairs_outside session grids range from ps in
    if is_invalid p
    then rest
    else if is_outside range p from
    then both_ways session (others session (grids p)) ++ rest
    else rest

module _ (P : Platform) where
  open P use {Float, Ext, of_int, to_int, lt, le, get_player, set_player, vision_range}

  -- GetGridPos.
  unfoldable pub get_grid_pos : Float → Float → GridPos
  get_grid_pos x y = record { x = grid_coordinate (to_int x); y = grid_coordinate (to_int y) }

  -- The cell of a session's position.
  abbrev pub center : Game P → ℕ → GridPos
  center g a = get_grid_pos (g.heap a).x (g.heap a).y

  abbrev pub set_pos : Float → Float → Session Float Ext → Session Float Ext
  set_pos new_x new_y s = record s { x = new_x; y = new_y }

  -- `new Player(session)`, stored in the session, if it has none.
  unfoldable pub ensure_player : ℕ → Game P → Game P
  ensure_player a g = elim (get_player (g.heap a).ext) [
    | some player ↦ g
    | none ↦ record g {
      heap = set_at g.heap a (record (g.heap a) { ext = set_player g.next_player (g.heap a).ext });
      players =
          set_at g.players g.next_player (record { hp = pos 100; max_hp = pos 100; session = a });
      next_player = suc g.next_player;
    }
  ]

  -- One round of the mutual spawns: tell `other` of the session, and the session of `other`.
  unfoldable pub spawn_each : ℕ → Float → Float → List ℕ → Game P → Game P
  unfolding send
  spawn_each a start_x start_y [] g = g
  spawn_each a start_x start_y (b ∷ bs) g =
      let o = g.heap b in
      spawn_each a start_x start_y bs (
        send P a (spawn o.player_id o.x o.y)
          (send P b (spawn (g.heap a).player_id start_x start_y) g))

  -- The locked part of EnterGame, and the sessions that it collects.
  unfoldable pub enter_locked : ℕ → Float → Float → Game P → List ℕ × Game P
  unfolding ensure_player others
  enter_locked a start_x start_y g0 =
      let g1 = ensure_player a g0 in
      let s = set_pos start_x start_y (g1.heap a) in
      let c = get_grid_pos start_x start_y in
      let grids = insert_to_vision_grids a c vision_range g1.grids in
      (
        others a (grids c),
        record g1 {
          heap = set_at g1.heap a s;
          grids = grids;
          sessions = map_set s.player_id a g1.sessions;
        },
      )

  unfoldable pub enter_game : ℕ → ℕ → ℕ → Game P → Game P
  unfolding enter_locked send spawn_each
  enter_game a rand_x rand_y g =
      let start_x = of_int (pos (rand_x % map_size)) in
      let start_y = of_int (pos (rand_y % map_size)) in
      let (targets, g') = enter_locked a start_x start_y g in
      spawn_each a start_x start_y targets
        (send P a (spawn (g'.heap a).player_id start_x start_y) g')

  unfoldable pub leave_locked : ℕ → Game P → List ℕ × Game P
  unfolding others
  leave_locked a g =
      let c = center g a in
      (
        others a (g.grids c),
        record g {
          grids = remove_from_vision_grids a c vision_range g.grids;
          sessions = map_erase (g.heap a).player_id g.sessions;
        },
      )

  abbrev pub has_player : Game P → ℕ → Bool
  has_player g a = elim (get_player (g.heap a).ext) [ none ↦ false | some player ↦ true ]

  unfoldable pub leave_game : ℕ → Game P → Game P
  unfolding leave_locked send_all
  leave_game a g =
      let (targets, g') = leave_locked a g in
      if a == 0 || not (has_player g a)
      then g
      else send_all P targets (despawn (g.heap a).player_id) g'

  -- The clamping of a coordinate.
  unfoldable pub clamp : Float → Float
  clamp v =
      let low = if lt v (of_int (pos 0)) then of_int (pos 0) else v in
      if le (of_int (pos map_size)) low then of_int (pos (map_size - 1)) else low

  -- What HandleMove collects under the mutex.
  pub record MoveTargets : Type 0 where
    pub despawn_pairs : List (ℕ × ℕ)
    pub spawn_pairs : List (ℕ × ℕ)
    pub move_targets : List ℕ

  -- The locked part of HandleMove, at clamped coordinates.
  unfoldable pub move_locked : ℕ → Float → Float → Game P → MoveTargets × Game P
  unfolding pairs_outside non_null
  move_locked a x y g =
      let old_pos = center g a in
      let new_pos = get_grid_pos x y in
      let same = same_pos old_pos new_pos in
      let grids =
        if same then g.grids else update_vision_grids a old_pos new_pos vision_range g.grids in
      (
        record {
          despawn_pairs =
              if same
              then []
              else pairs_outside a grids vision_range new_pos (vision_cells old_pos vision_range);
          spawn_pairs =
              if same
              then []
              else pairs_outside a grids vision_range old_pos (vision_cells new_pos vision_range);
          move_targets = non_null (grids new_pos);
        },
        record g { heap = set_at g.heap a (set_pos x y (g.heap a)); grids = grids },
      )

  unfoldable pub send_despawns : List (ℕ × ℕ) → Game P → Game P
  unfolding send
  send_despawns [] g = g
  send_despawns ((target, obj) ∷ ps) g =
      send_despawns ps (send P target (despawn (g.heap obj).player_id) g)

  unfoldable pub send_spawns : List (ℕ × ℕ) → Game P → Game P
  unfolding send
  send_spawns [] g = g
  send_spawns ((target, obj) ∷ ps) g =
      let o = g.heap obj in send_spawns ps (send P target (spawn o.player_id o.x o.y) g)

  unfoldable pub handle_move : ℕ → Float → Float → Game P → Game P
  unfolding clamp move_locked send_despawns send_spawns send_all
  handle_move a raw_x raw_y g =
      let x = clamp raw_x in
      let y = clamp raw_y in
      let (t, g') = move_locked a x y g in
      send_all P t.move_targets (move (g'.heap a).player_id x y)
        (send_spawns t.spawn_pairs (send_despawns t.despawn_pairs g'))

  -- The sessions that a broadcast from a session goes to.
  unfoldable pub observers : ℕ → Game P → List ℕ
  unfolding non_null
  observers a g = non_null (g.grids (center g a))

  unfoldable pub broadcast_move : ℕ → Game P → Game P
  unfolding observers send_all
  broadcast_move a g = let s = g.heap a in send_all P (observers a g) (move s.player_id s.x s.y) g

  unfoldable pub broadcast_die : ℕ → Game P → Game P
  unfolding observers send_all
  broadcast_die a g = send_all P (observers a g) (die (g.heap a).player_id) g

  unfoldable pub broadcast_packet_to_observers : ℕ → Message Float → Game P → Game P
  unfolding observers send_all
  broadcast_packet_to_observers a m g = send_all P (observers a g) m g

  unfoldable pub send_spawn : ℕ → ℕ → Game P → Game P
  unfolding send
  send_spawn target obj g =
      let o = g.heap obj in if target == obj then g else send P target (spawn o.player_id o.x o.y) g

  unfoldable pub send_despawn : ℕ → ℕ → Game P → Game P
  unfolding send
  send_despawn target obj g =
      if target == obj then g else send P target (despawn (g.heap obj).player_id) g

  -- SendMove of World.h.
  unfoldable pub send_move : ℕ → ℕ → Game P → Game P
  unfolding send
  send_move target obj g =
      let o = g.heap obj in if target == obj then g else send P target (move o.player_id o.x o.y) g

  -- The sessions of the map, in the order of their ids.
  unfoldable pub map_values : List (ℤ × ℕ) → List ℕ
  map_values [] = []
  map_values ((id, a) ∷ m) = if a == 0 then map_values m else a ∷ map_values m

  unfoldable pub broadcast_to_all : Message Float → Game P → Game P
  unfolding map_values send_all
  broadcast_to_all m g = send_all P (map_values g.sessions) m g

  -- FindSession; 0 is null.
  unfoldable pub find_session : ℤ → Game P → ℕ
  unfolding map_find
  find_session id g = elim (map_find id g.sessions) [ none ↦ 0 | some a ↦ a ]

  -- CalculateDistance.
  unfoldable pub calculate_distance : ℕ → ℕ → Game P → Float
  calculate_distance a b g =
      if a == 0 || b == 0
      then of_int (pos 99999)
      else P.hypotenuse (P.sub (g.heap a).x (g.heap b).x) (P.sub (g.heap a).y (g.heap b).y)

  -- What LogAllPlayersAOI writes for each session: its id and the ids in its cell, but its own.
  unfoldable pub ids_of : Game P → List ℕ → List ℤ
  ids_of g [] = []
  ids_of g (b ∷ bs) = (g.heap b).player_id ∷ ids_of g bs

  -- The id, the coordinates and the ids nearby, for each session of the map.
  unfoldable pub log_all_players_aoi : Game P → List (ℤ × ℕ) → List (ℤ × Float × Float × List ℤ)
  unfolding ids_of others
  log_all_players_aoi g [] = []
  log_all_players_aoi g ((id, a) ∷ m) =
      (id, (g.heap a).x, (g.heap a).y, ids_of g (others a (g.grids (center g a))))
      ∷ log_all_players_aoi g m
