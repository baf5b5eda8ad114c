-- ===== src/World/Subscribed.antt =====
-- The subscription invariant of the area-of-interest grid: a session that is in the game is in exactly
-- the cells that its position sees, and no other session is in a cell. It is
-- stated of EnterGame, HandleMove and LeaveGame (MMO/Server/Game/World.cpp).
use mmorpg_server.Base.{
  ℕ, ◌%◌, ◌≡◌, refl, Bool, true, false, not, ◌&&◌, ◌||◌, Option, none, some, List, [], ◌∷◌, arith,
  ◌==◌, Bool-cases, Option-cases, inl, inr,
}
use mmorpg_server.Base.Int.{pos, eqb_ℤ_iff}
use mmorpg_server.Grid.{GridPos, contains, map_size}
use mmorpg_server.Grid.Cells.{same_pos-eq}
use mmorpg_server.Grid.Vision.{
  sees, insert_to_vision_grids_lem, remove_from_vision_grids_lem, update_vision_grids_lem,
}
use mmorpg_server.Platform.{Platform}
use mmorpg_server.Game.{Game, Message, spawn, despawn, move, map_find, send, send_all}
use mmorpg_server.Game.Map.{map_find-set, map_find-erase}
use mmorpg_server.World.{
  get_grid_pos, center, ensure_player, spawn_each, enter_locked, enter_game, leave_locked,
  leave_game, has_player, clamp, move_locked, send_despawns, send_spawns, handle_move,
}

module _ (P : Platform) where
  open P use {Float, vision_range}

  -- The map holds the session under its own player id.
  abbrev pub holds : Option ℕ → ℕ → Bool
  holds none a = false
  holds (some b) a = b == a

  abbrev pub in_game : Game P → ℕ → Bool
  in_game g a = holds (map_find (g.heap a).player_id g.sessions) a

  abbrev pub IsSubscribed : Game P → Type 0
  IsSubscribed g =
      (a : ℕ) (q : GridPos)
      → contains (g.grids q) a ≡ (in_game g a && sees vision_range (center P g a) q)

  -- The sends change neither the sessions nor the grid.
  abbrev pub SameWorld : Game P → Game P → Type 0
  SameWorld g h = (g.heap ≡ h.heap) × (g.grids ≡ h.grids) × (g.sessions ≡ h.sessions)

  pub SameWorld-IsSubscribed : (g h : Game P) → SameWorld g h → IsSubscribed h → IsSubscribed g
  SameWorld-IsSubscribed g h (e, f, s) inv = rw (e, f, s) inv

  pub send_all-SameWorld :
      (ts : List ℕ) (m : Message Float) (g : Game P) → SameWorld (send_all P ts m g) g
  unfolding send_all
  send_all-SameWorld [] m g = (refl, refl, refl)
  send_all-SameWorld (t ∷ ts) m g = send_all-SameWorld ts m (send P t m g)

  pub spawn_each-SameWorld :
      (a : ℕ) (x y : Float) (bs : List ℕ) (g : Game P) → SameWorld (spawn_each P a x y bs g) g
  unfolding spawn_each
  spawn_each-SameWorld a x y [] g = (refl, refl, refl)
  spawn_each-SameWorld a x y (b ∷ bs) g = spawn_each-SameWorld a x y bs _

  pub send_despawns-SameWorld :
      (ps : List (ℕ × ℕ)) (g : Game P) → SameWorld (send_despawns P ps g) g
  unfolding send_despawns
  send_despawns-SameWorld [] g = (refl, refl, refl)
  send_despawns-SameWorld ((t, o) ∷ ps) g = send_despawns-SameWorld ps _

  pub send_spawns-SameWorld : (ps : List (ℕ × ℕ)) (g : Game P) → SameWorld (send_spawns P ps g) g
  unfolding send_spawns
  send_spawns-SameWorld [] g = (refl, refl, refl)
  send_spawns-SameWorld ((t, o) ∷ ps) g = send_spawns-SameWorld ps _

  -- A new player changes neither the positions nor the ids, the grid or the map.
  record SamePlaces (g h : Game P) : Type 0 where
    xs : (a : ℕ) → (g.heap a).x ≡ (h.heap a).x
    ys : (a : ℕ) → (g.heap a).y ≡ (h.heap a).y
    ids : (a : ℕ) → (g.heap a).player_id ≡ (h.heap a).player_id
    cells : g.grids ≡ h.grids
    keys : g.sessions ≡ h.sessions

  ensure_player-SamePlaces : (a : ℕ) (g : Game P) → SamePlaces (ensure_player P a g) g
  unfolding ensure_player
  ensure_player-SamePlaces a g = elim (Option-cases (P.get_player (g.heap a).ext)) [
    | inl missing ↦
        rw (missing, ensure_player)
          (record {
            xs = λ b. ground arith;
            ys = λ b. ground arith;
            ids = λ b. ground arith;
            cells = refl;
            keys = refl;
          })
    | inr (player, found) ↦
        rw (found, ensure_player)
          (record { xs = λ b. refl; ys = λ b. refl; ids = λ b. refl; cells = refl; keys = refl })
  ]

  -- Entering: no session has the id yet.
  enter_locked-IsSubscribed :
      (a : ℕ) (x y : Float) (g : Game P)
      → IsSubscribed g
      → map_find (g.heap a).player_id g.sessions ≡ none
      → IsSubscribed (enter_locked P a x y g).1
  unfolding enter_locked
  enter_locked-IsSubscribed a x y g inv fresh b q =
      let g1 = ensure_player P a g in
      let same = ensure_player-SamePlaces a g in
      ground (
        arith,
        same,
        same.xs b,
        same.ys b,
        same.ids b,
        same.ids a,
        insert_to_vision_grids_lem a b (get_grid_pos P x y) vision_range g1.grids q,
        map_find-set (g.heap b).player_id (g.heap a).player_id a g.sessions,
        eqb_ℤ_iff (g.heap a).player_id (g.heap b).player_id,
        inv b q,
      )

  -- EnterGame keeps the invariant, if no session of the map has the entering session's id.
  pub enter_game-IsSubscribed :
      (a rand_x rand_y : ℕ) (g : Game P)
      → IsSubscribed g
      → map_find (g.heap a).player_id g.sessions ≡ none
      → IsSubscribed (enter_game P a rand_x rand_y g)
  unfolding enter_game
  enter_game-IsSubscribed a rand_x rand_y g inv fresh =
      let start_x = P.of_int (pos (rand_x % map_size)) in
      let start_y = P.of_int (pos (rand_y % map_size)) in
      let (targets, entered) = enter_locked P a start_x start_y g in
      let told = send P a (spawn (entered.heap a).player_id start_x start_y) entered in
      SameWorld-IsSubscribed (spawn_each P a start_x start_y targets told) entered
        (spawn_each-SameWorld a start_x start_y targets told)
        (enter_locked-IsSubscribed a start_x start_y g inv fresh)

  leave_locked-IsSubscribed :
      (a : ℕ) (g : Game P)
      → IsSubscribed g
      → in_game g a ≡ true
      → IsSubscribed (leave_locked P a g).1
  unfolding leave_locked
  leave_locked-IsSubscribed a g inv here b q = ground (
    arith,
    remove_from_vision_grids_lem a b (center P g a) vision_range g.grids q,
    map_find-erase (g.heap b).player_id (g.heap a).player_id g.sessions,
    eqb_ℤ_iff (g.heap a).player_id (g.heap b).player_id,
    inv b q,
  )

  -- LeaveGame of a session in the game keeps the invariant; a session without a player is left as it
  -- is.
  pub leave_game-IsSubscribed :
      (a : ℕ) (g : Game P) → IsSubscribed g → in_game g a ≡ true → IsSubscribed (leave_game P a g)
  unfolding leave_game
  leave_game-IsSubscribed a g inv here = elim (Bool-cases (a == 0 || not (has_player P g a))) [
    | inl stays ↦ rw (stays, leave_game) inv
    | inr leaves ↦
        rw (leaves, leave_game)
          (SameWorld-IsSubscribed (told (leave_locked P a g)) (leave_locked P a g).1
            (told-SameWorld (leave_locked P a g)) (leave_locked-IsSubscribed a g inv here))
  ]
    where
      told : List ℕ × Game P → Game P
      told left = send_all P left.0 (despawn (g.heap a).player_id) left.1

      told-SameWorld : (left : List ℕ × Game P) → SameWorld (told left) left.1
      told-SameWorld left = send_all-SameWorld left.0 (despawn (g.heap a).player_id) left.1

  pub move_locked-IsSubscribed :
      (a : ℕ) (x y : Float) (g : Game P)
      → IsSubscribed g
      → in_game g a ≡ true
      → IsSubscribed (move_locked P a x y g).1
  unfolding move_locked
  move_locked-IsSubscribed a x y g inv here b q = ground (
    arith,
    same_pos-eq (center P g a) (get_grid_pos P x y),
    update_vision_grids_lem a b (center P g a) (get_grid_pos P x y) vision_range g.grids q,
    inv b q,
    inv a q,
  )

  -- HandleMove of a session in the game keeps the invariant.
  pub handle_move-IsSubscribed :
      (a : ℕ) (x y : Float) (g : Game P)
      → IsSubscribed g
      → in_game g a ≡ true
      → IsSubscribed (handle_move P a x y g)
  unfolding handle_move
  handle_move-IsSubscribed a raw_x raw_y g inv here =
      let x = clamp P raw_x in
      let y = clamp P raw_y in
      let (t, moved) = move_locked P a x y g in
      let despawned = send_despawns P t.despawn_pairs moved in
      let spawned = send_spawns P t.spawn_pairs despawned in
      let m = move (moved.heap a).player_id x y in
      SameWorld-IsSubscribed (send_all P t.move_targets m spawned) spawned
        (send_all-SameWorld t.move_targets m spawned)
        (SameWorld-IsSubscribed spawned despawned (send_spawns-SameWorld t.spawn_pairs despawned) (
          SameWorld-IsSubscribed despawned moved (send_despawns-SameWorld t.despawn_pairs moved)
            (move_locked-IsSubscribed a x y g inv here)))
