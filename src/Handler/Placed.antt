-- ===== src/Handler/Placed.antt =====
-- Where the players of the game stand (MMO/Server/Game/World.cpp, MMO/Server/Core/PacketHandler.cpp).
use mmorpg_server.Base.{
  ℕ, ◌%◌, ◌≡◌, refl, ◌∙◌, Bool, true, false, none, arith, ◌==◌, if◌then◌else◌, Option-cases, inl,
  inr, ◌⊎◌,
}
use mmorpg_server.Base.Int.{pos}
use mmorpg_server.Grid.{map_size}
use mmorpg_server.Platform.{Platform, Session}
use mmorpg_server.Game.{Game, send, send_all, spawn, move, set_at}
use mmorpg_server.World.{
  clamp, ensure_player, enter_locked, enter_game, spawn_each, move_locked, send_despawns,
  send_spawns, handle_move, set_pos,
}
use mmorpg_server.World.Subscribed.{
  SameWorld, send_all-SameWorld, spawn_each-SameWorld, send_despawns-SameWorld,
  send_spawns-SameWorld,
}
use mmorpg_server.Handler.{on_map, update_session}
use mmorpg_server.Handler.Frame.{clamp_on_map}
use mmorpg_server.Handler.Closed.{SamePlace, IsClosed}

module _ (P : Platform) where
  open P use {Float, Ext}

  -- The integers from 0 to 999 are floats on the map.
  abbrev pub HoldsInts : Type 0
  HoldsInts =
      (m n : ℕ) → on_map P (P.of_int (pos (m % map_size))) (P.of_int (pos (n % map_size))) ≡ true

  abbrev pub IsPlaced : Session Float Ext → Type 0
  IsPlaced s = (P.get_player s.ext ≡ none) ⊎ (on_map P s.x s.y ≡ true)

  -- Every session that holds a player stands on the map. (The position of a session that never held one
  -- is not initialised.)
  abbrev pub Placed : Game P → Type 0
  Placed g = (a : ℕ) → IsPlaced (g.heap a)

  set_at-IsPlaced :
      (a : ℕ) (s : Session Float Ext) (heap : ℕ → Session Float Ext)
      → IsPlaced s
      → ((b : ℕ) → (a == b) ≡ false → IsPlaced (heap b))
      → (b : ℕ) → IsPlaced (set_at heap a s b)
  set_at-IsPlaced a s heap here q b = choose (a == b) refl
    where
      choose : (t : Bool) → (a == b) ≡ t → IsPlaced (if t then s else heap b)
      choose true e = here
      choose false e = q b e

  frame-Placed : (g h : Game P) → SameWorld P g h → Placed h → Placed g
  frame-Placed g h (e, f, s) q = rw e q

  update_session-Placed :
      (a : ℕ) (s : Session Float Ext) (g : Game P)
      → SamePlace P s (g.heap a)
      → Placed g
      → Placed (update_session P a s g)
  update_session-Placed a s g same q =
      set_at-IsPlaced a s g.heap (same_place (q a)) (λ b other. q b)
    where
      same_place : IsPlaced (g.heap a) → IsPlaced s
      same_place (inl e) = inl (same.same_player ∙ e)
      same_place (inr on) = inr (rw (same.same_x, same.same_y) on)

  clamped : (x y : Float) → on_map P x y ≡ true → on_map P (clamp P x) (clamp P y) ≡ true
  unfolding on_map
  clamped x y on =
      rw
        (
          clamp_on_map P x (ground (arith, on)) (ground (arith, on)),
          clamp_on_map P y (ground (arith, on)) (ground (arith, on)),
        )
        on

  set_pos-IsPlaced :
      (a : ℕ) (x y : Float) (s : Session Float Ext) (heap : ℕ → Session Float Ext)
      → on_map P x y ≡ true
      → ((b : ℕ) → (a == b) ≡ false → IsPlaced (heap b))
      → (b : ℕ) → IsPlaced (set_at heap a (set_pos P x y s) b)
  set_pos-IsPlaced a x y s heap on q = set_at-IsPlaced a (set_pos P x y s) heap (inr on) q

  handle_move-Placed :
      (a : ℕ) (x y : Float) (g : Game P)
      → on_map P x y ≡ true
      → Placed g
      → Placed (handle_move P a x y g)
  unfolding handle_move move_locked
  handle_move-Placed a raw_x raw_y g on q =
      let x = clamp P raw_x in
      let y = clamp P raw_y in
      let (t, moved) = move_locked P a x y g in
      let despawned = send_despawns P t.despawn_pairs moved in
      let spawned = send_spawns P t.spawn_pairs despawned in
      let m = move (moved.heap a).player_id x y in
      frame-Placed (send_all P t.move_targets m spawned) spawned
        (send_all-SameWorld P t.move_targets m spawned)
        (frame-Placed spawned despawned (send_spawns-SameWorld P t.spawn_pairs despawned) (
          frame-Placed despawned moved (send_despawns-SameWorld P t.despawn_pairs moved)
            (set_pos-IsPlaced a x y (g.heap a) g.heap (clamped raw_x raw_y on) (λ b other. q b))))

  others-Placed :
      (a : ℕ) (g : Game P)
      → Placed g
      → (b : ℕ) → (a == b) ≡ false
      → IsPlaced ((ensure_player P a g).heap b)
  unfolding ensure_player
  others-Placed a g q b other = elim (Option-cases (P.get_player (g.heap a).ext)) [
    | inl e ↦ rw (e, ensure_player) (rw other (q b))
    | inr (player, e) ↦ rw (e, ensure_player) (q b)
  ]

  enter_locked-Placed :
      (a : ℕ) (x y : Float) (g : Game P)
      → on_map P x y ≡ true
      → Placed g
      → Placed (enter_locked P a x y g).1
  unfolding enter_locked
  enter_locked-Placed a x y g on q =
      let ready : Game P = ensure_player P a g in
      set_pos-IsPlaced a x y (ready.heap a) ready.heap on (others-Placed a g q)

  enter_game-Placed :
      HoldsInts
      → (a rand_x rand_y : ℕ) (g : Game P) → Placed g
      → Placed (enter_game P a rand_x rand_y g)
  unfolding enter_game
  enter_game-Placed ints a rand_x rand_y g q =
      let start_x : Float = P.of_int (pos (rand_x % map_size)) in
      let start_y : Float = P.of_int (pos (rand_y % map_size)) in
      let (targets, entered) = enter_locked P a start_x start_y g in
      let told = send P a (spawn (entered.heap a).player_id start_x start_y) entered in
      frame-Placed (spawn_each P a start_x start_y targets told) entered
        (spawn_each-SameWorld P a start_x start_y targets told)
        (enter_locked-Placed a start_x start_y g (ints rand_x rand_y) q)

  pub Placed-IsClosed : HoldsInts → IsClosed P Placed
  Placed-IsClosed ints = record {
    framed = frame-Placed;
    updated = update_session-Placed;
    entered = enter_game-Placed ints;
    moved = handle_move-Placed;
  }
