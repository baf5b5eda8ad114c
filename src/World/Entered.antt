-- ===== src/World/Entered.antt =====
-- Where EnterGame leaves its session (MMO/Server/Game/World.cpp).
use mmorpg_server.Base.{
  ℕ, ◌%◌, ◌≡◌, refl, some, List, ap, ◌∙◌, true, ==_refl, Option-cases, inl, inr,
}
use mmorpg_server.Base.Int.{ℤ, pos, eqb_ℤ_iff}
use mmorpg_server.Grid.{map_size}
use mmorpg_server.Platform.{Platform}
use mmorpg_server.Game.{Game, send, spawn, map_find, map_set}
use mmorpg_server.Game.Map.{map_find-set}
use mmorpg_server.World.{ensure_player, enter_locked, enter_game}
use mmorpg_server.World.Subscribed.{in_game, holds, spawn_each-SameWorld}

module _ (P : Platform) where
  ensure_player_same :
      (a : ℕ) (g : Game P)
      → (((ensure_player P a g).heap a).state ≡ (g.heap a).state)
        × ((ensure_player P a g).sessions ≡ g.sessions)
  unfolding ensure_player
  ensure_player_same a g = elim (Option-cases (P.get_player (g.heap a).ext)) [
    | inl e ↦ rw (e, ensure_player) (rw (==_refl a) refl, refl)
    | inr (player, e) ↦ rw (e, ensure_player) (refl, refl)
  ]

  found :
      (a : ℕ) (id : ℤ) (sessions : List (ℤ × ℕ))
      → holds P (map_find id (map_set id a sessions)) a ≡ true
  found a id sessions =
      let known : map_find id (map_set id a sessions) ≡ some a =
        map_find-set id id a sessions ∙ rw ((eqb_ℤ_iff id id).1 refl) refl in
      ap (λ o. holds P o a) known ∙ ==_refl a

  -- After EnterGame the map of sessions holds the session under its player id, and its state is as before.
  pub enter_game_lem :
      (a rand_x rand_y : ℕ) (g : Game P)
      → let g' = enter_game P a rand_x rand_y g in
        ((g'.heap a).state ≡ (g.heap a).state) × (in_game P g' a ≡ true)
  unfolding enter_game enter_locked
  enter_game_lem a rand_x rand_y g =
      let start_x = P.of_int (pos (rand_x % map_size)) in
      let start_y = P.of_int (pos (rand_y % map_size)) in
      let (targets, entered) = enter_locked P a start_x start_y g in
      let told = send P a (spawn (entered.heap a).player_id start_x start_y) entered in
      let (heap, grids, sessions) = spawn_each-SameWorld P a start_x start_y targets told in
      rw (heap, sessions, ==_refl a)
        (
          (ensure_player_same a g).0,
          found a ((ensure_player P a g).heap a).player_id (ensure_player P a g).sessions,
        )
