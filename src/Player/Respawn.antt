-- ===== src/Player/Respawn.antt =====
-- From a death to the return (MMO/Server/Game/Player.cpp and its timer in MMO/Server/Core/TimeWheel.cpp).
use mmorpg_server.Base.{
  ℕ, suc, ◌<◌, ◌≡◌, refl, ap, ◌∙◌, ◌++◌, [], ◌∷◌, true, false, some, arith, append-nil, ==_refl,
  ◌==◌, if◌then◌else◌, ◌%◌, ◌/◌,
}
use mmorpg_server.Base.Int.{pos, ◌≤ℤ◌, leb_ℤ, eqb_ℤ, eqb_ℤ_iff}
use mmorpg_server.TimeWheel.{wheel_size, wheel_tick}
use mmorpg_server.TimeWheel.Firing.{IsWheel, fired_in, fired_in-add_timer}
use mmorpg_server.Platform.{Platform}
use mmorpg_server.Game.{Game, RespawnTimer}
use mmorpg_server.Game.Sent.{send_all_lem}
use mmorpg_server.World.{broadcast_packet_to_observers}
use mmorpg_server.Player.{respawn_delay, on_damaged, respawn_player, respawn_callback}
use mmorpg_server.Player.Life.{on_damaged_lethal}

module _ (P : Platform) where
  -- The callback for a session that still has its id and its player.
  respawn_callback_lem :
      (timer : RespawnTimer) (player : ℕ) (later : Game P)
      → P.get_player (later.heap timer.session).ext ≡ some player
      → (later.heap timer.session).player_id ≡ timer.expected_id
      → respawn_callback P timer later ≡ respawn_player P player later
  unfolding respawn_callback
  respawn_callback_lem timer player later present same =
      let same_id : eqb_ℤ (later.heap timer.session).player_id timer.expected_id ≡ true =
        ground (arith, eqb_ℤ_iff (later.heap timer.session).player_id timer.expected_id, same) in
      rw (present, respawn_callback) (rw (same_id, respawn_callback) refl)

  respawn_player_hp :
      (player : ℕ) (g : Game P)
      → ((respawn_player P player g).players player).hp ≡ (g.players player).max_hp
  unfolding respawn_player broadcast_packet_to_observers
  respawn_player_hp player g = rw send_all_lem (rw (==_refl player) refl)

  -- A death by damage, and the five seconds after it: the timer of the death is called in the fiftieth
  -- round of the wheel, behind what was to be called there, and in no round before it. If the session
  -- then still has its id and its player, the call fills the player's hit points again, in whatever
  -- state the rest of the game is.
  pub death_then_respawn :
      (player damage n : ℕ) (g later : Game P)
      → leb_ℤ (g.players player).hp (pos 0) ≡ false
      → (g.players player).hp ≤ℤ pos damage
      → IsWheel g.wheel
      → n < 49
      → let session = (g.players player).session in
        let id = (g.heap session).player_id in
        let timer : RespawnTimer = record { session = session; expected_id = id } in
        let dead = on_damaged P player (pos damage) g in
        P.get_player (later.heap session).ext ≡ some player
        → (later.heap session).player_id ≡ id
        → (fired_in n dead.wheel ≡ fired_in n g.wheel)
          × (fired_in 49 dead.wheel ≡ fired_in 49 g.wheel ++ (timer ∷ []))
          × (((respawn_callback P timer later).players player).hp ≡ (later.players player).max_hp)
  death_then_respawn player damage n g later alive enough wheel before present same =
      let session = (g.players player).session in
      let id = (g.heap session).player_id in
      let timer : RespawnTimer = record { session = session; expected_id = id } in
      let lethal = on_damaged_lethal P player damage g alive enough in
      let not_now : (respawn_delay / wheel_tick % wheel_size == suc n % wheel_size) ≡ false =
        ground (arith, before) in
      (
        ap (fired_in n) lethal.2
            ∙ fired_in-add_timer g.wheel respawn_delay timer n wheel (omega (arith, before))
            ∙ ap (λ b. fired_in n g.wheel ++ (if b then timer ∷ [] else [])) not_now
            ∙ append-nil (fired_in n g.wheel),
        ap (fired_in 49) lethal.2
            ∙ fired_in-add_timer g.wheel respawn_delay timer 49 wheel (omega arith),
        rw (respawn_callback_lem timer player later present same) (respawn_player_hp player later),
      )
