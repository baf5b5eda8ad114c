-- ===== src/Player.antt =====
-- class Player (MMO/Server/Game/Player.h, Player.cpp): damage, death and the respawn timer. A player is
-- named by its address; hit points stay far from the ends of `int32_t`.
pub mod Life
pub mod Respawn
use mmorpg_server.Base.{ℕ, Bool, true, false, Option, none, some, List, if◌then◌else◌, not}
use mmorpg_server.Base.Int.{ℤ, pos, ◌-ℤ◌, leb_ℤ, eqb_ℤ}
use mmorpg_server.TimeWheel.{add_timer}
use mmorpg_server.Platform.{Platform}
use mmorpg_server.Game.{Game, Player, RespawnTimer, Message, respawn, set_at, send}
use mmorpg_server.World.{broadcast_die, broadcast_packet_to_observers}

abbrev pub respawn_delay : ℕ
respawn_delay = 5000

-- Player::Reset.
unfoldable pub reset : Player → Player
reset player = record player { hp = pos 100; max_hp = pos 100 }

module _ (P : Platform) where
  abbrev pub set_hp : ℕ → ℤ → Game P → Game P
  set_hp player hp g = record g {
    players = set_at g.players player (record (g.players player) { hp = hp });
  }

  unfoldable pub die : ℕ → Game P → Game P
  unfolding broadcast_die
  die player g =
      let session = (g.players player).session in
      let told = broadcast_die P session (set_hp player (pos 0) g) in
      record told {
        wheel =
            add_timer told.wheel respawn_delay
              (record { session = session; expected_id = (g.heap session).player_id });
      }

  unfoldable pub on_damaged : ℕ → ℤ → Game P → Game P
  on_damaged player damage g =
      let hp = (g.players player).hp in
      let left = hp -ℤ damage in
      if leb_ℤ hp (pos 0)
      then g
      else if leb_ℤ left (pos 0)
      then die player (set_hp player (pos 0) g)
      else set_hp player left g

  -- Player::Respawn.
  unfoldable pub respawn_player : ℕ → Game P → Game P
  unfolding broadcast_packet_to_observers send
  respawn_player player g =
      let p = g.players player in
      let s = g.heap p.session in
      let packet = respawn s.player_id s.x s.y in
      broadcast_packet_to_observers P p.session packet
        (send P p.session packet (set_hp player p.max_hp g))

  -- The callback that Player::Die leaves in the time wheel.
  unfoldable pub respawn_callback : RespawnTimer → Game P → Game P
  unfolding respawn_player
  respawn_callback timer g =
      let s = g.heap timer.session in
      elim (P.get_player s.ext) [
        | none ↦ g
        | some player ↦
            if not (eqb_ℤ s.player_id timer.expected_id) then g else respawn_player player g
      ]
