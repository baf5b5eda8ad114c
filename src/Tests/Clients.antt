-- ===== src/Tests/Clients.antt =====
-- Runs of the test client (MMO/Client/Main.cpp), of the monitor
-- (MMO/Server/Observability/ServerMonitor.h) and of a death (MMO/Server/Game/Player.cpp).
use mmorpg_server.Base.{
  ℕ, zero, suc, ◌+◌, ◌%◌, ◌^◌, ◌≤◌, ◌<◌, ◌≡◌, ◌≢◌, refl, Bool, true, false, Option, none, some,
  List, [], ◌∷◌, ◌++◌, arith, length, replicate, drop, if◌then◌else◌, Bool-cases, inl, inr, ltb,
  leb,
}
use mmorpg_server.Base.Int.{ℤ, pos, negsuc, ◌+ℤ◌, pos_part, leb_ℤ, ltb_ℤ}
use mmorpg_server.Protocol.{header_bytes, header_size, read_header, to_header, c_enter_game}
use mmorpg_server.Platform.{lobby, game}
use mmorpg_server.World.Subscribed.{in_game}
use mmorpg_server.Game.{Game, RespawnTimer}
use mmorpg_server.TimeWheel.{new_wheel}
use mmorpg_server.TimeWheel.Firing.{IsWheel, fired_in}
use mmorpg_server.Player.{on_damaged, respawn_callback}
use mmorpg_server.Player.Respawn.{death_then_respawn}
use mmorpg_server.Handler.{handle_packet, handle_c_move, touch}
use mmorpg_server.Login.{granted, reply_bytes}
use mmorpg_server.Client.{Client, Floats, on_packet, send_bytes, login_packet, move_step}
use mmorpg_server.Client.Orders.{login_query, handle_packet-login_packet, on_packet-granted}
use mmorpg_server.Client.Moves.{FloatOrder, moved_to, move_step_lem}
use mmorpg_server.Monitor.{ServerMonitor, update_monitor}
use mmorpg_server.Monitor.Totals.{reported, update_monitor_total}
use mmorpg_server.Tests.Machine.{machine, empty_world, two_players}
use mmorpg_server.Tests.Logins.{stack, stack-IsLaidOut}

abbrev pub fresh_client : Client machine
fresh_client = record {
  my_player_id = 0;
  nearby_players = [];
  my_x = pos 0;
  my_y = pos 0;
  sent = [];
}

-- S_SPAWN of player 9 at (1, 2).
abbrev pub spawn_bytes : List ℕ
spawn_bytes = 16 ∷ 0 ∷ 6 ∷ 0 ∷ 9 ∷ 0 ∷ 0 ∷ 0 ∷ 1 ∷ 0 ∷ 0 ∷ 0 ∷ 2 ∷ 0 ∷ 0 ∷ 0 ∷ []

abbrev pub one_nearby : Client machine
one_nearby = record fresh_client { nearby_players = 9 ∷ [] }

handle_packet-login_packet_example :
    let packet = login_packet machine (65 ∷ []) (80 ∷ []) in
    handle_packet machine 7 0 0 4 (read_header packet) (some (drop header_size packet)) empty_world
    ≡ some (record (touch machine 7 4 empty_world) {
      queries = login_query machine 7 4 (65 ∷ []) (80 ∷ []) empty_world ∷ [];
    })
unfolding mmorpg_server.Login.until_zero
handle_packet-login_packet_example =
    handle_packet-login_packet machine 7 0 0 4 (65 ∷ []) (80 ∷ []) empty_world refl

-- Every session waits to enter.
abbrev lobby_world : Game machine
lobby_world = record empty_world { heap = λ a. record (Game.heap empty_world a) { state = lobby } }

on_packet-granted_example :
    let answer = header_bytes (to_header c_enter_game) in
    (on_packet machine (reply_bytes (granted stack 5 7 (65 ∷ []))) fresh_client
      ≡ some (send_bytes machine answer (record fresh_client { my_player_id = 5 })))
    × ((g' : Game machine) × (handle_packet machine 8 0 0 4 (read_header answer) none lobby_world
          ≡ some g')
        × ((Game.heap g' 4).state ≡ game)
        × (in_game machine g' 4 ≡ true))
on_packet-granted_example =
    on_packet-granted machine stack 5 7 (65 ∷ []) fresh_client 8 0 0 4 lobby_world stack-IsLaidOut
      (omega arith) refl

update_monitor_total_example :
    let busy : ServerMonitor = record { counts = λ k. 3; last_tick = 100; rows = [] } in
    let after = update_monitor 2 1200 (λ k. 2 ∷ []) busy in
    (reported 2 after.rows + after.counts 2 ≡ 11) × (after.last_tick ≡ 1200)
update_monitor_total_example =
    update_monitor_total 2 1200 (λ k. 2 ∷ [])
      (record { counts = λ k. 3; last_tick = 100; rows = [] }) 2 (omega arith) refl

pub coordinate-pos : (x : ℤ) → leb_ℤ (pos 0) x ≡ true → pos (pos_part x) ≡ x
coordinate-pos (pos n) e = refl
coordinate-pos (negsuc n) e = absurd (ground (arith, e))

pub coordinate_bound :
    (x : ℤ) → leb_ℤ (pos 0) x ≡ true → ltb_ℤ x (pos 1000) ≡ true → pos_part x < 2 ^ 32
coordinate_bound x low high = ground (arith, low, high)

abbrev pub integer_floats : Floats machine
integer_floats = record {
  add = λ x y. x +ℤ y;
  to_bits = pos_part;
  to_bits_fit = coordinate_bound;
  of_bits-to_bits = λ x low high. coordinate-pos x low;
}

integer_order : FloatOrder machine
integer_order = record {
  total = λ a b e f g. ground (arith, g);
  le-lt = λ a b c e f. ground (arith, e, f);
  int_number = λ n. ground arith;
  least = refl;
  below = refl;
  zero_below = refl;
}

move_step_lem_example :
    let moved = move_step machine integer_floats 45 10 fresh_client in
    (packet : List ℕ) × (moved.sent ≡ packet ∷ [])
    × (handle_c_move machine 1 (drop header_size packet) two_players
        ≡ some (moved_to machine integer_order 1 moved.my_x moved.my_y two_players))
unfolding ◌+ℤ◌
move_step_lem_example =
    move_step_lem machine integer_order integer_floats 45 10 1 fresh_client two_players refl refl

resting-IsWheel : IsWheel (new_wheel {A = RespawnTimer} 0)
unfolding new_wheel
resting-IsWheel = record { slots_count = refl; cursor_in = omega arith }

death_then_respawn_example :
    let timer : RespawnTimer = record { session = 1; expected_id = pos 1 } in
    let dead = on_damaged machine 1 (pos 150) two_players in
    (fired_in 3 dead.wheel ≡ fired_in 3 two_players.wheel)
    × (fired_in 49 dead.wheel ≡ fired_in 49 two_players.wheel ++ (timer ∷ []))
    × (((respawn_callback machine timer two_players).players 1).hp ≡ pos 100)
unfolding mmorpg_server.World.enter_game mmorpg_server.Grid.insert_to_vision_grids
    mmorpg_server.Grid.is_invalid ◌+ℤ◌ mmorpg_server.World.get_grid_pos
    mmorpg_server.Grid.grid_coordinate mmorpg_server.Base.Int.int_div mmorpg_server.Grid.insert
death_then_respawn_example =
    death_then_respawn machine 1 150 3 two_players two_players refl (omega arith) resting-IsWheel
      (omega arith) refl refl
