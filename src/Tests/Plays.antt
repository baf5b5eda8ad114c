-- ===== src/Tests/Plays.antt =====
-- A run of the whole client (MMO/Client/Main.cpp).
use mmorpg_server.Base.{◌≡◌, refl, false, some, List, [], ◌∷◌, ℕ, arith, map, take, drop}
use mmorpg_server.Base.Int.{pos, ◌+ℤ◌}
use mmorpg_server.Protocol.{header_bytes, to_header, c_enter_game, read_header}
use mmorpg_server.Ring.{
  new_ring, copy_to, move_write_pos, clear, peek, read, remove, get_continuous_used_size,
  get_continuous_free_size, get_free_size, get_use_size,
}
use mmorpg_server.Ring.Continuous.{receive}
use mmorpg_server.Ring.Contents.{IsValid, contents}
use mmorpg_server.Framing.{
  peek_header, cut_packet, push_packet, bad_size, bytes_read, buffer_after, process_packets,
  waiting,
}
use mmorpg_server.Framing.RoundTrip.{encode}
use mmorpg_server.Framing.Receive.{on_recv, process, started, receive_each, AllFit, concat}
use mmorpg_server.Login.{granted, reply_bytes}
use mmorpg_server.Client.{login_packet, move_packet, attack_packet}
use mmorpg_server.Client.Play.{
  Play, PlayEvent, gets, parses, goes_on, at_recv, moving, start_play, play_run,
}
use mmorpg_server.Client.Stream.{AllRequests, play_run-receive_each}
use mmorpg_server.Tests.Machine.{machine}
use mmorpg_server.Tests.Logins.{stack}
use mmorpg_server.Tests.Clients.{integer_floats}

-- The main thread waits once, the login is granted, and a move and an attack follow, the move before the
-- packet that enters the game.
abbrev events : List PlayEvent
events =
    goes_on 0 0 0
    ∷ gets (reply_bytes (granted stack 5 7 (65 ∷ [])))
    ∷ parses
    ∷ goes_on 0 0 0
    ∷ goes_on 45 10 0
    ∷ parses
    ∷ parses
    ∷ goes_on 5 1 0
    ∷ []

abbrev packets : List (List ℕ)
packets =
    login_packet machine (65 ∷ []) (80 ∷ [])
    ∷ move_packet machine integer_floats (pos 15) (pos 0)
    ∷ header_bytes (to_header c_enter_game)
    ∷ attack_packet machine 1 0
    ∷ []

abbrev played : Play machine
played = record {
  main = moving;
  recv = at_recv;
  buffer = [];
  client = record {
    my_player_id = 5;
    nearby_players = [];
    my_x = pos 15;
    my_y = pos 0;
    sent = packets;
  };
  over = false;
}

plays_so :
    play_run machine integer_floats events (start_play machine (65 ∷ []) (80 ∷ [])) ≡ some played
unfolding play_run start_play ◌+ℤ◌ reply_bytes granted mmorpg_server.Handler.read_word
    mmorpg_server.Handler.word_of
plays_so = refl

-- The stream, cut inside the second packet.
abbrev halves : List (List ℕ)
halves = take 75 (concat packets) ∷ drop 75 (concat packets) ∷ []

wide_ring-IsValid : IsValid (new_ring 127)
unfolding new_ring
wide_ring-IsValid = record { storage = refl; read_in = omega arith; write_in = omega arith }

halves_fit : AllFit halves (started (new_ring 127))
unfolding started new_ring receive_each on_recv process receive move_write_pos copy_to
    process_packets peek_header peek cut_packet buffer_after bytes_read bad_size push_packet clear
    read remove get_use_size get_free_size get_continuous_free_size get_continuous_used_size
    read_header header_bytes login_packet move_packet attack_packet
halves_fit = (omega arith, omega arith, (omega arith, omega arith, tt))

play_run-receive_each_example :
    let done = receive_each halves (started (new_ring 127)) in
    (map encode done.jobs ≡ packets)
    × AllRequests done.jobs
    × (contents done.buffer ≡ [])
    × (done.outcome ≡ waiting)
unfolding get_use_size new_ring login_packet header_bytes move_packet attack_packet
play_run-receive_each_example =
    play_run-receive_each machine integer_floats events (65 ∷ []) (80 ∷ []) played halves tt
      plays_so wide_ring-IsValid refl halves_fit refl
