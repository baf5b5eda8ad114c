-- ===== src/Client/Play.antt =====
-- The whole client (main, ReceiveThread, InputThread and ConsoleHandler of MMO/Client/Main.cpp): its three
-- threads and its end, a step at a time and in any order.
use mmorpg_server.Base.{
  ℕ, Bool, true, false, Option, none, some, List, [], ◌∷◌, ◌++◌, ◌==◌, ltb, if◌then◌else◌, length,
  drop,
}
use mmorpg_server.Base.Int.{pos}
use mmorpg_server.Protocol.{
  s_login, c_enter_game, header_size, id_number, to_header, header_bytes, read_header,
}
use mmorpg_server.Platform.{Platform}
use mmorpg_server.Handler.{read_word, ◌>>=◌}
use mmorpg_server.Client.{
  Client, Floats, success_byte, on_packet, login_packet, input_line, attack_step, move_step,
  send_bytes,
}
use mmorpg_server.Client.Console.{console_handler}

-- Where the main thread is: it waits for its player id, or is before the move or the attack of a round.
pub data MainPhase : Type 0 where
  logging_in moving attacking : MainPhase

-- Where ReceiveThread is: at recv, at the test of its inner loop, or between the assignment to myPlayerId and
-- the send of C_ENTER_GAME.
pub data RecvPhase : Type 0 where
  at_recv parsing entering : RecvPhase

-- `buffer` is what ReceiveThread has received and not erased; `over` is set by exit(0).
pub record Play (P : Platform) : Type 0 where
  pub main : MainPhase
  pub recv : RecvPhase
  pub buffer : List ℕ
  pub client : Client P
  pub over : Bool

-- What may happen next: a recv returns, ReceiveThread goes on by a packet or a part of one, a line is typed
-- (beside what the array of the packet held), the main thread goes on (with what rand() returns next), or
-- the console is closed.
pub data PlayEvent : Type 0 where
  gets : List ℕ → PlayEvent
  parses : PlayEvent
  types : List ℕ → List ℕ → PlayEvent
  goes_on : ℕ → ℕ → ℕ → PlayEvent
  closes : PlayEvent

module _ (P : Platform) where
  -- The globals at the start.
  unfoldable pub new_client : Client P
  new_client = record {
    my_player_id = 0;
    nearby_players = [];
    my_x = P.of_int (pos 0);
    my_y = P.of_int (pos 0);
    sent = [];
  }

  -- main, up to the start of the threads.
  unfoldable pub start_play : List ℕ → List ℕ → Play P
  unfolding new_client login_packet send_bytes
  start_play input_id input_pw = record {
    main = logging_in;
    recv = at_recv;
    buffer = [];
    client = send_bytes P (login_packet P input_id input_pw) new_client;
    over = false;
  }

  -- What recv returned, put behind the buffer; `none` while the thread is not at recv.
  unfoldable pub play_recv : RecvPhase → List ℕ → Play P → Option (Play P)
  play_recv at_recv chunk s = some (record s { recv = parsing; buffer = s.buffer ++ chunk })
  play_recv _ chunk s = none

  -- The erase at the end of a packet, which leaves a packet of size 0 where it is.
  unfoldable pub erase_packet : Client P → Play P → Play P
  unfolding read_header
  erase_packet c s = record s {
    recv = parsing;
    buffer = drop (read_header s.buffer).size s.buffer;
    client = c;
  }

  -- A login reply, up to the send.
  unfoldable pub take_login : Bool → Play P → Option (Play P)
  unfolding erase_packet
  take_login false s = some (erase_packet s.client s)
  take_login true s = do
    id ← read_word s.buffer 41
    some (record s { recv = entering; client = record s.client { my_player_id = id } })

  -- The packet at the start of the buffer.
  unfoldable pub take_packet : Play P → Option (Play P)
  unfolding take_login erase_packet on_packet success_byte id_number read_header
  take_packet s =
      if (read_header s.buffer).id == id_number s_login
      then (success_byte s.buffer >>= (λ success. take_login success s))
      else (on_packet P s.buffer s.client >>= (λ c. some (erase_packet c s)))

  -- ReceiveThread behind its recv: the tests of the inner loop and a packet, or the send that is left of a
  -- login reply. `none` at recv, and where the packet is read past the bytes at hand.
  unfoldable pub parse_step : RecvPhase → Play P → Option (Play P)
  unfolding take_packet erase_packet send_bytes to_header header_bytes read_header
  parse_step at_recv s = none
  parse_step parsing s =
      if ltb (length s.buffer) header_size
      then some (record s { recv = at_recv })
      else if ltb (length s.buffer) (read_header s.buffer).size
      then some (record s { recv = at_recv })
      else take_packet s
  parse_step entering s =
      some (erase_packet (send_bytes P (header_bytes (to_header c_enter_game)) s.client) s)

  module _ (F : Floats P) where
    -- The main thread, from where it is.
    unfoldable pub main_step : MainPhase → ℕ → ℕ → ℕ → Play P → Play P
    unfolding move_step attack_step
    main_step logging_in r0 r1 r2 s =
        if s.client.my_player_id == 0 then s else record s { main = moving }
    main_step moving r0 r1 r2 s = record s {
      main = attacking;
      client = move_step P F r0 r1 s.client;
    }
    main_step attacking r0 r1 r2 s = record s {
      main = moving;
      client = attack_step P r0 r1 r2 s.client;
    }

    unfoldable pub play_event : PlayEvent → Play P → Option (Play P)
    unfolding play_recv parse_step input_line main_step console_handler
    play_event (gets chunk) s = play_recv s.recv chunk s
    play_event parses s = parse_step s.recv s
    play_event (types stack line) s = some (record s { client = input_line P stack line s.client })
    play_event (goes_on r0 r1 r2) s = some (main_step s.main r0 r1 r2 s)
    play_event closes s =
        some (record s { client = (console_handler P true (some 1) s.client).1; over = true })

    -- Nothing comes after exit(0).
    unfoldable pub play_step : PlayEvent → Play P → Option (Play P)
    unfolding play_event
    play_step e s = if s.over then none else play_event e s

    unfoldable pub play_run : List PlayEvent → Play P → Option (Play P)
    unfolding play_step
    play_run [] s = some s
    play_run (e ∷ es) s = play_step e s >>= play_run es
