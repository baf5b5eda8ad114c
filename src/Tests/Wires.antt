-- ===== src/Tests/Wires.antt =====
-- Packets on the wire (MMO/Server/Core/Protocol.h, MMO/Client/Protocol.h), and the lines of the log files.
use mmorpg_server.Base.{
  ℕ, ◌+◌, ◌-◌, ◌≡◌, refl, ◌^◌, ◌%◌, some, List, [], ◌∷◌, ◌++◌, arith, map, drop,
}
use mmorpg_server.Base.Int.{ℤ, pos}
use mmorpg_server.Protocol.{read_header, header_size, s_spawn}
use mmorpg_server.Game.{Message, spawn, despawn}
use mmorpg_server.Client.{Client, waits, receive_thread}
use mmorpg_server.Wire.{word, client_struct, client_id_number, decode, packet_bytes}
use mmorpg_server.Wire.Layout.{client_struct_reads}
use mmorpg_server.Wire.Effects.{receive_thread-message_bytes}
use mmorpg_server.Monitor.Cpu.{
  CpuFloats, get_process_cpu, at_most_100, usage_of, shown_state, get_process_cpu_exact,
}
use mmorpg_server.Monitor.{Row}
use mmorpg_server.Monitor.Lines.{Printer, monitor_header, log_line}
use mmorpg_server.Monitor.Columns.{columns, cell_text, columns-log_line}
use mmorpg_server.Client.{logout_packet}
use mmorpg_server.Tests.Machine.{machine}
use mmorpg_server.Tests.Clients.{integer_floats, fresh_client, one_nearby, spawn_bytes}

-- Player 9 comes into view at (1, 2), and goes.
abbrev told : List (Message ℤ)
told = spawn (pos 9) (pos 1) (pos 2) ∷ despawn (pos 9) ∷ []

-- The bytes, cut inside the second header.
abbrev cut_bytes : List (List ℕ)
cut_bytes = (spawn_bytes ++ (8 ∷ 0 ∷ 7 ∷ [])) ∷ (0 ∷ 9 ∷ 0 ∷ 0 ∷ 0 ∷ []) ∷ []

receive_thread-message_bytes_example :
    receive_thread machine cut_bytes [] fresh_client ≡ waits [] one_nearby
unfolding mmorpg_server.Wire.message_bytes mmorpg_server.Client.add_nearby
receive_thread-message_bytes_example =
    receive_thread-message_bytes machine integer_floats told cut_bytes fresh_client
      (((omega arith, refl), (omega arith, refl)), (tt, tt)) refl

client_struct_reads_example :
    let stream = packet_bytes s_spawn (word 9 ∷ word 1 ∷ word 2 ∷ []) ++ (7 ∷ []) in
    ((read_header stream).size ≡ 16)
    × ((read_header stream).id ≡ client_id_number s_spawn)
    × (decode (client_struct s_spawn) (drop header_size stream)
        ≡ some (word 9 ∷ word 1 ∷ word 2 ∷ []))
unfolding mmorpg_server.Wire.server_struct packet_bytes
client_struct_reads_example =
    client_struct_reads s_spawn (word 9 ∷ word 1 ∷ word 2 ∷ []) (7 ∷ [])
      (omega arith, (omega arith, (omega arith, tt)))

-- Half of one core of two, across a wrap of the clock.
abbrev cpu_floats : CpuFloats machine
cpu_floats = record { of_word = pos; div = λ a b. a; mul = λ a b. a }

get_process_cpu_exact_example :
    get_process_cpu machine cpu_floats
      (some (record { kernel = (2 ^ 64 + 20) % 2 ^ 64; user = 30 % 2 ^ 64 }))
      ((2 ^ 64 + 5) % 2 ^ 64)
      2
      (shown_state machine cpu_floats (2 ^ 64 - 10) 10 (2 ^ 64 - 5))
    ≡ (
      at_most_100 machine cpu_floats (usage_of machine cpu_floats 50 100000 2),
      shown_state machine cpu_floats (2 ^ 64 + 20) 30 (2 ^ 64 + 5),
    )
get_process_cpu_exact_example =
    get_process_cpu_exact machine cpu_floats (2 ^ 64 - 10) (2 ^ 64 + 20) 10 30 (2 ^ 64 - 5)
      (2 ^ 64 + 5) 2 (omega arith) (omega arith) (omega arith) (omega arith) (omega arith) refl

-- A printer that writes a digit for everything.
abbrev digit : List ℕ
digit = 49 ∷ []

abbrev printer : Printer machine
printer = record {
  show_number = λ n. digit;
  show_int = λ n. digit;
  show_float = λ d x. digit;
  show_date = λ t. digit;
  show_hour = λ t. digit;
  number_plain = λ n. (refl, refl, refl, refl, tt);
  int_plain = λ n. (refl, refl, refl, refl, tt);
  float_plain = λ d x. (refl, refl, refl, refl, tt);
  date_cell = λ t. (refl, refl, tt);
  hour_cell = λ t. (refl, refl, tt);
}

abbrev row : Row
row = record { time = 7; users = 2; taken = λ k. k }

columns-log_line_example :
    columns (log_line machine printer row (pos 1) (pos 2))
    ≡ map (cell_text machine printer row (pos 1) (pos 2)) monitor_header
columns-log_line_example = columns-log_line machine printer row (pos 1) (pos 2)
