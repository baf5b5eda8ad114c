-- ===== src/Tests/Frames.antt =====
-- Runs of the framing of packets (MMO/Server/Network/Source/Session.cpp).
use mmorpg_server.Base.{ℕ, ◌≡◌, refl, List, [], ◌∷◌, arith}
use mmorpg_server.Protocol.{read_header}
use mmorpg_server.Ring.Continuous.{receive}
use mmorpg_server.Ring.{
  RingBuffer, new_ring, copy_to, move_write_pos, clear, peek, read, remove,
  get_continuous_used_size, get_continuous_free_size, get_free_size, get_use_size,
}
use mmorpg_server.Ring.Contents.{IsValid, contents}
use mmorpg_server.Framing.{
  peek_header, cut_packet, push_packet, bad_size, bytes_read, buffer_after, process_packets, Packet,
  waiting,
}
use mmorpg_server.Framing.RoundTrip.{AllPackets}
use mmorpg_server.Framing.Receive.{
  on_recv, process, started, receive_each, AllFit, receive_each-encode_all,
}

-- A move packet of two bytes and a packet of a header alone.
abbrev pub two_packets : List Packet
two_packets =
    record { header = record { size = 6; id = 3 }; payload = 8 ∷ 9 ∷ [] }
    ∷ record { header = record { size = 4; id = 5 }; payload = [] }
    ∷ []

pub two_packets-AllPackets : AllPackets two_packets
two_packets-AllPackets = (
  record { sized = refl; small = omega arith; id_fits = omega arith },
  (record { sized = refl; small = omega arith; id_fits = omega arith }, tt),
)

-- Their bytes, cut inside a header and inside a payload.
abbrev pub pieces : List (List ℕ)
pieces = (6 ∷ []) ∷ (0 ∷ 3 ∷ 0 ∷ 8 ∷ []) ∷ (9 ∷ 4 ∷ 0 ∷ 5 ∷ 0 ∷ []) ∷ []

abbrev pub start_ring : RingBuffer
start_ring = new_ring 15

pub start_ring-IsValid : IsValid start_ring
unfolding new_ring
start_ring-IsValid = record { storage = refl; read_in = omega arith; write_in = omega arith }

pub pieces_fit : AllFit pieces (started start_ring)
unfolding started new_ring receive_each on_recv process receive move_write_pos copy_to
    process_packets peek_header peek cut_packet buffer_after bytes_read bad_size push_packet clear
    read remove get_use_size get_free_size get_continuous_free_size get_continuous_used_size
    read_header
pieces_fit = (omega arith, omega arith, (omega arith, omega arith, (omega arith, omega arith, tt)))

receive_each-encode_all_example :
    ((receive_each pieces (started start_ring)).jobs ≡ two_packets)
    × (contents (receive_each pieces (started start_ring)).buffer ≡ [])
    × ((receive_each pieces (started start_ring)).outcome ≡ waiting)
unfolding get_use_size new_ring mmorpg_server.Protocol.header_bytes
receive_each-encode_all_example =
    receive_each-encode_all pieces two_packets start_ring-IsValid refl pieces_fit
      two_packets-AllPackets refl
