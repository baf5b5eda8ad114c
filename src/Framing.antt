-- ===== src/Framing.antt =====
-- Session::ProcessPackets (MMO/Server/Network/Source/Session.cpp): cutting the received bytes into
-- packets.
pub mod Stream
pub mod Loop
pub mod Chunks
pub mod RoundTrip
pub mod Receive
use mmorpg_server.Base.{
  ℕ, zero, suc, ◌-◌, Bool, true, false, Option, none, some, List, [], ◌∷◌, ◌||◌, ltb, if◌then◌else◌,
  replicate,
}
use mmorpg_server.Ring.{RingBuffer, get_use_size, peek, read, clear}
use mmorpg_server.Protocol.{PacketHeader, header_size, read_header}

-- What ProcessPackets pushes for a packet (struct Job of MMO/Server/Core/LogicManager.h, without the
-- session, which is the caller).
pub record Packet : Type 0 where
  pub header : PacketHeader
  pub payload : List ℕ

-- Why the loop stopped: it waits for bytes, or it met a header of an impossible size and called
-- Session::Clear, or the model's fuel ran out.
pub data Outcome : Type 0 where
  waiting cleared out_of_fuel : Outcome

pub record Processed : Type 0 where
  pub buffer : RingBuffer
  pub jobs : List Packet
  pub outcome : Outcome

abbrev pub max_packet_size : ℕ
max_packet_size = 4096

-- The validity check of the header's size.
unfoldable pub bad_size : ℕ → Bool
bad_size size = ltb max_packet_size size || ltb size header_size

-- The buffer after a read whose result the code ignores.
unfoldable pub buffer_after : RingBuffer → Option (List ℕ × RingBuffer) → RingBuffer
buffer_after r none = r
buffer_after r (some (out, r')) = r'

-- `job.data`, resized to `n` zeros before the read.
unfoldable pub bytes_read : ℕ → Option (List ℕ × RingBuffer) → List ℕ
bytes_read n none = replicate n 0
bytes_read n (some (out, r)) = out

-- The header that the loop peeks at; Peek's result is ignored.
unfoldable pub peek_header : RingBuffer → PacketHeader
unfolding peek
peek_header r = elim (peek r true header_size) [
  | none ↦ record { size = 0; id = 0 }
  | some bytes ↦ read_header bytes
]

unfoldable pub push_packet : Packet → Processed → Processed
push_packet p done = record done { jobs = p ∷ done.jobs }

-- The two reads of one packet: the header to a null pointer, then the payload.
unfoldable pub cut_packet : RingBuffer → PacketHeader → Packet × RingBuffer
unfolding buffer_after bytes_read
cut_packet r h =
    let body = buffer_after r (read r false header_size) in
    let data_read = read body true (h.size - header_size) in
    (
      record { header = h; payload = bytes_read (h.size - header_size) data_read },
      buffer_after body data_read,
    )

-- `while (1)` on fuel.
unfoldable pub process_packets : ℕ → RingBuffer → Processed
process_packets zero r = record { buffer = r; jobs = []; outcome = out_of_fuel }
process_packets (suc fuel) r =
    let h = peek_header r in
    let (packet, rest) = cut_packet r h in
    let next = push_packet packet (process_packets fuel rest) in
    if ltb (get_use_size r) header_size
    then record { buffer = r; jobs = []; outcome = waiting }
    else if bad_size h.size
    then record { buffer = clear r; jobs = []; outcome = cleared }
    else if ltb (get_use_size r) h.size
    then record { buffer = r; jobs = []; outcome = waiting }
    else next
