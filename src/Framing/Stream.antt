-- ===== src/Framing/Stream.antt =====
-- The packets of a byte stream, with no buffer: what ProcessPackets
-- (MMO/Server/Network/Source/Session.cpp) is to compute.
use mmorpg_server.Base.{
  ℕ, zero, suc, ◌-◌, ◌<◌, ◌≡◌, true, false, List, [], ◌∷◌, arith, ltb, if◌then◌else◌, length, take,
  drop, length-drop,
}
use mmorpg_server.Protocol.{header_size, read_header}
use mmorpg_server.Framing.{Packet, Outcome, waiting, cleared, out_of_fuel, bad_size}

-- The packets, and the bytes that wait for more (none after a malformed header).
pub record Parsed : Type 0 where
  pub packets : List Packet
  pub rest : List ℕ
  pub outcome : Outcome

abbrev pub push_parsed : Packet → Parsed → Parsed
push_parsed p done = record done { packets = p ∷ done.packets }

abbrev pub first_packet : List ℕ → Packet
first_packet bytes = record {
  header = read_header bytes;
  payload = take ((read_header bytes).size - header_size) (drop header_size bytes);
}

unfoldable pub parse_with : ℕ → List ℕ → Parsed
parse_with zero bytes = record { packets = []; rest = bytes; outcome = out_of_fuel }
parse_with (suc fuel) bytes =
    let size = (read_header bytes).size in
    let next = push_parsed (first_packet bytes) (parse_with fuel (drop size bytes)) in
    if ltb (length bytes) header_size
    then record { packets = []; rest = bytes; outcome = waiting }
    else if bad_size size
    then record { packets = []; rest = []; outcome = cleared }
    else if ltb (length bytes) size
    then record { packets = []; rest = bytes; outcome = waiting }
    else next

unfoldable pub parse : List ℕ → Parsed
parse bytes = parse_with (suc (length bytes)) bytes

-- More fuel than bytes makes no difference.
pub parse_with-fuel :
    (f g : ℕ) (bytes : List ℕ)
    → length bytes < f
    → length bytes < g
    → parse_with f bytes ≡ parse_with g bytes
unfolding parse_with bad_size
parse_with-fuel zero g bytes lf lg = absurd (omega arith)
parse_with-fuel (suc f) zero bytes lf lg = absurd (omega arith)
parse_with-fuel (suc f) (suc g) bytes lf lg = ground (
  arith,
  length-drop (read_header bytes).size bytes,
  parse_with-fuel f g (drop (read_header bytes).size bytes),
)

-- So `parse` never runs out of fuel.
pub parse-ne-out_of_fuel :
    (f : ℕ) (bytes : List ℕ) → length bytes < f → (parse_with f bytes).outcome ≡ out_of_fuel → ⊥
unfolding parse_with bad_size
parse-ne-out_of_fuel zero bytes lf e = absurd (omega arith)
parse-ne-out_of_fuel (suc f) bytes lf e = ground (
  arith,
  length-drop (read_header bytes).size bytes,
  parse-ne-out_of_fuel f (drop (read_header bytes).size bytes),
)

-- The four ways of one round.
module _ (f : ℕ) (bytes : List ℕ) where
  pub parse-short :
      ltb (length bytes) header_size ≡ true
      → parse_with (suc f) bytes ≡ record { packets = []; rest = bytes; outcome = waiting }
  unfolding parse_with
  parse-short short = rw short

  module _ (four : ltb (length bytes) header_size ≡ false) where
    pub parse-bad :
        bad_size (read_header bytes).size ≡ true
        → parse_with (suc f) bytes ≡ record { packets = []; rest = []; outcome = cleared }
    unfolding parse_with
    parse-bad bad = rw (four, bad)

    pub parse-partial :
        bad_size (read_header bytes).size ≡ false
        → ltb (length bytes) (read_header bytes).size ≡ true
        → parse_with (suc f) bytes ≡ record { packets = []; rest = bytes; outcome = waiting }
    unfolding parse_with
    parse-partial good partial = rw (four, good, partial)

    pub parse-whole :
        bad_size (read_header bytes).size ≡ false
        → ltb (length bytes) (read_header bytes).size ≡ false
        → parse_with (suc f) bytes
          ≡ push_parsed (first_packet bytes) (parse_with f (drop (read_header bytes).size bytes))
    unfolding parse_with
    parse-whole good whole = rw (four, good, whole)
