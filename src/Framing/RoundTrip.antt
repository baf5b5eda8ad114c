-- ===== src/Framing/RoundTrip.antt =====
-- Packets sent one after the other, and the parse of their bytes (MMO/Server/Core/Protocol.h).
use mmorpg_server.Base.{
  ℕ, suc, ◌+◌, ◌-◌, ◌≤◌, ◌<◌, ◌≡◌, refl, ap, ap₂, ◌∙◌, false, List, [], ◌∷◌, ◌++◌, arith, length,
  take, drop, length-append, append_assoc, take-append_of_length, drop-append_of_length,
}
use mmorpg_server.Protocol.{PacketHeader, header_size, read_header, header_bytes}
use mmorpg_server.Framing.{Packet, max_packet_size, bad_size}
use mmorpg_server.Framing.Stream.{
  push_parsed, first_packet, parse_with, parse, parse_with-fuel, parse-whole,
}
use mmorpg_server.Framing.Chunks.{prepend}

-- Packets written one after the other are cut out again, each with its header and payload.
abbrev pub encode : Packet → List ℕ
encode p = header_bytes p.header ++ p.payload

abbrev pub encode_all : List Packet → List ℕ
encode_all [] = []
encode_all (p ∷ ps) = encode p ++ encode_all ps

-- The header gives the packet's size, which a receiver admits; the id is 16 bits wide.
pub record IsPacket (p : Packet) : Type 0 where
  pub sized : p.header.size ≡ header_size + length p.payload
  pub small : p.header.size ≤ max_packet_size
  pub id_fits : p.header.id < 65536

abbrev pub AllPackets : List Packet → Type 0
AllPackets [] = Unit {0}
AllPackets (p ∷ ps) = IsPacket p × AllPackets ps

pub header_bytes_lem :
    (h : PacketHeader)
    → h.size < 65536
    → h.id < 65536
    → (rest : List ℕ) → read_header (header_bytes h ++ rest) ≡ h
unfolding read_header header_bytes
header_bytes_lem h s i rest =
    ap₂ (λ (a b : ℕ). record { size = a; id = b }) (omega arith) (omega arith)

pub length-header_bytes : (h : PacketHeader) → length (header_bytes h) ≡ header_size
unfolding header_bytes
length-header_bytes h = refl

module _ (p : Packet) (w : IsPacket p) (rest : List ℕ) where
  stream : List ℕ
  stream = encode p ++ rest

  stream_split : stream ≡ header_bytes p.header ++ (p.payload ++ rest)
  unfolding stream
  stream_split = append_assoc (header_bytes p.header) p.payload rest

  stream_header : read_header stream ≡ p.header
  stream_header =
      ap read_header stream_split
      ∙ header_bytes_lem p.header (omega (arith, w)) w.id_fits (p.payload ++ rest)

  length-stream : length stream ≡ p.header.size + length rest
  length-stream =
      ap length stream_split
      ∙ omega (
        arith,
        w,
        length-append (header_bytes p.header) (p.payload ++ rest),
        length-append p.payload rest,
        length-header_bytes p.header,
      )

  stream_payload : drop header_size stream ≡ p.payload ++ rest
  stream_payload =
      ap (drop header_size) stream_split
      ∙ drop-append_of_length header_size (header_bytes p.header) (p.payload ++ rest)
          (length-header_bytes p.header)

  stream_rest : drop p.header.size stream ≡ rest
  unfolding stream
  stream_rest = drop-append_of_length p.header.size (encode p) rest (
      omega
        (arith, w, length-append (header_bytes p.header) p.payload, length-header_bytes p.header))

  stream_first : first_packet stream ≡ p
  stream_first =
      ap₂
        (λ (h : PacketHeader) (bytes : List ℕ). record {
          header = h;
          payload = take (h.size - header_size) bytes;
        })
        stream_header stream_payload
      ∙ ap (λ (bytes : List ℕ). record { header = p.header; payload = bytes })
          (take-append_of_length (p.header.size - header_size) p.payload rest (omega (arith, w)))

  size_is_good : bad_size p.header.size ≡ false
  unfolding bad_size
  size_is_good = ground (arith, w)

  parse_with-encode :
      (f : ℕ) → parse_with (suc f) (encode p ++ rest) ≡ push_parsed p (parse_with f rest)
  unfolding stream
  parse_with-encode f =
      parse-whole f stream (ground (arith, length-stream, w)) (rw stream_header size_is_good)
        (rw stream_header (ground (arith, length-stream)))
      ∙ ap₂ (λ q bytes. push_parsed q (parse_with f bytes)) stream_first
          (ap (λ h. drop h.size stream) stream_header ∙ stream_rest)

encode-longer :
    (p : Packet) → IsPacket p → (rest : List ℕ) → length rest < length (encode p ++ rest)
unfolding stream
encode-longer p w rest = omega (arith, w, length-stream p w rest)

-- Packets sent one after the other come out of the stream in order, each with its header and
-- payload, before whatever is parsed from the bytes behind them.
pub parse-encode_all :
    (ps : List Packet) (rest : List ℕ)
    → AllPackets ps
    → parse (encode_all ps ++ rest) ≡ prepend ps (parse rest)
unfolding parse
parse-encode_all [] rest w = refl
parse-encode_all (p ∷ ps) rest w =
    ap parse (append_assoc (encode p) (encode_all ps) rest)
    ∙ parse_with-encode p w.0 more (length (encode p ++ more))
    ∙ ap (push_parsed p) (
        parse_with-fuel (length (encode p ++ more)) (suc (length more)) more longer (omega arith)
        ∙ parse-encode_all ps rest w.1)
  where
    more : List ℕ
    more = encode_all ps ++ rest

    longer : length more < length (encode p ++ more)
    longer = omega (arith, encode-longer p w.0 more)
