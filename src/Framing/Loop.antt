-- ===== src/Framing/Loop.antt =====
-- Session::ProcessPackets (MMO/Server/Network/Source/Session.cpp) on the ring buffer, against the
-- packets of the bytes that the buffer holds.
use mmorpg_server.Base.{
  ℕ, zero, suc, ◌-◌, ◌≤◌, ◌≡◌, refl, ap, ap₂, ◌∙◌, true, false, List, [], ◌∷◌, some, arith, ltb,
  Bool-cases, inl, inr, length, take, drop, drop-drop,
}
use mmorpg_server.Ring.{RingBuffer, get_use_size, peek, remove, clear}
use mmorpg_server.Ring.Contents.{
  IsValid, contents, length-contents, remove-contents, remove-IsValid, remove-use_size,
}
use mmorpg_server.Ring.Queue.{peek_lem, read-some}
use mmorpg_server.Protocol.{PacketHeader, header_size, read_header}
use mmorpg_server.Framing.{
  Packet, Processed, bad_size, peek_header, push_packet, cut_packet, process_packets,
}
use mmorpg_server.Framing.Stream.{Parsed, push_parsed, first_packet, parse_with}

read_header-take :
    (bytes : List ℕ) → 4 ≤ length bytes → read_header (take 4 bytes) ≡ read_header bytes
unfolding read_header
read_header-take [] le = absurd (omega arith)
read_header-take (a ∷ []) le = absurd (omega arith)
read_header-take (a ∷ b ∷ []) le = absurd (omega arith)
read_header-take (a ∷ b ∷ c ∷ []) le = absurd (omega arith)
read_header-take (a ∷ b ∷ c ∷ d ∷ bytes) le = refl

peek_header_lem :
    {r : RingBuffer}
    → IsValid r
    → header_size ≤ get_use_size r
    → peek_header r ≡ read_header (contents r)
unfolding peek_header
peek_header_lem {r} v le =
    let found : peek r true header_size ≡ some (take header_size (contents r)) =
      ground (arith, peek_lem true header_size v) in
    rw (found, peek_header) (read_header-take (contents r) (omega (arith, length-contents r)))

-- The buffer behind one packet.
abbrev after_packet : RingBuffer → ℕ → RingBuffer
after_packet r size = remove (remove r header_size) (size - header_size)

module _ {r : RingBuffer} (h : PacketHeader) (v : IsValid r) (min_size : header_size ≤ h.size)
    (held : h.size ≤ get_use_size r) where
  body-IsValid : IsValid (remove r header_size)
  body-IsValid = remove-IsValid header_size v (omega arith)

  body_held : h.size - header_size ≤ get_use_size (remove r header_size)
  body_held = omega (arith, remove-use_size header_size v (omega arith))

  cut_packet_lem : cut_packet r h ≡ (
    record { header = h; payload = take (h.size - header_size) (contents (remove r header_size)) },
    after_packet r h.size,
  )
  unfolding cut_packet
  cut_packet_lem =
      rw (read-some false header_size v (omega arith), cut_packet)
        (rw (read-some true (h.size - header_size) body-IsValid body_held, cut_packet) refl)

  cut_packet-first :
      h ≡ read_header (contents r)
      → cut_packet r h ≡ (first_packet (contents r), after_packet r h.size)
  cut_packet-first e =
      cut_packet_lem
      ∙ ap₂ {C = Packet × RingBuffer}
          (λ k bytes. (
            record { header = k; payload = take (k.size - header_size) bytes },
            after_packet r h.size,
          ))
          e (remove-contents header_size v (omega arith))

  contents-after_packet : contents (after_packet r h.size) ≡ drop h.size (contents r)
  contents-after_packet =
      remove-contents (h.size - header_size) body-IsValid body_held
      ∙ ap (drop (h.size - header_size)) (remove-contents header_size v (omega arith))
      ∙ drop-drop (h.size - header_size) header_size (contents r)
      ∙ ap (λ k. drop k (contents r)) (omega arith)

  after_packet-IsValid : IsValid (after_packet r h.size)
  after_packet-IsValid = remove-IsValid (h.size - header_size) body-IsValid body_held

  after_packet-use_size : get_use_size (after_packet r h.size) ≡ get_use_size r - h.size
  after_packet-use_size = omega (
    arith,
    remove-use_size header_size v (omega arith),
    remove-use_size (h.size - header_size) body-IsValid body_held,
  )

-- What the loop leaves, against the parse of the bytes.
pub record Agrees (p : Processed) (q : Parsed) : Type 0 where
  pub jobs : p.jobs ≡ q.packets
  pub rest : contents p.buffer ≡ q.rest
  pub outcome : p.outcome ≡ q.outcome
  pub valid : IsValid p.buffer

size_of_good : (size : ℕ) → bad_size size ≡ false → header_size ≤ size
unfolding bad_size
size_of_good size e = ground arith

pub clear-IsValid : {r : RingBuffer} → IsValid r → IsValid (clear r)
unfolding clear
clear-IsValid v = record { storage = v.storage; read_in = omega arith; write_in = omega arith }

clear_rest : (r : RingBuffer) → contents (clear r) ≡ []
unfolding clear get_use_size
clear_rest r = refl

module _ (fuel : ℕ) {r : RingBuffer} (v : IsValid r) (four : header_size ≤ get_use_size r)
    (ih : (r' : RingBuffer)
      → IsValid r'
      → Agrees (process_packets fuel r') (parse_with fuel (contents r'))) where
  cut_packet-Agrees :
      header_size ≤ (read_header (contents r)).size
      → (read_header (contents r)).size ≤ get_use_size r
      → let h = read_header (contents r) in
        Agrees
          (push_packet (cut_packet r h).0 (process_packets fuel (cut_packet r h).1))
          (push_parsed (first_packet (contents r)) (parse_with fuel (drop h.size (contents r))))
  unfolding push_packet
  cut_packet-Agrees min_size held =
      let h = read_header (contents r) in
      let next = ih (after_packet r h.size) (after_packet-IsValid h v min_size held) in
      rw (cut_packet-first h v min_size held refl, ← contents-after_packet h v min_size held)
        (record {
          jobs = ap (◌∷◌ (first_packet (contents r))) next.jobs;
          rest = next.rest;
          outcome = next.outcome;
          valid = next.valid;
        })

-- ProcessPackets pushes the packets of the bytes held, in order, leaves the bytes that wait for more,
-- and stops for the same reason; the buffer stays valid.
pub process_packets-Agrees :
    (fuel : ℕ) {r : RingBuffer}
    → IsValid r
    → Agrees (process_packets fuel r) (parse_with fuel (contents r))
unfolding process_packets parse_with
process_packets-Agrees zero {r} v = record { jobs = refl; rest = refl; outcome = refl; valid = v }
process_packets-Agrees (suc fuel) {r} v = elim (Bool-cases (ltb (get_use_size r) header_size)) [
  | inl short ↦
      rw (length-contents r, short) (record { jobs = refl; rest = refl; outcome = refl; valid = v })
  | inr some_header ↦
      let four : header_size ≤ get_use_size r = ground arith in
      let size = (read_header (contents r)).size in
      elim (Bool-cases (bad_size size)) [
        | inl bad ↦
            rw (length-contents r, some_header, peek_header_lem v four, bad)
              (record { jobs = refl; rest = clear_rest r; outcome = refl; valid = clear-IsValid v })
        | inr good ↦ elim (Bool-cases (ltb (get_use_size r) size)) [
          | inl partial ↦
              rw (length-contents r, some_header, peek_header_lem v four, good, partial)
                (record { jobs = refl; rest = refl; outcome = refl; valid = v })
          | inr whole ↦
              rw (length-contents r, some_header, peek_header_lem v four, good, whole)
                (cut_packet-Agrees fuel v four (λ r' v'. process_packets-Agrees fuel v')
                  (size_of_good size good) (ground arith))
        ]
      ]
]
