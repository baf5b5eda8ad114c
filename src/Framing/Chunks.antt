-- ===== src/Framing/Chunks.antt =====
-- The parse of a stream that arrives in parts (MMO/Server/Network/Source/Session.cpp).
use mmorpg_server.Base.{
  ℕ, zero, suc, ◌+◌, ◌-◌, ◌≤◌, ◌<◌, ◌≡◌, refl, ap, ap₂, ◌∙◌, false, List, [], ◌∷◌, ◌++◌, arith, ltb,
  Bool-cases, inl, inr, length, take, drop, length-append, length-drop, drop-append_le,
  take-append_le,
}
use mmorpg_server.Protocol.{PacketHeader, header_size, read_header}
use mmorpg_server.Framing.{Packet, Outcome, waiting, cleared, out_of_fuel, bad_size}
use mmorpg_server.Framing.Stream.{
  Parsed, push_parsed, first_packet, parse_with, parse, parse_with-fuel, parse-short, parse-bad,
  parse-partial, parse-whole,
}

abbrev pub prepend : List Packet → Parsed → Parsed
prepend ps p = record p { packets = ps ++ p.packets }

-- What more bytes add to a parse: nothing after a malformed header.
abbrev pub go_on : ℕ → Outcome → Parsed → List ℕ → Parsed
go_on k waiting p more = prepend p.packets (parse_with k (p.rest ++ more))
go_on k cleared p more = p
go_on k out_of_fuel p more = p

abbrev pub extend : ℕ → Parsed → List ℕ → Parsed
extend k p more = go_on k p.outcome p more

pub read_header-append :
    (a b : List ℕ) → header_size ≤ length a → read_header (a ++ b) ≡ read_header a
unfolding read_header
read_header-append [] b le = absurd (omega arith)
read_header-append (w ∷ []) b le = absurd (omega arith)
read_header-append (w ∷ x ∷ []) b le = absurd (omega arith)
read_header-append (w ∷ x ∷ y ∷ []) b le = absurd (omega arith)
read_header-append (w ∷ x ∷ y ∷ z ∷ a) b le = refl

first_packet-append :
    (a b : List ℕ)
    → header_size ≤ length a
    → (read_header a).size ≤ length a
    → first_packet (a ++ b) ≡ first_packet a
first_packet-append a b le held =
    ap₂ (λ (h : PacketHeader) (p : List ℕ). record { header = h; payload = p })
      (read_header-append a b le)
      (ap₂ (λ (h : PacketHeader) (bytes : List ℕ). take (h.size - header_size) bytes)
          (read_header-append a b le) (drop-append_le header_size a b le)
        ∙ take-append_le ((read_header a).size - header_size) (drop header_size a) b
            (omega (arith, length-drop header_size a)))

push-go_on :
    (k : ℕ) (o : Outcome) (x : Packet) (p : Parsed) (more : List ℕ)
    → push_parsed x (go_on k o p more) ≡ go_on k o (push_parsed x p) more
push-go_on k waiting x p more = refl
push-go_on k cleared x p more = refl
push-go_on k out_of_fuel x p more = refl

not_short : (a b : List ℕ) (n : ℕ) → ltb (length a) n ≡ false → ltb (length (a ++ b)) n ≡ false
not_short a b n e = ground (arith, length-append a b)

-- The bytes at hand start with a whole packet, and so does what they are part of.
whole-append :
    (f : ℕ) (a b : List ℕ)
    → ltb (length a) header_size ≡ false
    → bad_size (read_header a).size ≡ false
    → ltb (length a) (read_header a).size ≡ false
    → parse_with (suc f) (a ++ b)
      ≡ push_parsed (first_packet a) (parse_with f (drop (read_header a).size a ++ b))
whole-append f a b four good whole =
    let same = read_header-append a b (ground arith) in
    parse-whole f (a ++ b) (not_short a b header_size four) (rw same good)
      (rw same (not_short a b _ whole))
    ∙ ap₂ (λ p bytes. push_parsed p (parse_with f bytes))
        (first_packet-append a b (ground arith) (ground arith))
        (ap (λ h. drop h.size (a ++ b)) same
          ∙ drop-append_le (read_header a).size a b (ground arith))

-- A whole packet takes bytes off.
shorter :
    (a : List ℕ) (size : ℕ)
    → bad_size size ≡ false
    → ltb (length a) size ≡ false
    → length (drop size a) < length a
unfolding bad_size
shorter a size good whole = ground (arith, length-drop size a)

parse_with-append :
    (f g k : ℕ) (a b : List ℕ)
    → length a + length b < f
    → length a < g
    → length a + length b < k
    → parse_with f (a ++ b) ≡ extend k (parse_with g a) b
parse_with-append zero g k a b lf lg lk = absurd (omega arith)
parse_with-append (suc f) zero k a b lf lg lk = absurd (omega arith)
parse_with-append (suc f) (suc g) k a b lf lg lk = elim (Bool-cases (ltb (length a) header_size)) [
  | inl short ↦ rw (parse-short g a short) same
  | inr four ↦ elim (Bool-cases (bad_size (read_header a).size)) [
    | inl bad ↦ rw (parse-bad g a four bad) (
        parse-bad f (a ++ b) (not_short a b header_size four)
          (rw (read_header-append a b (ground arith)) bad))
    | inr good ↦ elim (Bool-cases (ltb (length a) (read_header a).size)) [
      | inl partial ↦ rw (parse-partial g a four good partial) same
      | inr whole ↦
          rw (parse-whole g a four good whole, whole-append f a b four good whole)
            (ap (push_parsed (first_packet a)) (
                parse_with-append f g k (drop (read_header a).size a) b
                  (omega (arith, shorter a (read_header a).size good whole))
                  (omega (arith, shorter a (read_header a).size good whole))
                  (omega (arith, shorter a (read_header a).size good whole)))
              ∙ push-go_on k _ (first_packet a) _ b)
    ]
  ]
]
  where
    same : parse_with (suc f) (a ++ b) ≡ parse_with k (a ++ b)
    same =
        parse_with-fuel (suc f) k (a ++ b) (omega (arith, length-append a b))
          (omega (arith, length-append a b))

pub parse-append : (a b : List ℕ) → parse (a ++ b) ≡ extend (suc (length (a ++ b))) (parse a) b
unfolding parse
parse-append a b =
    parse_with-append (suc (length (a ++ b))) (suc (length a)) (suc (length (a ++ b))) a b
      (omega (arith, length-append a b)) (omega arith) (omega (arith, length-append a b))
