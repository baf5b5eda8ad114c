-- ===== src/Client/Parse.antt =====
-- A stream of packets at the client, however recv cuts it (ReceiveThread of MMO/Client/Main.cpp).
use mmorpg_server.Base.{
  ℕ, zero, suc, ◌≤◌, ◌<◌, ◌≡◌, refl, sym, ap, ◌∙◌, true, false, Option, some, List, [], ◌∷◌, ◌++◌,
  arith, ltb, Bool-cases, Option-cases, inl, inr, length, drop, append_assoc, length-append,
  drop-append_of_length,
}
use mmorpg_server.Protocol.{header_size, read_header}
use mmorpg_server.Framing.Chunks.{read_header-append}
use mmorpg_server.Platform.{Platform}
use mmorpg_server.Handler.{◌>>=◌}
use mmorpg_server.Client.{
  Client, Parsed, waits, reads_past, out_of_fuel, on_packet, parse_packets, go_on_waiting,
  receive_thread,
}
use mmorpg_server.Client.Append.{on_packet-append}

-- A packet whose header names its length.
abbrev pub IsWhole : List ℕ → Type 0
IsWhole p = (header_size ≤ length p) × ((read_header p).size ≡ length p)

abbrev pub AllWhole : List (List ℕ) → Type 0
AllWhole [] = Unit
AllWhole (p ∷ ps) = IsWhole p × AllWhole ps

abbrev pub join : List (List ℕ) → List ℕ
join [] = []
join (p ∷ ps) = p ++ join ps

-- The bytes are fewer than the first packet has.
abbrev IsShort : List ℕ → List (List ℕ) → Type 0
IsShort b [] = Unit
IsShort b (p ∷ ps) = length b < length p

tail_eq : (x : ℕ) {xs ys : List ℕ} (y : ℕ) → x ∷ xs ≡ y ∷ ys → xs ≡ ys
tail_eq x {xs} {ys} y e = ap (drop 1) e

head_eq : (x : ℕ) {xs ys : List ℕ} (y : ℕ) → x ∷ xs ≡ y ∷ ys → x ≡ y
head_eq x {xs} {ys} y e = ground (arith, e)

split_prefix :
    (p b more q : List ℕ)
    → length p ≤ length b
    → b ++ more ≡ p ++ q
    → (b' : List ℕ) × (b ≡ p ++ b') × (b' ++ more ≡ q)
split_prefix [] b more q le e = (b, refl, e)
split_prefix (x ∷ p) [] more q le e = absurd (omega (arith, le))
split_prefix (x ∷ p) (y ∷ b) more q le e =
    let (b', split, rest) = split_prefix p b more q (omega (arith, le)) (tail_eq y x e) in
    (b', rw (head_eq y x e, split) refl, rest)

no_bytes : (b more : List ℕ) → b ++ more ≡ [] → b ≡ []
no_bytes [] more e = refl
no_bytes (x ∷ b) more e = absurd (ground (arith, e))

module _ (P : Platform) where
  -- The packets handled one after another.
  abbrev pub run_packets : List (List ℕ) → Client P → Option (Client P)
  run_packets [] c = some c
  run_packets (p ∷ ps) c = on_packet P p c >>= run_packets ps

  -- A state from which the bytes to come lead to the final state.
  abbrev Leads : List ℕ → Client P → Parsed P → Type 0
  Leads more final (waits b c) =
      (rest : List (List ℕ)) × AllWhole rest
      × IsShort b rest
      × (b ++ more ≡ join rest)
      × (run_packets rest c ≡ some final)
  Leads more final reads_past = true ≡ false
  Leads more final out_of_fuel = true ≡ false

  size_known :
      (p b more q : List ℕ)
      → IsWhole p
      → b ++ more ≡ p ++ q
      → header_size ≤ length b
      → (read_header b).size ≡ length p
  size_known p b more q (long, sized) e le =
      ap (λ h. h.size)
        (sym (read_header-append b more le) ∙ ap read_header e ∙ read_header-append p q long)
      ∙ sized

  -- Too few bytes for the packet: the loop ends.
  parse_short :
      (fuel : ℕ) (p b more q : List ℕ) (c : Client P)
      → IsWhole p
      → b ++ more ≡ p ++ q
      → length b < length p
      → parse_packets P (suc fuel) b c ≡ waits b c
  unfolding parse_packets
  parse_short fuel p b more q c whole e lt = elim (Bool-cases (ltb (length b) header_size)) [
    | inl few ↦ rw few refl
    | inr enough ↦
        let size = size_known p b more q whole e (ground (arith, enough)) in
        let waiting : ltb (length b) (read_header b).size ≡ true = ground (arith, size, lt) in
        rw (enough, waiting) refl
  ]

  -- A whole packet is handled and erased.
  parse_whole :
      (fuel : ℕ) (p b : List ℕ) (c c' : Client P)
      → IsWhole p
      → on_packet P p c ≡ some c'
      → parse_packets P (suc fuel) (p ++ b) c ≡ parse_packets P fuel b c'
  unfolding parse_packets
  parse_whole fuel p b c c' (long, sized) e =
      let size : (read_header (p ++ b)).size ≡ length p =
        ap (λ h. h.size) (read_header-append p b long) ∙ sized in
      let enough : ltb (length (p ++ b)) header_size ≡ false =
        ground (arith, length-append p b, long) in
      let held : ltb (length (p ++ b)) (length p) ≡ false = ground (arith, length-append p b) in
      rw
        (
          size,
          enough,
          held,
          on_packet-append P p b c long c' e,
          drop-append_of_length (length p) p b refl,
        )
        refl

  parse_nothing :
      (fuel : ℕ) (b more : List ℕ) (c : Client P)
      → b ++ more ≡ []
      → parse_packets P (suc fuel) b c ≡ waits b c
  unfolding parse_packets
  parse_nothing fuel b more c e = rw (no_bytes b more e) refl

  -- The first packet of a run that succeeds is handled.
  first_handled :
      (p : List ℕ) (ps : List (List ℕ)) (c final : Client P)
      → run_packets (p ∷ ps) c ≡ some final
      → (c' : Client P) × (on_packet P p c ≡ some c') × (run_packets ps c' ≡ some final)
  first_handled p ps c final run = elim (Option-cases (on_packet P p c)) [
    | inl e ↦ absurd (ground (arith, e, run))
    | inr (c', e) ↦ (c', e, ap (λ o. o >>= run_packets ps) (sym e) ∙ run)
  ]

  parse-Leads :
      (fuel : ℕ) (ps : List (List ℕ)) (b more : List ℕ) (c final : Client P)
      → length b < fuel
      → AllWhole ps
      → b ++ more ≡ join ps
      → run_packets ps c ≡ some final
      → Leads more final (parse_packets P fuel b c)
  parse-Leads zero ps b more c final lt whole e run = absurd (omega (arith, lt))
  parse-Leads (suc fuel) [] b more c final lt whole e run =
      rw (parse_nothing fuel b more c e) ([], tt, tt, e, run)
  parse-Leads (suc fuel) (p ∷ ps) b more c final lt (here, whole) e run =
      elim (Bool-cases (ltb (length b) (length p))) [
        | inl few ↦
            let short : length b < length p = ground (arith, few) in
            rw (parse_short fuel p b more (join ps) c here e short)
              (p ∷ ps, (here, whole), short, e, run)
        | inr enough ↦
            let (b', split, behind) = split_prefix p b more (join ps) (ground (arith, enough)) e in
            let (c', handled, rest) = first_handled p ps c final run in
            let fewer : length b' < fuel =
              omega (arith, lt, here.0, ap length split, length-append p b') in
            rw (split, parse_whole fuel p b' c c' here handled)
              (parse-Leads fuel ps b' more c' final fewer whole behind rest)
      ]

  -- With no bytes to come, no packet is left.
  ends_there :
      (ps : List (List ℕ)) (b : List ℕ) (c final : Client P)
      → IsShort b ps
      → b ++ [] ≡ join ps
      → run_packets ps c ≡ some final
      → (b ≡ []) × (c ≡ final)
  ends_there [] b c final short e run = (no_bytes b [] e, ground (arith, run))
  ends_there (p ∷ ps) b c final short e run =
      absurd (omega (arith, short, ap length e, length-append b [], length-append p (join ps)))

  receive_leads :
      (chunks ps : List (List ℕ)) (b : List ℕ) (c final : Client P)
      → AllWhole ps
      → IsShort b ps
      → b ++ join chunks ≡ join ps
      → run_packets ps c ≡ some final
      → receive_thread P chunks b c ≡ waits [] final
  unfolding receive_thread
  receive_leads [] ps b c final whole short e run =
      let (no_rest, same) = ends_there ps b c final short e run in rw (no_rest, same) refl
  receive_leads (chunk ∷ chunks) ps b c final whole short e run =
      continue (parse_packets P (suc (length (b ++ chunk))) (b ++ chunk) c)
        (parse-Leads (suc (length (b ++ chunk))) ps (b ++ chunk) (join chunks) c final (omega arith)
          whole (append_assoc b chunk (join chunks) ∙ e) run)
        (λ rest b' c'. receive_leads chunks rest b' c' final)
    where
      continue :
          (o : Parsed P)
          → Leads (join chunks) final o
          → ((rest : List (List ℕ)) (b' : List ℕ) (c' : Client P)
              → AllWhole rest
              → IsShort b' rest
              → b' ++ join chunks ≡ join rest
              → run_packets rest c' ≡ some final
              → receive_thread P chunks b' c' ≡ waits [] final)
          → go_on_waiting P (receive_thread P chunks) o ≡ waits [] final
      continue (waits b' c') (rest, whole', short', e', run') next =
          next rest b' c' whole' short' e' run'
      continue reads_past h next = absurd (ground (arith, h))
      continue out_of_fuel h next = absurd (ground (arith, h))

  -- A stream of packets whose headers name their lengths, and on which no handler reads past its packet:
  -- however recv cuts the stream into parts, the receiving thread handles the packets one after another,
  -- each once, and no bytes are left.
  pub receive_thread-packets :
      (chunks ps : List (List ℕ)) (c final : Client P)
      → AllWhole ps
      → join chunks ≡ join ps
      → run_packets ps c ≡ some final
      → receive_thread P chunks [] c ≡ waits [] final
  receive_thread-packets chunks ps c final whole e run =
      receive_leads chunks ps [] c final whole (short_start ps whole) e run
    where
      short_start : (qs : List (List ℕ)) → AllWhole qs → IsShort [] qs
      short_start [] h = tt
      short_start (q ∷ qs) ((long, sized), h) = omega (arith, long)
