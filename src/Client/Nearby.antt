-- ===== src/Client/Nearby.antt =====
-- The client's list of players nearby, and the packet that never goes away (ReceiveThread of
-- MMO/Client/Main.cpp).
use mmorpg_server.Base.{
  ℕ, zero, suc, ◌≤◌, ◌≡◌, ◌≢◌, refl, sym, ap, ◌∙◌, subst, Bool, true, false, ◌||◌, Option, none,
  some, List, [], ◌∷◌, ◌++◌, arith, ltb, ◌==◌, if◌then◌else◌, Bool-cases, inl, inr, length, drop,
  append_assoc, append-nil,
}
use mmorpg_server.Protocol.{
  header_size, read_header, id_number, s_login, s_die, s_spawn, s_respawn, s_chat,
}
use mmorpg_server.Platform.{Platform}
use mmorpg_server.Handler.{read_word, c_string, ◌>>=◌}
use mmorpg_server.Client.{
  Client, has_id, success_byte, Parsed, waits, reads_past, out_of_fuel, log_in, on_login,
  place_self, add_nearby, on_spawn, on_die, on_chat, on_packet, go_on, parse_packets, go_on_waiting,
  receive_thread, send_bytes,
}

-- No id stands in the list twice.
abbrev pub IsUnique : List ℕ → Type 0
IsUnique [] = Unit
IsUnique (n ∷ ns) = (has_id n ns ≡ false) × IsUnique ns

has_id-append : (i : ℕ) (xs ys : List ℕ) → has_id i (xs ++ ys) ≡ (has_id i xs || has_id i ys)
unfolding has_id
has_id-append i [] ys = refl
has_id-append i (x ∷ xs) ys = ground (arith, has_id-append i xs ys)

append-IsUnique :
    (i : ℕ) (ns : List ℕ) → has_id i ns ≡ false → IsUnique ns → IsUnique (ns ++ (i ∷ []))
unfolding has_id
append-IsUnique i [] fresh h = (refl, tt)
append-IsUnique i (n ∷ ns) fresh (once, h) = (
  ground (arith, has_id-append n ns (i ∷ []), once, fresh),
  append-IsUnique i ns (ground (arith, fresh)) h,
)

-- What a packet may do to the list: put ids that it does not hold behind its own.
record Grows (before after : List ℕ) : Type 0 where
  added : List ℕ
  extended : after ≡ before ++ added
  unique : IsUnique before → IsUnique after

same_list : (ns : List ℕ) → Grows ns ns
same_list ns = record { added = []; extended = sym (append-nil ns); unique = λ h. h }

Grows-then : {a b c : List ℕ} → Grows a b → Grows b c → Grows a c
Grows-then {a} {b} {c} g h = record {
  added = g.added ++ h.added;
  extended = h.extended ∙ ap (λ ns. ns ++ h.added) g.extended ∙ append_assoc a g.added h.added;
  unique = λ u. h.unique (g.unique u);
}

module _ (P : Platform) where
  abbrev OnClient : List ℕ → Option (Client P) → Type 0
  OnClient ns none = Unit
  OnClient ns (some c) = Grows ns c.nearby_players

  on_bind :
      {A : Type 0} (ns : List ℕ) (o : Option A) (f : A → Option (Client P))
      → ((x : A) → OnClient ns (f x))
      → OnClient ns (o >>= f)
  on_bind ns none f h = tt
  on_bind ns (some x) f h = h x

  on_if :
      (ns : List ℕ) (t : Bool) (a b : Option (Client P))
      → OnClient ns a
      → OnClient ns b
      → OnClient ns (if t then a else b)
  on_if ns true a b h k = h
  on_if ns false a b h k = k

  add_nearby-Grows :
      (i : ℕ) (c : Client P) → Grows c.nearby_players (add_nearby P i c).nearby_players
  unfolding add_nearby
  add_nearby-Grows i c = elim (Bool-cases (has_id i c.nearby_players)) [
    | inl there ↦ rw there (same_list c.nearby_players)
    | inr fresh ↦ rw fresh record {
      added = i ∷ [];
      extended = refl;
      unique = λ u. append-IsUnique i c.nearby_players fresh u;
    }
  ]

  log_in-Grows :
      (done : Bool) (b : List ℕ) (c : Client P) → OnClient c.nearby_players (log_in P done b c)
  unfolding log_in send_bytes
  log_in-Grows false b c = same_list c.nearby_players
  log_in-Grows true b c =
      on_bind c.nearby_players (read_word b 41) _ (λ id. same_list c.nearby_players)

  on_spawn-Grows : (b : List ℕ) (c : Client P) → OnClient c.nearby_players (on_spawn P b c)
  unfolding on_spawn place_self
  on_spawn-Grows b c = on_bind c.nearby_players (read_word b 4) _ (λ id.
      on_if c.nearby_players (id == c.my_player_id) _ _
        (on_bind c.nearby_players (read_word b 8) _
          (λ x. on_bind c.nearby_players (read_word b 12) _ (λ y. same_list c.nearby_players)))
        (add_nearby-Grows id c))

  on_packet-Grows : (b : List ℕ) (c : Client P) → OnClient c.nearby_players (on_packet P b c)
  unfolding on_packet on_login on_die on_chat
  on_packet-Grows b c =
      let ns = c.nearby_players in
      let id = (read_header b).id in
      let stays = same_list ns in
      on_if ns (id == id_number s_login) _ _
        (on_bind ns (success_byte b) _ (λ done. log_in-Grows done b c))
        (on_if ns (id == id_number s_die) _ _ (on_bind ns (read_word b 4) _ (λ i. stays)) (
          on_if ns (id == id_number s_spawn) _ _ (on_spawn-Grows b c) (
            on_if ns (id == id_number s_respawn) _ _ (on_spawn-Grows b c) (
              on_if ns (id == id_number s_chat) _ _
                (on_bind ns (read_word b 4) _
                  (λ i. on_bind ns (c_string (drop 8 b)) _ (λ text. stays)))
                stays))))

  abbrev OnParsed : List ℕ → Parsed P → Type 0
  OnParsed ns (waits b c) = Grows ns c.nearby_players
  OnParsed ns reads_past = Unit
  OnParsed ns out_of_fuel = Unit

  parsed_then : {ms ns : List ℕ} (o : Parsed P) → Grows ms ns → OnParsed ns o → OnParsed ms o
  parsed_then (waits b c) g h = Grows-then g h
  parsed_then reads_past g h = tt
  parsed_then out_of_fuel g h = tt

  OnParsed-if :
      (t : Bool) (ns : List ℕ) (a b : Parsed P)
      → OnParsed ns a
      → OnParsed ns b
      → OnParsed ns (if t then a else b)
  OnParsed-if true ns a b h k = h
  OnParsed-if false ns a b h k = k

  parse_packets-Grows :
      (fuel : ℕ) (b : List ℕ) (c : Client P) → OnParsed c.nearby_players (parse_packets P fuel b c)
  unfolding parse_packets
  parse_packets-Grows zero b c = tt
  parse_packets-Grows (suc fuel) b c =
      OnParsed-if (ltb (length b) header_size) _ _ _ (same_list c.nearby_players) (
        OnParsed-if (ltb (length b) (read_header b).size) _ _ _ (same_list c.nearby_players) (
          next_grows (on_packet P b c) (on_packet-Grows b c)
            (λ c'. parse_packets-Grows fuel (drop (read_header b).size b) c')))
    where
      next_grows :
          (o : Option (Client P))
          → OnClient c.nearby_players o
          → ((c' : Client P)
              → OnParsed c'.nearby_players (parse_packets P fuel (drop (read_header b).size b) c'))
          → OnParsed c.nearby_players
              (go_on P (parse_packets P fuel (drop (read_header b).size b)) o)
      next_grows none g h = tt
      next_grows (some c') g h =
          parsed_then (parse_packets P fuel (drop (read_header b).size b) c') g (h c')

  receive_thread-Grows :
      (chunks : List (List ℕ)) (b : List ℕ) (c : Client P)
      → OnParsed c.nearby_players (receive_thread P chunks b c)
  unfolding receive_thread
  receive_thread-Grows [] b c = same_list c.nearby_players
  receive_thread-Grows (chunk ∷ chunks) b c =
      next_grows (parse_packets P (suc (length (b ++ chunk))) (b ++ chunk) c)
        (parse_packets-Grows (suc (length (b ++ chunk))) (b ++ chunk) c)
        (λ b' c'. receive_thread-Grows chunks b' c')
    where
      next_grows :
          (o : Parsed P)
          → OnParsed c.nearby_players o
          → ((b' : List ℕ) (c' : Client P)
              → OnParsed c'.nearby_players (receive_thread P chunks b' c'))
          → OnParsed c.nearby_players (go_on_waiting P (receive_thread P chunks) o)
      next_grows (waits b' c') g h = parsed_then (receive_thread P chunks b' c') g (h b' c')
      next_grows reads_past g h = tt
      next_grows out_of_fuel g h = tt

  -- Whatever bytes the client receives: the list of players nearby keeps what it holds, in its order, and
  -- what is added is added behind it and once. No packet takes a player off the list.
  pub receive_thread_nearby :
      (chunks : List (List ℕ)) (buffer rest : List ℕ) (c c' : Client P)
      → IsUnique c.nearby_players
      → receive_thread P chunks buffer c ≡ waits rest c'
      → IsUnique c'.nearby_players
        × ((added : List ℕ) × (c'.nearby_players ≡ c.nearby_players ++ added))
  receive_thread_nearby chunks buffer rest c c' unique e =
      let g : Grows c.nearby_players c'.nearby_players =
        subst (OnParsed c.nearby_players) e (receive_thread-Grows chunks buffer c) in
      (g.unique unique, (g.added, g.extended))

  parse_size_zero :
      (fuel : ℕ) (buffer : List ℕ) (c : Client P)
      → header_size ≤ length buffer
      → (read_header buffer).size ≡ 0
      → parse_packets P (suc fuel) buffer c
        ≡ go_on P (parse_packets P fuel buffer) (on_packet P buffer c)
  unfolding parse_packets
  parse_size_zero fuel buffer c le e =
      let enough : ltb (length buffer) header_size ≡ false = ground (arith, le) in
      let held : ltb (length buffer) 0 ≡ false = ground arith in rw (enough, e, held) refl

  -- The loop does not come to an end on a packet of size 0, since such a packet is never erased: no
  -- number of rounds leads to the next recv.
  pub size_zero_never_waits :
      (fuel : ℕ) (buffer rest : List ℕ) (c c' : Client P)
      → header_size ≤ length buffer
      → (read_header buffer).size ≡ 0
      → parse_packets P fuel buffer c ≢ waits rest c'
  unfolding parse_packets
  size_zero_never_waits zero buffer rest c c' le e f = absurd (ground (arith, f))
  size_zero_never_waits (suc fuel) buffer rest c c' le e f =
      never (on_packet P buffer c) (λ c''. size_zero_never_waits fuel buffer rest c'' c' le e)
        (sym (parse_size_zero fuel buffer c le e) ∙ f)
    where
      never :
          (o : Option (Client P))
          → ((c'' : Client P) → parse_packets P fuel buffer c'' ≢ waits rest c')
          → go_on P (parse_packets P fuel buffer) o ≢ waits rest c'
      never none h g = absurd (ground (arith, g))
      never (some c'') h g = h c'' g
