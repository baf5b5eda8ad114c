-- ===== src/Client/Stream.antt =====
-- The client's stream of bytes (MMO/Client/Main.cpp), as the server's session cuts it (OnRecv and
-- ProcessPackets of MMO/Server/Network/Source/Session.cpp).
use mmorpg_server.Base.{
  ltb, Bool-cases, ℕ, ◌≡◌, refl, sym, ap, ap₂, subst, ◌∙◌, Bool, true, false, Option, none, some,
  List, [], ◌∷◌, ◌++◌, ◌==◌, if◌then◌else◌, length, map, arith, inl, inr,
}
use mmorpg_server.Protocol.{
  s_login, c_enter_game, header_size, id_number, header_bytes, read_header, PacketId, to_header,
}
use mmorpg_server.Platform.{Platform}
use mmorpg_server.Handler.{read_word, ◌>>=◌}
use mmorpg_server.Ring.{RingBuffer}
use mmorpg_server.Ring.Contents.{IsValid, contents}
use mmorpg_server.Framing.{Packet, waiting}
use mmorpg_server.Framing.RoundTrip.{encode, encode_all, AllPackets}
use mmorpg_server.Framing.Receive.{AllFit, concat, receive_each, started, receive_each-encode_all}
use mmorpg_server.Wire.Layout.{struct_small}
use mmorpg_server.Client.{Client, Floats, success_byte, on_packet, login_packet}
use mmorpg_server.Client.Play.{
  MainPhase, logging_in, moving, attacking, RecvPhase, at_recv, parsing, entering, Play, PlayEvent,
  gets, parses, types, goes_on, closes, new_client, start_play, play_recv, erase_packet, take_login,
  take_packet, parse_step, main_step, play_event, play_step, play_run,
}
use mmorpg_server.Client.Sent.{
  login_packet-IsSent, enter-IsSent, is_request, AllSent, send_bytes-AllSent,
}
use mmorpg_server.Client.Fair.{
  OnClient, on_packet-AllSent, input_line-AllSent, attack_step-AllSent, console_handler-AllSent,
  move_step-AllSent,
}

-- The array of a chat packet has 128 bytes.
abbrev pub AllTyped : List PlayEvent → Type 0
AllTyped [] = Unit
AllTyped (types stack line ∷ es) = (length stack ≡ 128) × AllTyped es
AllTyped (_ ∷ es) = AllTyped es

abbrev pub IsTyped : PlayEvent → Type 0
IsTyped (types stack line) = length stack ≡ 128
IsTyped _ = Unit

IsTyped-one : (e : PlayEvent) (es : List PlayEvent) → AllTyped (e ∷ es) → IsTyped e × AllTyped es
IsTyped-one (gets chunk) es h = (tt, h)
IsTyped-one parses es h = (tt, h)
IsTyped-one (types stack line) es h = h
IsTyped-one (goes_on r0 r1 r2) es h = (tt, h)
IsTyped-one closes es h = (tt, h)

-- Packets with the header of a structure that a client sends.
abbrev pub AllRequests : List Packet → Type 0
AllRequests [] = Unit
AllRequests (p ∷ ps) =
    ((id : PacketId) × (is_request id ≡ true) × (p.header ≡ to_header id)) × AllRequests ps

-- The packets of what was sent.
packets_of :
    (bs : List (List ℕ))
    → AllSent bs
    → (ps : List Packet) × AllPackets ps
      × AllRequests ps
      × (map encode ps ≡ bs)
      × (encode_all ps ≡ concat bs)
unfolding to_header
packets_of [] h = ([], tt, tt, refl, refl)
packets_of (b ∷ bs) (h, hs) =
    let (ps, packets, requests, each, all) = packets_of bs hs in
    let p : Packet = record { header = to_header h.id; payload = h.payload } in
    let (size, id) = struct_small h.id in
    (
      p ∷ ps,
      (
        record { sized = sym h.sized; small = omega (arith, size); id_fits = omega (arith, id) },
        packets,
      ),
      ((h.id, h.request, refl), requests),
      ap₂ (λ x xs. x ∷ xs) h.laid_out each,
      ap₂ (λ x xs. x ++ xs) h.laid_out all,
    )

module _ (P : Platform) where
  abbrev AfterEvent : Option (Play P) → Type 0
  AfterEvent none = Unit
  AfterEvent (some s) = AllSent s.client.sent

  start_play-AllSent :
      (input_id input_pw : List ℕ) → AllSent (start_play P input_id input_pw).client.sent
  unfolding start_play new_client
  start_play-AllSent input_id input_pw =
      send_bytes-AllSent P (login_packet P input_id input_pw) (new_client P)
        (login_packet-IsSent P input_id input_pw) tt

  after_bind :
      {A : Type 0} (o : Option A) (f : A → Option (Play P))
      → ((x : A) → AfterEvent (f x))
      → AfterEvent (o >>= f)
  after_bind none f h = tt
  after_bind (some x) f h = h x

  after_if :
      (t : Bool) (a b : Option (Play P))
      → AfterEvent a
      → AfterEvent b
      → AfterEvent (if t then a else b)
  after_if true a b h k = h
  after_if false a b h k = k

  take_login-AllSent :
      (success : Bool) (s : Play P) → AllSent s.client.sent → AfterEvent (take_login P success s)
  unfolding take_login erase_packet
  take_login-AllSent false s h = h
  take_login-AllSent true s h = after_bind (read_word s.buffer 41) _ (λ id. h)

  taken :
      (o : Option (Client P)) (s : Play P)
      → OnClient P o
      → AfterEvent (o >>= (λ c. some (erase_packet P c s)))
  unfolding erase_packet
  taken none s k = tt
  taken (some c) s k = k

  take_packet-AllSent : (s : Play P) → AllSent s.client.sent → AfterEvent (take_packet P s)
  unfolding take_packet
  take_packet-AllSent s h =
      after_if ((read_header s.buffer).id == id_number s_login) _ _
        (after_bind (success_byte s.buffer) _ (λ success. take_login-AllSent success s h))
        (taken (on_packet P s.buffer s.client) s (on_packet-AllSent P s.buffer s.client h))

  parse_step-AllSent :
      (recv : RecvPhase) (s : Play P) → AllSent s.client.sent → AfterEvent (parse_step P recv s)
  unfolding parse_step erase_packet
  parse_step-AllSent at_recv s h = tt
  parse_step-AllSent parsing s h =
      after_if (ltb (length s.buffer) header_size) _ _ h (
        after_if (ltb (length s.buffer) (read_header s.buffer).size) _ _ h
          (take_packet-AllSent s h))
  parse_step-AllSent entering s h =
      send_bytes-AllSent P (header_bytes (to_header c_enter_game)) s.client (enter-IsSent P) h

  recv-AllSent :
      (recv : RecvPhase) (chunk : List ℕ) (s : Play P)
      → AllSent s.client.sent
      → AfterEvent (play_recv P recv chunk s)
  unfolding play_recv
  recv-AllSent at_recv chunk s h = h
  recv-AllSent parsing chunk s h = tt
  recv-AllSent entering chunk s h = tt

  module _ (F : Floats P) where
    main_step-AllSent :
        (main : MainPhase) (r0 r1 r2 : ℕ) (s : Play P)
        → AllSent s.client.sent
        → AllSent (main_step P F main r0 r1 r2 s).client.sent
    unfolding main_step
    main_step-AllSent logging_in r0 r1 r2 s h = elim (Bool-cases (s.client.my_player_id == 0)) [
      | inl e ↦ rw e h
      | inr e ↦ rw e h
    ]
    main_step-AllSent moving r0 r1 r2 s h = move_step-AllSent P F r0 r1 s.client h
    main_step-AllSent attacking r0 r1 r2 s h = attack_step-AllSent P r0 r1 r2 s.client h

    play_event-AllSent :
        (e : PlayEvent) (s : Play P)
        → IsTyped e
        → AllSent s.client.sent
        → AfterEvent (play_event P F e s)
    unfolding play_event
    play_event-AllSent (gets chunk) s typed h = recv-AllSent s.recv chunk s h
    play_event-AllSent parses s typed h = parse_step-AllSent s.recv s h
    play_event-AllSent (types stack line) s typed h =
        input_line-AllSent P stack line s.client typed h
    play_event-AllSent (goes_on r0 r1 r2) s typed h = main_step-AllSent s.main r0 r1 r2 s h
    play_event-AllSent closes s typed h = console_handler-AllSent P s.client h

    play_run-AllSent :
        (es : List PlayEvent) (s : Play P)
        → AllTyped es
        → AllSent s.client.sent
        → AfterEvent (play_run P F es s)
    unfolding play_run play_step
    play_run-AllSent [] s typed h = h
    play_run-AllSent (e ∷ es) s typed h =
        let (one, more) = IsTyped-one e es typed in
        run_on s.over (play_event P F e s) (play_event-AllSent e s one h)
          (λ s' h'. play_run-AllSent es s' more h')
      where
        run_on :
            (over : Bool) (o : Option (Play P))
            → AfterEvent o
            → ((s' : Play P) → AllSent s'.client.sent → AfterEvent (play_run P F es s'))
            → AfterEvent ((if over then none else o) >>= play_run P F es)
        run_on true o k f = tt
        run_on false none k f = tt
        run_on false (some s') k f = f s' k

    -- The client plays: its threads take their steps in any order, a packet of the server at a time, the
    -- server sends any bytes, of which the client reads no packet past those at hand, and the user types
    -- anything (the arrays of the chat packets having their 128 bytes). The network cuts what the client
    -- sends anywhere. If each receive fits, the server's session, whose buffer was empty, cuts out exactly
    -- what the client sent, call by call: each packet has the header of a structure that is a client's, no
    -- byte is left, and the session waits for more.
    pub play_run-receive_each :
        (es : List PlayEvent) (input_id input_pw : List ℕ) (s : Play P) (chunks : List (List ℕ))
        {r : RingBuffer}
        → AllTyped es
        → play_run P F es (start_play P input_id input_pw) ≡ some s
        → IsValid r
        → contents r ≡ []
        → AllFit chunks (started r)
        → concat chunks ≡ concat s.client.sent
        → let done = receive_each chunks (started r) in
          (map encode done.jobs ≡ s.client.sent)
          × AllRequests done.jobs
          × (contents done.buffer ≡ [])
          × (done.outcome ≡ waiting)
    play_run-receive_each es input_id input_pw s chunks {r} typed e valid empty fit same =
        let h : AllSent s.client.sent = subst AfterEvent e (
          play_run-AllSent es (start_play P input_id input_pw) typed
            (start_play-AllSent input_id input_pw)) in
        let (ps, packets, requests, each, all) = packets_of s.client.sent h in
        let (jobs, rest, outcome) =
          receive_each-encode_all chunks ps valid empty fit packets (same ∙ sym all) in
        (ap (map encode) jobs ∙ each, subst AllRequests (sym jobs) requests, rest, outcome)
