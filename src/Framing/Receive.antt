-- ===== src/Framing/Receive.antt =====
-- Session::OnRecv (MMO/Server/Network/Source/Session.cpp) over a sequence of receives that
-- cut the stream anywhere. A receive is completed by the kernel, which has written its bytes at the
-- write position (`receive`).
use mmorpg_server.Base.{
  ℕ, zero, suc, ◌≤◌, ◌≡◌, refl, sym, ap, ◌∙◌, ◌≢◌, List, [], ◌∷◌, ◌++◌, arith, length, drop,
  length-append, length-drop, append_assoc, append-nil,
}
use mmorpg_server.Ring.{RingBuffer, get_use_size, get_free_size, get_continuous_free_size}
use mmorpg_server.Ring.Contents.{IsValid, contents, length-contents}
use mmorpg_server.Ring.Continuous.{receive, receive_lem}
use mmorpg_server.Protocol.{read_header}
use mmorpg_server.Framing.{
  Packet, Processed, Outcome, waiting, cleared, out_of_fuel, process_packets,
}
use mmorpg_server.Framing.Stream.{parse_with, parse, parse_with-fuel, parse-ne-out_of_fuel}
use mmorpg_server.Framing.Loop.{Agrees, process_packets-Agrees}
use mmorpg_server.Framing.Chunks.{prepend, go_on, parse-append}
use mmorpg_server.Framing.RoundTrip.{encode_all, AllPackets, parse-encode_all}

-- Each round takes four bytes at least, so the held bytes bound the rounds.
unfoldable pub process : RingBuffer → Processed
process r = process_packets (suc (get_use_size r)) r

-- OnRecv of a non-empty receive, up to the RegisterRecv that posts the next one.
unfoldable pub on_recv : RingBuffer → List ℕ → Processed
unfolding process
on_recv r bytes = process (receive r bytes)

-- One more receive, unless a malformed header has cleared the session.
abbrev pub receive_next : Outcome → Processed → List ℕ → Processed
receive_next waiting done bytes =
    let next = on_recv done.buffer bytes in record next { jobs = done.jobs ++ next.jobs }
receive_next cleared done bytes = done
receive_next out_of_fuel done bytes = done

unfoldable pub receive_each : List (List ℕ) → Processed → Processed
receive_each [] done = done
receive_each (bytes ∷ chunks) done = receive_each chunks (receive_next done.outcome done bytes)

-- A session that has received nothing.
unfoldable pub started : RingBuffer → Processed
started r = record { buffer = r; jobs = []; outcome = waiting }

-- Every receive fits what RegisterRecv asked for and the free bytes.
abbrev pub AllFit : List (List ℕ) → Processed → Type 0
AllFit [] done = Unit {0}
AllFit (bytes ∷ chunks) done =
    (length bytes ≤ get_continuous_free_size done.buffer)
    × (length bytes ≤ get_free_size done.buffer)
    × AllFit chunks (receive_next done.outcome done bytes)

abbrev pub concat : List (List ℕ) → List ℕ
concat [] = []
concat (bytes ∷ chunks) = bytes ++ concat chunks

-- ProcessPackets always stops by itself: on a valid buffer it pushes the packets that the held bytes
-- are made of, in order, leaves the bytes that wait for more (none after a malformed header), stops
-- for the same reason as the parse of those bytes, and keeps the buffer valid.
pub process_lem :
    {r : RingBuffer}
    → IsValid r
    → Agrees (process r) (parse (contents r)) × ((process r).outcome ≢ out_of_fuel)
unfolding process parse
process_lem {r} v =
    (agrees, λ e. parse-ne-out_of_fuel _ (contents r) (omega arith) (sym agrees.outcome ∙ e))
  where
    agrees : Agrees (process r) (parse (contents r))
    agrees = rw (length-contents r) (process_packets-Agrees (suc (get_use_size r)) v)

rest_le : (f : ℕ) (bytes : List ℕ) → length (parse_with f bytes).rest ≤ length bytes
unfolding parse_with
rest_le zero bytes = omega arith
rest_le (suc f) bytes = ground (
  arith,
  rest_le f (drop (read_header bytes).size bytes),
  length-drop (read_header bytes).size bytes,
)

parse-append_waiting :
    (a b : List ℕ)
    → (parse a).outcome ≡ waiting
    → parse (a ++ b) ≡ prepend (parse a).packets (parse ((parse a).rest ++ b))
unfolding parse
parse-append_waiting a b e =
    parse-append a b
    ∙ ap (λ o. go_on (suc (length (a ++ b))) o (parse a) b) e
    ∙ ap (prepend (parse a).packets) (
        parse_with-fuel (suc (length (a ++ b))) (suc (length ((parse a).rest ++ b)))
          ((parse a).rest ++ b)
          (omega
            (arith, length-append a b, length-append (parse a).rest b, rest_le (suc (length a)) a))
          (omega arith))

parse-append_cleared : (a b : List ℕ) → (parse a).outcome ≡ cleared → parse (a ++ b) ≡ parse a
parse-append_cleared a b e =
    parse-append a b ∙ ap (λ o. go_on (suc (length (a ++ b))) o (parse a) b) e

-- One more receive against the parse of the longer stream.
receive_next-waiting :
    (done : Processed) (bs bytes : List ℕ)
    → Agrees done (parse bs)
    → length bytes ≤ get_continuous_free_size done.buffer
    → length bytes ≤ get_free_size done.buffer
    → done.outcome ≡ waiting
    → Agrees (receive_next waiting done bytes) (parse (bs ++ bytes))
unfolding on_recv
receive_next-waiting done bs bytes ag fits free e =
    let got = receive_lem bytes ag.valid fits free in
    let next = (process_lem got.1).0 in
    let held : contents (receive done.buffer bytes) ≡ (parse bs).rest ++ bytes =
      got.0 ∙ ap (λ xs. xs ++ bytes) ag.rest in
    rw (parse-append_waiting bs bytes (sym ag.outcome ∙ e), ← held, ← ag.jobs)
      (record {
        jobs = ap (λ js. done.jobs ++ js) next.jobs;
        rest = next.rest;
        outcome = next.outcome;
        valid = next.valid;
      })

receive_next-Agrees :
    (o : Outcome) (done : Processed) (bs bytes : List ℕ)
    → Agrees done (parse bs)
    → length bytes ≤ get_continuous_free_size done.buffer
    → length bytes ≤ get_free_size done.buffer
    → done.outcome ≡ o
    → Agrees (receive_next o done bytes) (parse (bs ++ bytes))
unfolding parse
receive_next-Agrees waiting done bs bytes ag fits free e =
    receive_next-waiting done bs bytes ag fits free e
receive_next-Agrees cleared done bs bytes ag fits free e =
    rw (parse-append_cleared bs bytes (sym ag.outcome ∙ e)) ag
receive_next-Agrees out_of_fuel done bs bytes ag fits free e =
    absurd (parse-ne-out_of_fuel (suc (length bs)) bs (omega arith) (sym ag.outcome ∙ e))

receive_each-Agrees :
    (chunks : List (List ℕ)) (done : Processed) (bs : List ℕ)
    → Agrees done (parse bs)
    → AllFit chunks done
    → Agrees (receive_each chunks done) (parse (bs ++ concat chunks))
unfolding receive_each
receive_each-Agrees [] done bs ag fit = rw (append-nil bs) ag
receive_each-Agrees (bytes ∷ chunks) done bs ag fit = rw (← append_assoc bs bytes (concat chunks)) (
    receive_each-Agrees chunks (receive_next done.outcome done bytes) (bs ++ bytes)
      (receive_next-Agrees done.outcome done bs bytes ag fit.0 fit.1 refl) fit.2)

parse-nil : parse [] ≡ record { packets = []; rest = []; outcome = waiting }
unfolding parse parse_with
parse-nil = refl

started-Agrees : {r : RingBuffer} → IsValid r → contents r ≡ [] → Agrees (started r) (parse [])
unfolding started parse parse_with
started-Agrees v e = record { jobs = refl; rest = e; outcome = refl; valid = v }

-- Whatever the receives that a client's packets arrive in, cut anywhere, if each fits what RegisterRecv
-- asked for and the free bytes: a session that starts with an empty buffer pushes exactly those
-- packets, in order, each with its header and payload, keeps no byte, and waits for more.
pub receive_each-encode_all :
    (chunks : List (List ℕ)) (ps : List Packet) {r : RingBuffer}
    → IsValid r
    → contents r ≡ []
    → AllFit chunks (started r)
    → AllPackets ps
    → concat chunks ≡ encode_all ps
    → let done = receive_each chunks (started r) in
      (done.jobs ≡ ps) × (contents done.buffer ≡ []) × (done.outcome ≡ waiting)
receive_each-encode_all chunks ps {r} v empty fit packets same =
    let ag = receive_each-Agrees chunks (started r) [] (started-Agrees v empty) fit in
    let whole =
      ap parse (same ∙ sym (append-nil (encode_all ps)))
      ∙ parse-encode_all ps [] packets
      ∙ ap (prepend ps) parse-nil in
    (
      ag.jobs ∙ ap (λ q. q.packets) whole ∙ append-nil ps,
      ag.rest ∙ ap (λ q. q.rest) whole,
      ag.outcome ∙ ap (λ q. q.outcome) whole,
    )
