-- ===== src/Send/Flow.antt =====
-- What is handed to WSASend, and in which order (Send, RegisterSend and OnSend of
-- MMO/Server/Network/Source/Session.cpp).
use mmorpg_server.Base.{
  inl, inr, ◌⊎◌, ℕ, zero, suc, ◌≤◌, ◌≡◌, refl, ap, ap₂, ◌∙◌, Bool, true, false, List, [], ◌∷◌, ◌++◌,
  map, arith, ltb, if◌then◌else◌, length, take, drop,
}
use mathlib.Core.List.{map-append}
use mmorpg_server.Send.{
  SendBuffer, Sender, payload, buffer_size, batch_size, backpressure_limit, no_buffers, fill,
  open_buffer, take_batch, register_send, enqueue, send,
}
use mmorpg_server.Send.Buffers.{IsPool, open_buffer-fits, payload-fill}

-- The packets of a session, without their buffers: those that WSASend took, those of the batches under
-- way or refused, those that wait, and whether a send is under way.
pub record Packets : Type 0 where
  pub posted : List (List ℕ)
  pub in_flight : List (List ℕ)
  pub waiting : List (List ℕ)
  pub under_way : Bool

abbrev pub packets : Sender → Packets
packets s = record {
  posted = s.posted;
  in_flight = map payload s.sending_list;
  waiting = map payload s.send_queue;
  under_way = s.is_sending;
}

-- What becomes of packets of which some wait, on WSASend's answer: the first hundred leave the queue.
abbrev pub batch_of : Bool → List (List ℕ) → Packets → Packets
batch_of accepts waiting p = record {
  posted = if accepts then p.posted ++ take batch_size waiting else p.posted;
  in_flight = p.in_flight ++ take batch_size waiting;
  waiting = drop batch_size waiting;
  under_way = accepts;
}

map-take : (n : ℕ) (bs : List SendBuffer) → map payload (take n bs) ≡ take n (map payload bs)
map-take zero bs = refl
map-take (suc n) [] = refl
map-take (suc n) (b ∷ bs) = ap (◌∷◌ (payload b)) (map-take n bs)

map-drop : (n : ℕ) (bs : List SendBuffer) → map payload (drop n bs) ≡ drop n (map payload bs)
map-drop zero bs = refl
map-drop (suc n) [] = refl
map-drop (suc n) (b ∷ bs) = map-drop n bs

no_buffers-append_one :
    (bs : List SendBuffer) (b : SendBuffer) → no_buffers (bs ++ (b ∷ [])) ≡ false
no_buffers-append_one [] b = refl
no_buffers-append_one (x ∷ bs) b = refl

same_packets :
    {p p' f f' w w' : List (List ℕ)} (u : Bool)
    → p ≡ p'
    → f ≡ f'
    → w ≡ w'
    → ◌≡◌ {A = Packets}
        (record { posted = p; in_flight = f; waiting = w; under_way = u })
        (record { posted = p'; in_flight = f'; waiting = w'; under_way = u })
same_packets u e f g = rw (e, f, g) refl

packets-register_send :
    (accepts : Bool) (s : Sender)
    → no_buffers s.send_queue ≡ false
    → s.is_sending ≡ true
    → ((register_send accepts s).0 ≡ accepts)
      × (packets (register_send accepts s).1
          ≡ batch_of accepts (map payload s.send_queue) (packets s))
unfolding register_send take_batch
packets-register_send true s e f =
    rw (e, f)
      (
        refl,
        same_packets true (ap (◌++◌ s.posted) (map-take batch_size s.send_queue))
            (map-append payload s.sending_list (take batch_size s.send_queue)
              ∙ ap (◌++◌ (map payload s.sending_list)) (map-take batch_size s.send_queue))
            (map-drop batch_size s.send_queue),
      )
packets-register_send false s e f = rw e (
  refl,
  same_packets false refl
      (map-append payload s.sending_list (take batch_size s.send_queue)
        ∙ ap (◌++◌ (map payload s.sending_list)) (map-take batch_size s.send_queue))
      (map-drop batch_size s.send_queue),
)

waiting-enqueue :
    (packet : List ℕ) (s : Sender)
    → IsPool s.pool
    → length packet ≤ buffer_size
    → map payload (enqueue packet s).send_queue ≡ map payload s.send_queue ++ (packet ∷ [])
unfolding enqueue
waiting-enqueue packet s v le =
    let opened = open_buffer (length packet) s.pool in
    map-append payload s.send_queue (fill opened.0 packet ∷ [])
    ∙ ap (λ (p : List ℕ). map payload s.send_queue ++ (p ∷ []))
        (payload-fill opened.0 packet (open_buffer-fits (length packet) s.pool v le))

drop_open : (size : ℕ) (pool : List SendBuffer) → (open_buffer size pool).1 ≡ drop 1 pool
unfolding open_buffer
drop_open size [] = refl
drop_open size (b ∷ pool) = refl

packets-enqueue :
    (packet : List ℕ) (s : Sender)
    → IsPool s.pool
    → length packet ≤ buffer_size
    → packets (enqueue packet s)
      ≡ record (packets s) { waiting = map payload s.send_queue ++ (packet ∷ []) }
unfolding enqueue
packets-enqueue packet s v le = same_packets s.is_sending refl refl (waiting-enqueue packet s v le)

enqueue_pool : (packet : List ℕ) (s : Sender) → (enqueue packet s).pool ≡ drop 1 s.pool
unfolding enqueue
enqueue_pool packet s = drop_open (length packet) s.pool

enqueue_some : (packet : List ℕ) (s : Sender) → no_buffers (enqueue packet s).send_queue ≡ false
unfolding enqueue
enqueue_some packet s = no_buffers-append_one s.send_queue _

register_send_pool : (accepts : Bool) (s : Sender) → (register_send accepts s).1.pool ≡ s.pool
unfolding register_send take_batch
register_send_pool accepts s = ground arith

-- The send that Send starts itself.
packets-start_send :
    (accepts : Bool) (packet : List ℕ) (s : Sender)
    → IsPool s.pool
    → length packet ≤ buffer_size
    → let started = register_send accepts (record (enqueue packet s) { is_sending = true }) in
      (started.0 ≡ accepts)
      × (packets started.1
          ≡ batch_of accepts (map payload s.send_queue ++ (packet ∷ [])) (packets s))
unfolding enqueue
packets-start_send accepts packet s v le =
    let queued = record (enqueue packet s) { is_sending = true } in
    let (answer, after) = packets-register_send accepts queued (enqueue_some packet s) refl in
    (answer, after ∙ ap (λ w. batch_of accepts w (packets s)) (waiting-enqueue packet s v le))

-- Send, on every branch. More than 5,000 packets waiting: it returns false and changes nothing. Else the
-- packet comes behind those that wait, with its bytes intact, in a buffer that is taken from the pool, if it
-- has one. If a send is under way, nothing else changes, and the result is true; if not, the first hundred
-- leave the queue, WSASend's answer is the result, and it posts the batch if it takes it. A batch that it
-- refuses is not posted, and no send is under way. (The packet is at most one standard buffer long, and the
-- pool holds standard buffers.)
pub flow-send :
    (accepts : Bool) (packet : List ℕ) (s : Sender)
    → IsPool s.pool
    → length packet ≤ buffer_size
    → let (result, after) = send accepts packet s in
      let pressure = ltb backpressure_limit (length s.send_queue) in
      let waiting = map payload s.send_queue ++ (packet ∷ []) in
      (◌≡◌ {A = Bool × Packets}
        (result, packets after)
        (if pressure
          then (false, packets s)
          else if s.is_sending
          then (true, record (packets s) { waiting = waiting })
          else (accepts, batch_of accepts waiting (packets s))))
      × (after.pool ≡ (if pressure then s.pool else drop 1 s.pool))
      × ((pressure ≡ false) ⊎ (after ≡ s))
unfolding send
flow-send accepts packet s v le =
    branches (ltb backpressure_limit (length s.send_queue)) s.is_sending
  where
    waiting : List (List ℕ)
    waiting = map payload s.send_queue ++ (packet ∷ [])

    outcome : Bool → Bool → Bool × Sender
    outcome pressure busy =
        if pressure
        then (false, s)
        else if busy
        then (true, enqueue packet s)
        else register_send accepts (record (enqueue packet s) { is_sending = true })

    branches :
        (pressure busy : Bool)
        → (◌≡◌ {A = Bool × Packets}
            ((outcome pressure busy).0, packets (outcome pressure busy).1)
            (if pressure
              then (false, packets s)
              else if busy
              then (true, record (packets s) { waiting = waiting })
              else (accepts, batch_of accepts waiting (packets s))))
          × ((outcome pressure busy).1.pool ≡ (if pressure then s.pool else drop 1 s.pool))
          × ((pressure ≡ false) ⊎ ((outcome pressure busy).1 ≡ s))
    branches true busy = (refl, refl, inr refl)
    branches false true =
        (ap (λ p. (true, p)) (packets-enqueue packet s v le), enqueue_pool packet s, inl refl)
    branches false false =
        let (answer, after) = packets-start_send accepts packet s v le in
        (
          ap₂ (λ b p. (b, p)) answer after,
          register_send_pool accepts (record (enqueue packet s) { is_sending = true })
              ∙ enqueue_pool packet s,
          inl refl,
        )
