-- ===== src/Send/Active.antt =====
-- Whether a packet is left waiting (Send and OnSend of MMO/Server/Network/Source/Session.cpp).
use mmorpg_server.Base.{ℕ, ◌≡◌, refl, true, false, ◌&&◌, List, [], ◌∷◌, ◌++◌, arith, take, length}
use mmorpg_server.Send.{
  SendBuffer, Sender, batch_size, no_buffers, fill, open_buffer, take_batch, register_send, enqueue,
  send, on_send,
}

no_buffers-append :
    (xs ys : List SendBuffer) → no_buffers (xs ++ ys) ≡ (no_buffers xs && no_buffers ys)
no_buffers-append [] ys = refl
no_buffers-append (x ∷ xs) ys = refl

no_buffers-take : (xs : List SendBuffer) → no_buffers (take batch_size xs) ≡ no_buffers xs
no_buffers-take [] = refl
no_buffers-take (x ∷ xs) = refl

-- Packets wait only behind a send that is under way, and a send is under way only with a batch.
pub record IsActive (s : Sender) : Type 0 where
  pub waiting : s.is_sending ≡ false → no_buffers s.send_queue ≡ true
  pub in_flight : s.is_sending ≡ true → no_buffers s.sending_list ≡ false

-- While WSASend takes every batch, Send leaves no packet waiting with no send under way.
pub send-IsActive : (packet : List ℕ) (s : Sender) → IsActive s → IsActive (send true packet s).1
unfolding send register_send take_batch enqueue
send-IsActive packet s v =
    let (b, pool) = open_buffer (length packet) s.pool in
    let queue = s.send_queue ++ (fill b packet ∷ []) in
    ground (
      arith,
      no_buffers-append s.send_queue (fill b packet ∷ []),
      no_buffers-append s.sending_list (take batch_size queue),
      no_buffers-take queue,
    )

-- The same for the completion of a send.
pub on_send-IsActive : (s : Sender) → IsActive s → IsActive (on_send true s)
unfolding on_send register_send take_batch
on_send-IsActive s v = ground (arith, no_buffers-take s.send_queue)
