-- ===== src/Send.antt =====
-- Sending: SendBuffer and SendBufferManager (MMO/Server/Network/Include/SendBuffer.h), and Send,
-- RegisterSend, OnSend and the send part of Clear of Session (MMO/Server/Network/Source/Session.cpp).
-- Each function is one call with no other thread in it. WSASend is an argument: `accepts` says that it
-- took the batch, at once or as pending.
pub mod Flow
pub mod Drain
pub mod Active
pub mod Buffers
use mmorpg_server.Base.{
  ℕ, zero, suc, Bool, true, false, List, [], ◌∷◌, ◌++◌, ◌||◌, map, ltb, leb, if◌then◌else◌, length,
  take, drop, replicate,
}
use mmorpg_server.Ring.{copy_to}

-- `storage` is the allocated vector, `size` the bytes in use.
pub record SendBuffer : Type 0 where
  pub storage : List ℕ
  pub size : ℕ

abbrev pub capacity : SendBuffer → ℕ
capacity b = length b.storage

abbrev pub buffer_size : ℕ
buffer_size = 8192

abbrev pub pool_limit : ℕ
pool_limit = 10000

unfoldable pub new_buffer : ℕ → SendBuffer
new_buffer size = record { storage = replicate size 0; size = 0 }

-- The pool, its back first. SendBufferManager::Init adds `count` buffers.
unfoldable pub init_pool : ℕ → List SendBuffer → List SendBuffer
unfolding new_buffer
init_pool zero pool = pool
init_pool (suc count) pool = init_pool count (new_buffer buffer_size ∷ pool)

-- Open.
unfoldable pub open_buffer : ℕ → List SendBuffer → SendBuffer × List SendBuffer
unfolding new_buffer
open_buffer size [] = (new_buffer size, [])
open_buffer size (b ∷ pool) = (b, pool)

-- Release: only buffers of the standard size go back, and only while the pool is not full.
unfoldable pub release : SendBuffer → List SendBuffer → List SendBuffer
release b pool =
    if ltb (capacity b) buffer_size || leb pool_limit (length pool) then pool else b ∷ pool

unfoldable pub release_all : List SendBuffer → List SendBuffer → List SendBuffer
unfolding release
release_all [] pool = pool
release_all (b ∷ bs) pool = release_all bs (release b pool)

-- memcpy of the packet into an open buffer, and Close.
unfoldable pub fill : SendBuffer → List ℕ → SendBuffer
unfolding copy_to
fill b packet = record { storage = copy_to b.storage 0 packet; size = length packet }

-- The bytes that a buffer hands to WSASend.
abbrev pub payload : SendBuffer → List ℕ
payload b = take b.size b.storage

-- The send half of a session, with the pool. `posted` are the payloads of the batches that
-- WSASend took, in order.
pub record Sender : Type 0 where
  pub send_queue : List SendBuffer
  pub sending_list : List SendBuffer
  pub is_sending : Bool
  pub pool : List SendBuffer
  pub posted : List (List ℕ)

abbrev pub backpressure_limit : ℕ
backpressure_limit = 5000

abbrev pub batch_size : ℕ
batch_size = 100

abbrev pub no_buffers : List SendBuffer → Bool
no_buffers [] = true
no_buffers (b ∷ bs) = false

-- The batch that RegisterSend takes from the queue.
unfoldable pub take_batch : Sender → Sender
take_batch s =
    let batch = take batch_size s.send_queue in
    record s { send_queue = drop batch_size s.send_queue; sending_list = s.sending_list ++ batch }

-- A batch that WSASend refuses is off the queue all the same, and never sent.
unfoldable pub register_send : Bool → Sender → Bool × Sender
register_send accepts s =
    if no_buffers s.send_queue
    then (false, record s { is_sending = false })
    else if accepts
    then (
      true,
      record (take_batch s) { posted = s.posted ++ map payload (take batch_size s.send_queue) },
    )
    else (false, record (take_batch s) { is_sending = false })

-- A packet put into a buffer at the end of the queue.
unfoldable pub enqueue : List ℕ → Sender → Sender
enqueue packet s =
    let (b, pool) = open_buffer (length packet) s.pool in
    record s { send_queue = s.send_queue ++ (fill b packet ∷ []); pool = pool }

-- Session::Send.
unfoldable pub send : Bool → List ℕ → Sender → Bool × Sender
send accepts packet s =
    let queued = enqueue packet s in
    if ltb backpressure_limit (length s.send_queue)
    then (false, s)
    else if s.is_sending
    then (true, queued)
    else register_send accepts (record queued { is_sending = true })

-- Session::OnSend; the number of bytes is not used.
unfoldable pub on_send : Bool → Sender → Sender
on_send accepts s =
    let freed = record s { sending_list = []; pool = release_all s.sending_list s.pool } in
    if no_buffers s.send_queue
    then record freed { is_sending = false }
    else (register_send accepts freed).1

-- The part of Session::Clear under the send queue's mutex.
unfoldable pub clear_sends : Sender → Sender
clear_sends s = record s {
  send_queue = [];
  sending_list = [];
  is_sending = false;
  pool = release_all s.sending_list (release_all s.send_queue s.pool);
}
