-- ===== src/Tests/Sends.antt =====
-- Runs of sending (MMO/Server/Network/Source/Session.cpp, MMO/Server/Network/Include/SendBuffer.h).
use mmorpg_server.Base.{ℕ, ◌≡◌, ◌⊎◌, Bool, true, false, List, [], ◌∷◌, arith, drop}
use mmorpg_server.Send.{SendBuffer, Sender, init_pool, send, on_send}
use mmorpg_server.Send.Flow.{Packets, packets, batch_of, flow-send}
use mmorpg_server.Send.Drain.{IsDrained, on_sends-IsDrained}
use mmorpg_server.Send.Buffers.{IsPool, init_pool-IsPool}

no_buffers-IsPool : IsPool []
no_buffers-IsPool = record { standard = tt; bounded = omega arith }

abbrev pub two_buffers : List SendBuffer
two_buffers = init_pool 2 []

pub two_buffers-IsPool : IsPool two_buffers
two_buffers-IsPool = init_pool-IsPool 2 [] no_buffers-IsPool (omega arith)

-- A session with nothing to send.
abbrev idle : Sender
idle = record {
  send_queue = [];
  sending_list = [];
  is_sending = false;
  pool = two_buffers;
  posted = [];
}

flow-send_example :
    let (result, after) = send true (4 ∷ 0 ∷ 5 ∷ 0 ∷ []) idle in
    let waiting : List (List ℕ) = (4 ∷ 0 ∷ 5 ∷ 0 ∷ []) ∷ [] in
    (◌≡◌ {A = Bool × Packets} (result, packets after) (true, batch_of true waiting (packets idle)))
    × (after.pool ≡ drop 1 two_buffers)
    × ((false ≡ false) ⊎ (after ≡ idle))
flow-send_example = flow-send true (4 ∷ 0 ∷ 5 ∷ 0 ∷ []) idle two_buffers-IsPool (omega arith)

abbrev buffer_of : ℕ → SendBuffer
buffer_of byte = record { storage = byte ∷ 0 ∷ []; size = 1 }

-- A send of one packet under way, and two that wait.
abbrev crowded : Sender
crowded = record {
  send_queue = buffer_of 8 ∷ buffer_of 9 ∷ [];
  sending_list = buffer_of 7 ∷ [];
  is_sending = true;
  pool = two_buffers;
  posted = (7 ∷ []) ∷ [];
}

on_sends-IsDrained_example : IsDrained crowded (on_send true (on_send true crowded))
on_sends-IsDrained_example = on_sends-IsDrained 1 crowded (omega arith)
