-- ===== src/Network/Valid.antt =====
-- What Dispatch (MMO/Server/Core/IocpCore.cpp) keeps of every session's receive buffer and of the pool
-- of send buffers.
use mmorpg_server.Base.{
  ℕ, zero, suc, ◌≤◌, ◌≡◌, ◌∙◌, Bool, true, false, some, List, [], ◌∷◌, ◌++◌, arith, ◌==◌,
  if◌then◌else◌, length, Bool-cases, Option-cases, inl, inr,
}
use mmorpg_server.Game.{set_at}
use mmorpg_server.Ring.{RingBuffer, get_continuous_free_size}
use mmorpg_server.Ring.Queue.{length-put_round}
use mmorpg_server.Ring.Contents.{IsValid}
use mmorpg_server.Ring.Continuous.{receive, receive-appended, continuous-fits-array}
use mmorpg_server.Framing.{Outcome, waiting, cleared, out_of_fuel}
use mmorpg_server.Framing.Loop.{clear-IsValid}
use mmorpg_server.Framing.Receive.{on_recv, process_lem}
use mmorpg_server.Send.{Sender, on_send, register_send, take_batch, release_all}
use mmorpg_server.Send.Buffers.{IsPool, release_all-IsPool}
use mmorpg_server.Platform.{PlayerState}
use mmorpg_server.SessionPool.{SessionManager, acquire_from}
use mmorpg_server.Network.{
  set_conn, sender_of, Kernel, Conn, Network, Operation, accept_operation, recv_operation,
  send_operation, Completion, timed_out, accepted, received, sent, failed, clear_session,
  release_conn, drop_conn, clear_if, register_recv, receive_packets, on_recv_conn, on_send_conn,
  register_accept, accept_next, end_conn, completed, on_accepted, dispatch,
}
use mmorpg_server.Network.Ends.{clear_session-IsPool}

pub record IsSafe (n : Network) : Type 0 where
  pub rings : (a : ℕ) → IsValid (n.conns a).recv_buffer
  pub buffers : IsPool n.pool

-- The kernel writes no more than RegisterRecv asked for.
abbrev pub Fits : Completion → Network → Type 0
Fits timed_out n = Unit {0}
Fits (accepted a) n = Unit {0}
Fits (received a bytes) n = length bytes ≤ get_continuous_free_size (n.conns a).recv_buffer
Fits (sent a len) n = Unit {0}
Fits (failed op a) n = Unit {0}

receive-IsValid :
    {r : RingBuffer} (bytes : List ℕ)
    → IsValid r
    → length bytes ≤ get_continuous_free_size r
    → IsValid (receive r bytes)
receive-IsValid {r} bytes v fits =
    rw (receive-appended r bytes (omega (arith, continuous-fits-array v))) (record {
      storage = length-put_round r.buffer r.capacity r.write_pos bytes ∙ v.storage;
      read_in = v.read_in;
      write_in = grind arith;
    })

set_at-rings :
    (conns : ℕ → Conn) (a : ℕ) (c : Conn)
    → ((b : ℕ) → IsValid (conns b).recv_buffer)
    → IsValid c.recv_buffer
    → (b : ℕ) → IsValid (set_at conns a c b).recv_buffer
set_at-rings conns a c all v b = elim (Bool-cases (a == b)) [
  | inl e ↦ rw e v
  | inr e ↦ rw e (all b)
]

clear_session-IsSafe : (a : ℕ) (n : Network) → IsSafe n → IsSafe (clear_session a n)
unfolding clear_session
clear_session-IsSafe a n s = record {
  rings = set_at-rings n.conns a _ s.rings (clear-IsValid (s.rings a));
  buffers = clear_session-IsPool a n s.buffers;
}

drop_conn-IsSafe : (a : ℕ) (n : Network) → IsSafe n → IsSafe (drop_conn a n)
unfolding drop_conn release_conn
drop_conn-IsSafe a n s =
    let twice = clear_session-IsSafe a (clear_session a n) (clear_session-IsSafe a n s) in
    record { rings = twice.rings; buffers = twice.buffers }

if-IsSafe : (b : Bool) (n m : Network) → IsSafe n → IsSafe m → IsSafe (if b then n else m)
if-IsSafe true n m s t = s
if-IsSafe false n m s t = t

register_recv-IsSafe : (k : Kernel) (a : ℕ) (n : Network) → IsSafe n → IsSafe (register_recv k a n)
unfolding register_recv
register_recv-IsSafe k a n s =
    let dropped = drop_conn-IsSafe a n s in
    if-IsSafe _ _ _ dropped (
      if-IsSafe _ (record n { receiving = n.receiving ++ (a ∷ []) }) _
        (record { rings = s.rings; buffers = s.buffers }) dropped)

register_accept-IsSafe :
    (k : Kernel) (a : ℕ) (n : Network) → IsSafe n → IsSafe (register_accept k a n)
unfolding register_accept
register_accept-IsSafe k a n s = elim (Option-cases k.new_socket) [
  | inl e ↦ rw (e, register_accept) s
  | inr (socket, e) ↦
      let rings =
        set_at-rings n.conns a (record (n.conns a) { socket = some socket }) s.rings (s.rings a) in
      rw (e, register_accept)
        (if-IsSafe (k.takes_accept socket) _ _ (record { rings = rings; buffers = s.buffers })
          (record { rings = rings; buffers = s.buffers }))
]

accept_next-IsSafe :
    (k : Kernel) (free : List ℕ) (m : SessionManager) (n : Network)
    → IsSafe n
    → IsSafe (accept_next k (acquire_from free m) n)
unfolding accept_next acquire_from
accept_next-IsSafe k [] m n s = record { rings = s.rings; buffers = s.buffers }
accept_next-IsSafe k (a ∷ free) m n s =
    register_accept-IsSafe k a (record n { manager = record m { free_sessions = free } })
      (record { rings = s.rings; buffers = s.buffers })

end_conn-IsSafe : (k : Kernel) (a : ℕ) (n : Network) → IsSafe n → IsSafe (end_conn k a n)
unfolding end_conn
end_conn-IsSafe k a n s =
    register_accept-IsSafe k a (clear_session a n) (clear_session-IsSafe a n s)

on_send_pool :
    (accepts : Bool) (s : Sender) → (on_send accepts s).pool ≡ release_all s.sending_list s.pool
unfolding on_send register_send take_batch
on_send_pool accepts s = ground arith

on_send-IsPool : (accepts : Bool) (s : Sender) → IsPool s.pool → IsPool (on_send accepts s).pool
on_send-IsPool accepts s pool =
    rw (on_send_pool accepts s) (release_all-IsPool s.sending_list s.pool pool)

on_send_conn-IsSafe : (k : Kernel) (a : ℕ) (n : Network) → IsSafe n → IsSafe (on_send_conn k a n)
unfolding on_send_conn
on_send_conn-IsSafe k a n s = record {
  rings = set_at-rings n.conns a _ s.rings (s.rings a);
  buffers = on_send-IsPool (k.takes_send (n.conns a).socket) (sender_of a n) s.buffers;
}

clear_if-IsSafe : (o : Outcome) (a : ℕ) (n : Network) → IsSafe n → IsSafe (clear_if o a n)
unfolding clear_if
clear_if-IsSafe waiting a n s = s
clear_if-IsSafe cleared a n s = clear_session-IsSafe a n s
clear_if-IsSafe out_of_fuel a n s = s

receive_packets-IsSafe :
    (a : ℕ) (bytes : List ℕ) (n : Network)
    → IsSafe n
    → length bytes ≤ get_continuous_free_size (n.conns a).recv_buffer
    → IsSafe (receive_packets a bytes n)
unfolding receive_packets on_recv
receive_packets-IsSafe a bytes n s fits =
    let c = n.conns a in
    let done = on_recv c.recv_buffer bytes in
    let valid = (process_lem (receive-IsValid bytes (s.rings a) fits)).0.valid in
    clear_if-IsSafe done.outcome a _ (record {
      rings = set_at-rings n.conns a (record c { recv_buffer = done.buffer }) s.rings valid;
      buffers = s.buffers;
    })

on_recv_conn-IsSafe :
    (k : Kernel) (a byte : ℕ) (bytes : List ℕ) (n : Network)
    → IsSafe n
    → suc (length bytes) ≤ get_continuous_free_size (n.conns a).recv_buffer
    → IsSafe (on_recv_conn k a (byte ∷ bytes) n)
unfolding on_recv_conn
on_recv_conn-IsSafe k a byte bytes n s fits =
    register_recv-IsSafe k a (receive_packets a (byte ∷ bytes) n)
      (receive_packets-IsSafe a (byte ∷ bytes) n s fits)

on_accepted-IsSafe :
    (k : Kernel) (now a : ℕ) (n : Network) → IsSafe n → IsSafe (on_accepted k now a n)
unfolding on_accepted
on_accepted-IsSafe k now a n s =
    let c = record (n.conns a) { state = PlayerState.connected; last_tick = now } in
    let n' = register_recv k a (set_conn a c n) in
    accept_next-IsSafe k n'.manager.free_sessions n'.manager n' (
      register_recv-IsSafe k a (set_conn a c n)
        (record { rings = set_at-rings n.conns a c s.rings (s.rings a); buffers = s.buffers }))

completed-IsSafe : (op : Operation) (a : ℕ) (n : Network) → IsSafe n → IsSafe (completed op a n)
completed-IsSafe accept_operation a n s = record { rings = s.rings; buffers = s.buffers }
completed-IsSafe recv_operation a n s = record { rings = s.rings; buffers = s.buffers }
completed-IsSafe send_operation a n s = s

-- Every completion keeps the receive buffer of every session valid (its positions in the array, which
-- keeps its length) and the send buffer pool standard and bounded, if a receive brings no more than
-- RegisterRecv asked for. Malformed bytes, full buffers and refusals of the operating system are no
-- exception.
pub dispatch-IsSafe :
    (k : Kernel) (now : ℕ) (c : Completion) (n : Network)
    → IsSafe n
    → Fits c n
    → IsSafe (dispatch k now c n)
unfolding dispatch
dispatch-IsSafe k now timed_out n s fits = s
dispatch-IsSafe k now (accepted a) n s fits =
    on_accepted-IsSafe k now a (completed accept_operation a n)
      (completed-IsSafe accept_operation a n s)
dispatch-IsSafe k now (received a []) n s fits =
    end_conn-IsSafe k a (completed recv_operation a n) (completed-IsSafe recv_operation a n s)
dispatch-IsSafe k now (received a (byte ∷ bytes)) n s fits =
    on_recv_conn-IsSafe k a byte bytes (completed recv_operation a n)
      (completed-IsSafe recv_operation a n s) fits
dispatch-IsSafe k now (sent a zero) n s fits = end_conn-IsSafe k a n s
dispatch-IsSafe k now (sent a (suc len)) n s fits = on_send_conn-IsSafe k a n s
dispatch-IsSafe k now (failed op a) n s fits =
    end_conn-IsSafe k a (completed op a n) (completed-IsSafe op a n s)
