-- ===== src/Network.antt =====
-- A session on the network: Clear, RegisterRecv, OnRecv, OnSend and OnAccept of Session
-- (MMO/Server/Network/Source/Session.cpp), Listener::RegisterAccept
-- (MMO/Server/Network/Source/Listener.cpp) and IocpCore::Dispatch (MMO/Server/Core/IocpCore.cpp), over
-- all sessions. A session and a socket are named by numbers. The results of the calls of the operating
-- system in one dispatch are an argument (`Kernel`); what stays posted there is part of the state.
pub mod Valid
pub mod Ends
pub mod Twice
pub mod Accepts
pub mod Turns
pub mod Startup
pub mod Workers
use mmorpg_server.Base.{
  ℕ, zero, suc, ◌≡◌, Bool, true, false, ◌&&◌, Option, none, some, List, [], ◌∷◌, ◌++◌, map, ltb,
  leb, ◌==◌, if◌then◌else◌,
}
use mmorpg_server.Ring.{RingBuffer, get_free_size, get_continuous_free_size}
use mmorpg_server.Ring
use mmorpg_server.Protocol.{header_size}
use mmorpg_server.Framing.{Packet, Outcome, waiting, cleared, out_of_fuel}
use mmorpg_server.Framing.Receive.{on_recv}
use mmorpg_server.Send.{SendBuffer, Sender, clear_sends, on_send}
use mmorpg_server.Platform.{PlayerState}
use mmorpg_server.Game.{set_at}
use mmorpg_server.SessionPool.{SessionManager, acquire, acquire_from, release_session}

-- What the calls return. A socket is `none` if it is INVALID_SOCKET; WSARecv and WSASend refuse that
-- one, as documented.
pub record Kernel : Type 0 where
  pub new_socket : Option ℕ
  pub takes_accept : ℕ → Bool
  pub takes_receive : Option ℕ → Bool
  pub takes_send : Option ℕ → Bool
  pub invalid_receive : takes_receive none ≡ false
  pub invalid_send : takes_send none ≡ false

-- The members of Session that the network threads use.
pub record Conn : Type 0 where
  pub socket : Option ℕ
  pub state : PlayerState
  pub last_tick : ℕ
  pub recv_buffer : RingBuffer
  pub send_queue : List SendBuffer
  pub sending_list : List SendBuffer
  pub is_sending : Bool
  pub posted : List (List ℕ)

-- All sessions, the pools, and in order: the sockets closed, the jobs pushed (each with its session),
-- and the sessions whose AcceptEx or WSARecv is posted.
pub record Network : Type 0 where
  pub conns : ℕ → Conn
  pub manager : SessionManager
  pub pool : List SendBuffer
  pub closed : List ℕ
  pub jobs : List (ℕ × Packet)
  pub accepting : List ℕ
  pub receiving : List ℕ

abbrev pub set_conn : ℕ → Conn → Network → Network
set_conn a c n = record n { conns = set_at n.conns a c }

-- The send half of a session, with the pool that all share.
abbrev pub sender_of : ℕ → Network → Sender
sender_of a n =
    let c = n.conns a in
    record {
      send_queue = c.send_queue;
      sending_list = c.sending_list;
      is_sending = c.is_sending;
      pool = n.pool;
      posted = c.posted;
    }

abbrev pub with_sender : Sender → Conn → Conn
with_sender s c = record c {
  send_queue = s.send_queue;
  sending_list = s.sending_list;
  is_sending = s.is_sending;
  posted = s.posted;
}

abbrev pub sockets_of : Option ℕ → List ℕ
sockets_of none = []
sockets_of (some socket) = socket ∷ []

-- Session::Clear: the state, the player and its id stay.
unfoldable pub clear_session : ℕ → Network → Network
clear_session a n =
    let c = n.conns a in
    let s = clear_sends (sender_of a n) in
    record n {
      conns =
          set_at n.conns a
            (record (with_sender s c) { socket = none; recv_buffer = Ring.clear c.recv_buffer });
      pool = s.pool;
      closed = n.closed ++ sockets_of c.socket;
    }

-- SessionManager::Release.
unfoldable pub release_conn : ℕ → Network → Network
release_conn a n =
    let n' = clear_session a n in record n' { manager = release_session a n'.manager }

-- `this->Clear(); SessionManager::Get()->Release(this);`
unfoldable pub drop_conn : ℕ → Network → Network
drop_conn a n = release_conn a (clear_session a n)

-- The buffer is full: no continuous space, and no room for a header.
unfoldable pub is_full : RingBuffer → Bool
is_full r = leb (get_continuous_free_size r) 0 && ltb (get_free_size r) header_size

unfoldable pub register_recv : Kernel → ℕ → Network → Network
unfolding is_full
register_recv k a n =
    let c = n.conns a in
    if is_full c.recv_buffer
    then drop_conn a n
    else if k.takes_receive c.socket
    then record n { receiving = n.receiving ++ (a ∷ []) }
    else drop_conn a n

-- The Clear of a malformed header.
unfoldable pub clear_if : Outcome → ℕ → Network → Network
clear_if waiting a n = n
clear_if cleared a n = clear_session a n
clear_if out_of_fuel a n = n

-- The jobs of ProcessPackets.
unfoldable pub receive_packets : ℕ → List ℕ → Network → Network
unfolding clear_if
receive_packets a bytes n =
    let c = n.conns a in
    let done = on_recv c.recv_buffer bytes in
    clear_if done.outcome a (record (set_conn a (record c { recv_buffer = done.buffer }) n) {
      jobs = n.jobs ++ map (λ p. (a, p)) done.jobs;
    })

-- Session::OnRecv; an empty receive is the end of the connection.
unfoldable pub on_recv_conn : Kernel → ℕ → List ℕ → Network → Network
on_recv_conn k a [] n = drop_conn a n
on_recv_conn k a (byte ∷ bytes) n = register_recv k a (receive_packets a (byte ∷ bytes) n)

-- Session::OnSend.
unfoldable pub on_send_conn : Kernel → ℕ → Network → Network
on_send_conn k a n =
    let s = on_send (k.takes_send (n.conns a).socket) (sender_of a n) in
    record (set_conn a (with_sender s (n.conns a)) n) { pool = s.pool }

-- Listener::RegisterAccept: a new socket, and AcceptEx on it. The old socket is not closed.
unfoldable pub register_accept : Kernel → ℕ → Network → Network
register_accept k a n = elim k.new_socket [
  | none ↦ n
  | some socket ↦
      let n' = set_conn a (record (n.conns a) { socket = some socket }) n in
      if k.takes_accept socket then record n' { accepting = n'.accepting ++ (a ∷ []) } else n'
]

-- The next accept, on a session of the pool if there is one.
unfoldable pub accept_next : Kernel → Option ℕ × SessionManager → Network → Network
accept_next k (none, m) n = record n { manager = m }
accept_next k (some a, m) n = register_accept k a (record n { manager = m })

-- HandleSessionDisconnect, and the same lines twice in Dispatch: the end of a connection.
unfoldable pub end_conn : Kernel → ℕ → Network → Network
end_conn k a n = register_accept k a (clear_session a n)

-- Which of a session's OVERLAPPED structures an operation was posted with.
pub data Operation : Type 0 where
  accept_operation recv_operation send_operation : Operation

-- What GetQueuedCompletionStatus reports: nothing (a timeout), an accepted connection, a receive with
-- its bytes, a send with the number of its bytes, or a failed operation of a session.
pub data Completion : Type 0 where
  timed_out : Completion
  accepted : ℕ → Completion
  received : ℕ → List ℕ → Completion
  sent : ℕ → ℕ → Completion
  failed : Operation → ℕ → Completion

-- One element less.
abbrev pub remove_one : ℕ → List ℕ → List ℕ
remove_one a [] = []
remove_one a (b ∷ bs) = if b == a then bs else b ∷ remove_one a bs

-- A completed operation is no longer posted.
abbrev pub completed : Operation → ℕ → Network → Network
completed accept_operation a n = record n { accepting = remove_one a n.accepting }
completed recv_operation a n = record n { receiving = remove_one a n.receiving }
completed send_operation a n = n

-- What Dispatch does for an accepted connection. `now` is the clock that UpdateLastTick reads.
unfoldable pub on_accepted : Kernel → ℕ → ℕ → Network → Network
on_accepted k now a n =
    let c = record (n.conns a) { state = PlayerState.connected; last_tick = now } in
    let n' = register_recv k a (set_conn a c n) in accept_next k (acquire n'.manager) n'

-- IocpCore::Dispatch, with its listener set.
unfoldable pub dispatch : Kernel → ℕ → Completion → Network → Network
dispatch k now timed_out n = n
dispatch k now (accepted a) n = on_accepted k now a (completed accept_operation a n)
dispatch k now (received a []) n = end_conn k a (completed recv_operation a n)
dispatch k now (received a (byte ∷ bytes)) n =
    on_recv_conn k a (byte ∷ bytes) (completed recv_operation a n)
dispatch k now (sent a zero) n = end_conn k a n
dispatch k now (sent a (suc len)) n = on_send_conn k a n
dispatch k now (failed op a) n = end_conn k a (completed op a n)
