-- ===== src/Tests/Networks.antt =====
-- Runs of the network threads (MMO/Server/Core/IocpCore.cpp).
use mmorpg_server.Base.{
  ◌+◌, ℕ, zero, suc, ap, ◌++◌, ◌≡◌, refl, Bool, true, false, Option, none, some, List, [], ◌∷◌,
  arith,
}
use mmorpg_server.Grid.{contains}
use mmorpg_server.Ring.{new_ring, get_free_size, get_continuous_free_size}
use mmorpg_server.Ring.Contents.{IsValid}
use mmorpg_server.Send.Buffers.{IsPool}
use mmorpg_server.Framing.{cleared}
use mmorpg_server.Framing.Stream.{parse}
use mmorpg_server.Platform.{PlayerState}
use mmorpg_server.SessionPool.{SessionManager, no_sessions, init, acquire, acquire_from}
use mmorpg_server.Network.{
  Kernel, Conn, Network, accept_next, register_accept, accepted, received, failed, send_operation,
  dispatch,
}
use mmorpg_server.Network.Accepts.{Opens}
use mmorpg_server.Network.Turns.{Tracked, here, next, turn}
use mmorpg_server.Network.Accepts.{waits}
use mmorpg_server.SessionPool.Once.{count}
use mmorpg_server.Network.Startup.{
  start_server, start_accepts, new_network, new_conn, serve_balance,
}
use mmorpg_server.Network.Ends.{IsReady, dispatch_end}
use mmorpg_server.Network.Twice.{malformed_twice}
use mmorpg_server.Network.Valid.{IsSafe, dispatch-IsSafe}
use mmorpg_server.Tests.Sends.{two_buffers}

-- An operating system that gives the socket 900 and takes every call on a socket.
abbrev has_socket : Option ℕ → Bool
has_socket none = false
has_socket (some socket) = true

abbrev kernel : Kernel
kernel = record {
  new_socket = some 900;
  takes_accept = λ socket. true;
  takes_receive = has_socket;
  takes_send = has_socket;
  invalid_receive = refl;
  invalid_send = refl;
}

kernel-Opens : Opens kernel
kernel-Opens = (900, refl, refl)

-- Session 3 is connected on socket 700, and a send of it is under way. Its ring holds 15 bytes.
abbrev busy_conn : Conn
busy_conn = record new_conn {
  socket = some 700;
  state = PlayerState.connected;
  recv_buffer = new_ring 15;
  sending_list = two_buffers;
  is_sending = true;
}

abbrev busy_network : Network
busy_network = record {
  conns = λ a. busy_conn;
  manager = record { sessions = 3 ∷ 4 ∷ []; free_sessions = 4 ∷ [] };
  pool = [];
  closed = [];
  jobs = [];
  accepting = [];
  receiving = 3 ∷ [];
}

-- The first session of the pool stays the first while more are put behind it.
first_stays :
    (count address x : ℕ) (xs : List ℕ) (m : SessionManager)
    → m.free_sessions ≡ x ∷ xs
    → (ys : List ℕ) × ((init count address m).free_sessions ≡ x ∷ ys)
unfolding init
first_stays zero address x xs m e = (xs, e)
first_stays (suc count) address x xs m e =
    first_stays count (suc address) x (xs ++ (address ∷ []))
      (record {
        sessions = m.sessions ++ (address ∷ []);
        free_sessions = m.free_sessions ++ (address ∷ []);
      })
      (ap (λ ys. ys ++ (address ∷ [])) e)

one_accept :
    (x : ℕ) (ys : List ℕ) (n : Network)
    → n.manager.free_sessions ≡ x ∷ ys
    → n.accepting ≡ []
    → (accept_next kernel (acquire n.manager) n).accepting ≡ x ∷ []
unfolding accept_next acquire_from register_accept
one_accept x ys n e f = rw (e, f) refl

first_accept : contains (start_server 1000 (kernel ∷ [])).accepting 1000 ≡ true
unfolding start_server start_accepts new_network no_sessions init
first_accept =
    let (ys, e) =
      first_stays 2319 1001 1000 [] (record { sessions = 1000 ∷ []; free_sessions = 1000 ∷ [] })
        refl in
    ap (λ xs. contains xs 1000) (one_accept 1000 ys (new_network 1000) e refl)

-- A connection of the first session, whose send then fails, and after the end its receive.
abbrev connected_once : Tracked
connected_once =
    turn kernel 50 (accepted 1000)
      (record { net = start_server 1000 (kernel ∷ []); begun = []; ended = [] })

serve_balance_example :
    let after =
      turn kernel 52
        (received 1000 [])
        (turn kernel 51 (failed send_operation 1000) connected_once) in
    waits 1000 after.net + count 1000 after.begun ≡ 1 + count 1000 after.ended
serve_balance_example =
    serve_balance 1000 1000 (kernel ∷ []) (kernel-Opens, tt)
      (next kernel 52 (received 1000 [])
        (next kernel 51 (failed send_operation 1000)
          (next kernel 50 (accepted 1000) here kernel-Opens first_accept) kernel-Opens refl)
        kernel-Opens refl)

busy_ring-IsValid : IsValid (new_ring 15)
unfolding new_ring
busy_ring-IsValid = record { storage = refl; read_in = omega arith; write_in = omega arith }

no_buffers-IsPool : IsPool []
no_buffers-IsPool = record { standard = tt; bounded = omega arith }

dispatch_end_example :
    IsReady 900 3 busy_network.conns [] []
      (dispatch kernel 60 (failed send_operation 3) busy_network)
dispatch_end_example =
    dispatch_end kernel 60 (failed send_operation 3) 900 3 busy_network refl refl refl
      no_buffers-IsPool

dispatch-IsSafe_example : IsSafe (dispatch kernel 60 (received 3 (4 ∷ 0 ∷ 5 ∷ 0 ∷ [])) busy_network)
unfolding new_conn get_continuous_free_size new_ring
dispatch-IsSafe_example =
    dispatch-IsSafe kernel 60 (received 3 (4 ∷ 0 ∷ 5 ∷ 0 ∷ [])) busy_network
      (record { rings = λ a. busy_ring-IsValid; buffers = no_buffers-IsPool }) (omega arith)

-- A header of size 0.
malformed_twice_example :
    let after = dispatch kernel 60 (received 3 (0 ∷ 0 ∷ 5 ∷ 0 ∷ [])) busy_network in
    let later = dispatch kernel 61 (failed send_operation 3) after in
    (contains after.manager.free_sessions 3 ≡ true)
    × ((after.conns 3).socket ≡ none)
    × (contains later.manager.free_sessions 3 ≡ true)
    × (contains later.accepting 3 ≡ true)
unfolding new_conn get_continuous_free_size new_ring get_free_size parse
    mmorpg_server.Framing.Stream.parse_with mmorpg_server.Framing.bad_size
    mmorpg_server.Protocol.read_header
malformed_twice_example =
    malformed_twice kernel kernel 60 61 3 0 (0 ∷ 5 ∷ 0 ∷ []) busy_network busy_ring-IsValid
      (omega arith) (omega arith) refl kernel-Opens
