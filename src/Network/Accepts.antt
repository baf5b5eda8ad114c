-- ===== src/Network/Accepts.antt =====
-- Where a session is: in the pool, waiting for a connection, or in use (MMO/Server/Core/IocpCore.cpp,
-- MMO/Server/Network/Source/SessionManager.cpp).
use mmorpg_server.Base.{
  ℕ, ◌+◌, ◌≡◌, ap, ◌∙◌, Bool, true, not, ◌&&◌, some, List, [], ◌∷◌, arith, ◌==◌, if◌then◌else◌,
  Bool-cases, inl, inr,
}
use mmorpg_server.Grid.{contains}
use mmorpg_server.SessionPool.{SessionManager, acquire_from, release_session}
use mmorpg_server.SessionPool.Once.{count, count-append}
use mmorpg_server.Network.{
  Kernel, Conn, Network, clear_session, drop_conn, release_conn, is_full, register_recv,
  register_accept, accept_next, end_conn, remove_one, receive_packets,
}

-- How often a session is in the pool or waits for a connection.
abbrev pub waits : ℕ → Network → ℕ
waits b n = count b n.manager.free_sessions + count b n.accepting

-- A receive is posted: neither the buffer nor the operating system refuses it.
abbrev pub is_posted : Kernel → Conn → Bool
is_posted k c = not (is_full c.recv_buffer) && k.takes_receive c.socket

-- The operating system gives a socket and takes the accept.
abbrev pub Opens : Kernel → Type 0
Opens k = (socket : ℕ) × (k.new_socket ≡ some socket) × (k.takes_accept socket ≡ true)

pub count-remove_one :
    (b a : ℕ) (xs : List ℕ)
    → contains xs a ≡ true
    → count b (remove_one a xs) + count b (a ∷ []) ≡ count b xs
count-remove_one b a [] e = ground (arith, e)
count-remove_one b a (x ∷ xs) e = elim (Bool-cases (x == a)) [
  | inl same ↦ ground (arith, e, same)
  | inr ne ↦ ground (arith, ne, count-remove_one b a xs (ground (arith, e, ne)))
]

pub waits-register_accept :
    (b a : ℕ) (k : Kernel) (n : Network)
    → Opens k
    → waits b (register_accept k a n) ≡ waits b n + count b (a ∷ [])
unfolding register_accept
waits-register_accept b a k n (socket, e, f) =
    rw (e, f) (omega (arith, count-append b n.accepting (a ∷ [])))

pub waits-end_conn :
    (b a : ℕ) (k : Kernel) (n : Network)
    → Opens k
    → waits b (end_conn k a n) ≡ waits b n + count b (a ∷ [])
unfolding end_conn clear_session
waits-end_conn b a k n opens = waits-register_accept b a k (clear_session a n) opens

pub waits-register_recv :
    (b a : ℕ) (k : Kernel) (n : Network)
    → waits b (register_recv k a n)
      ≡ waits b n + (if is_posted k (n.conns a) then 0 else count b (a ∷ []))
unfolding register_recv drop_conn release_conn release_session clear_session
waits-register_recv b a k n = ground (arith, count-append b n.manager.free_sessions (a ∷ []))

pub waits-accept_next :
    (b : ℕ) (k : Kernel) (free : List ℕ) (m : SessionManager) (n : Network)
    → Opens k
    → m.free_sessions ≡ free
    → waits b (accept_next k (acquire_from free m) n) ≡ count b free + count b n.accepting
unfolding accept_next acquire_from
waits-accept_next b k [] m n opens e = ap (λ free. count b free + count b n.accepting) e
waits-accept_next b k (x ∷ free) m n opens e =
    waits-register_accept b x k (record n { manager = record m { free_sessions = free } }) opens
    ∙ ground arith

pub waits-receive_packets :
    (b a : ℕ) (bytes : List ℕ) (n : Network) → waits b (receive_packets a bytes n) ≡ waits b n
unfolding receive_packets clear_session
waits-receive_packets b a bytes n = ground arith
