-- ===== src/Network/Twice.antt =====
-- A malformed packet while a send is under way (Session::OnRecv of
-- MMO/Server/Network/Source/Session.cpp, and MMO/Server/Core/IocpCore.cpp).
use mmorpg_server.Base.{
  ℕ, suc, ◌≤◌, ◌≡◌, refl, ap, ◌∙◌, true, none, some, List, ◌∷◌, ◌++◌, map, length, Bool-cases, inl,
  inr,
}
use mmorpg_server.Grid.{contains}
use mmorpg_server.Ring.{get_free_size, get_continuous_free_size}
use mmorpg_server.Ring.Contents.{IsValid, contents}
use mmorpg_server.Ring.Continuous.{receive_lem}
use mmorpg_server.Framing.{cleared}
use mmorpg_server.Framing.Stream.{parse}
use mmorpg_server.Framing.Receive.{on_recv, process_lem}
use mmorpg_server.SessionPool.{release_session}
use mmorpg_server.Network.{
  set_conn, Kernel, Network, recv_operation, send_operation, received, failed, clear_session,
  release_conn, drop_conn, is_full, register_recv, receive_packets, on_recv_conn, end_conn,
  completed, dispatch,
}
use mmorpg_server.Network.Ends.{contains-append_self, clear_session_conn, register_accept_opens}
use mmorpg_server.Network.Accepts.{Opens}

-- The operating system refuses the receive on the closed socket.
register_recv_closed :
    (k : Kernel) (a : ℕ) (n : Network)
    → (n.conns a).socket ≡ none
    → register_recv k a n ≡ drop_conn a n
unfolding register_recv
register_recv_closed k a n e = elim (Bool-cases (is_full (n.conns a).recv_buffer)) [
  | inl full ↦ rw full refl
  | inr room ↦ rw (room, e, k.invalid_receive) refl
]

drop_conn_frees : (a : ℕ) (n : Network) → contains (drop_conn a n).manager.free_sessions a ≡ true
unfolding drop_conn release_conn release_session
drop_conn_frees a n =
    contains-append_self (clear_session a (clear_session a n)).manager.free_sessions a

drop_conn_socket : (a : ℕ) (n : Network) → ((drop_conn a n).conns a).socket ≡ none
unfolding drop_conn release_conn
drop_conn_socket a n = ap (λ c. c.socket) (clear_session_conn a (clear_session a n))

-- The jobs pushed, and the buffer.
abbrev delivered : ℕ → List ℕ → Network → Network
delivered a bytes n =
    let c = n.conns a in
    let done = on_recv c.recv_buffer bytes in
    record (set_conn a (record c { recv_buffer = done.buffer }) n) {
      jobs = n.jobs ++ map (λ p. (a, p)) done.jobs;
    }

malformed_cleared :
    (a : ℕ) (bytes : List ℕ) (n : Network)
    → IsValid (n.conns a).recv_buffer
    → length bytes ≤ get_continuous_free_size (n.conns a).recv_buffer
    → length bytes ≤ get_free_size (n.conns a).recv_buffer
    → (parse (contents (n.conns a).recv_buffer ++ bytes)).outcome ≡ cleared
    → receive_packets a bytes n ≡ clear_session a (delivered a bytes n)
unfolding receive_packets on_recv
malformed_cleared a bytes n v fits free bad =
    let r = (n.conns a).recv_buffer in
    let got = receive_lem bytes v fits free in
    let stops : (on_recv r bytes).outcome ≡ cleared =
      (process_lem got.1).0.outcome ∙ ap (λ xs. (parse xs).outcome) got.0 ∙ bad in
    rw stops refl

end_conn_again :
    (k : Kernel) (socket a : ℕ) (n : Network)
    → k.new_socket ≡ some socket
    → k.takes_accept socket ≡ true
    → contains n.manager.free_sessions a ≡ true
    → (contains (end_conn k a n).manager.free_sessions a ≡ true)
      × (contains (end_conn k a n).accepting a ≡ true)
unfolding end_conn clear_session
end_conn_again k socket a n e f in_pool =
    rw (register_accept_opens k socket a (clear_session a n) e f)
      (in_pool, contains-append_self n.accepting a)

-- A malformed header in what a receive brings: Clear closes the session and Release puts it into the
-- pool, from which Acquire hands it out again. If a send of the session was under way, the completion of
-- that send, which fails with the socket, makes Dispatch post an accept on the same session: it is in
-- the pool and waits for a connection at once.
pub malformed_twice :
    (k k' : Kernel) (now now' a byte : ℕ) (bytes : List ℕ) (n : Network)
    → IsValid (n.conns a).recv_buffer
    → suc (length bytes) ≤ get_continuous_free_size (n.conns a).recv_buffer
    → suc (length bytes) ≤ get_free_size (n.conns a).recv_buffer
    → (parse (contents (n.conns a).recv_buffer ++ (byte ∷ bytes))).outcome ≡ cleared
    → Opens k'
    → let after = dispatch k now (received a (byte ∷ bytes)) n in
      let later = dispatch k' now' (failed send_operation a) after in
      (contains after.manager.free_sessions a ≡ true)
      × ((after.conns a).socket ≡ none)
      × (contains later.manager.free_sessions a ≡ true)
      × (contains later.accepting a ≡ true)
unfolding dispatch on_recv_conn
malformed_twice k k' now now' a byte bytes n v fits free bad (socket, e, f) =
    let m = completed recv_operation a n in
    let ended = clear_session a (delivered a (byte ∷ bytes) m) in
    let after_lem : register_recv k a (receive_packets a (byte ∷ bytes) m) ≡ drop_conn a ended =
      ap (register_recv k a) (malformed_cleared a (byte ∷ bytes) m v fits free bad)
      ∙ register_recv_closed k a ended
          (ap (λ c. c.socket) (clear_session_conn a (delivered a (byte ∷ bytes) m))) in
    let again = end_conn_again k' socket a (drop_conn a ended) e f (drop_conn_frees a ended) in
    rw after_lem (drop_conn_frees a ended, drop_conn_socket a ended, again.0, again.1)
