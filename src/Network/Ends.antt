-- ===== src/Network/Ends.antt =====
-- What is left of a session whose connection ends (MMO/Server/Core/IocpCore.cpp and Session::Clear of
-- MMO/Server/Network/Source/Session.cpp).
use mmorpg_server.Base.{
  length, min, ◌+◌, ℕ, zero, suc, ◌≡◌, refl, ap, ◌∙◌, true, false, Option, none, some, List, [],
  ◌∷◌, ◌++◌, arith, ◌==◌, ==_refl,
}
use mmorpg_server.Grid.{contains}
use mmorpg_server.Ring.{RingBuffer, get_use_size}
use mmorpg_server.Ring
use mmorpg_server.Ring.Contents.{contents}
use mmorpg_server.Send.{SendBuffer, pool_limit, clear_sends, release_all}
use mmorpg_server.Send.Buffers.{IsPool, release_all-IsPool, standard_count, length-release_all}
use mmorpg_server.Game.{set_at}
use mmorpg_server.Network.{
  set_conn, Kernel, Conn, Network, Operation, accept_operation, recv_operation, send_operation,
  Completion, timed_out, accepted, received, sent, failed, sockets_of, clear_session,
  register_accept, end_conn, completed, dispatch,
}

-- The session whose connection a completion ends.
abbrev pub ends_at : Completion → Option ℕ
ends_at timed_out = none
ends_at (accepted a) = none
ends_at (received a []) = some a
ends_at (received a (byte ∷ bytes)) = none
ends_at (sent a zero) = some a
ends_at (sent a (suc len)) = none
ends_at (failed op a) = some a

-- A session ready for the next connection on `socket`.
pub record IsReady (socket a : ℕ) (conns : ℕ → Conn) (closed : List ℕ) (pool : List SendBuffer)
    (after : Network) : Type 0 where
  pub fresh : (after.conns a).socket ≡ some socket
  pub nothing_held : contents (after.conns a).recv_buffer ≡ []
  pub nothing_queued : (after.conns a).send_queue ≡ []
  pub nothing_sending : (after.conns a).sending_list ≡ []
  pub idle : (after.conns a).is_sending ≡ false
  pub closes : after.closed ≡ closed ++ sockets_of (conns a).socket
  pub waits_again : contains after.accepting a ≡ true
  pub pool_kept : IsPool after.pool
  pub buffers_back :
      length after.pool
      ≡ min pool_limit (
          length pool
          + (standard_count (conns a).send_queue + standard_count (conns a).sending_list))
  pub same_state : (after.conns a).state ≡ (conns a).state
  pub others_kept : (b : ℕ) → (a == b) ≡ false → after.conns b ≡ conns b

pub contains-append_self : (xs : List ℕ) (a : ℕ) → contains (xs ++ (a ∷ [])) a ≡ true
contains-append_self [] a = ground arith
contains-append_self (x ∷ xs) a = ground (arith, contains-append_self xs a)

empty-clear : (r : RingBuffer) → contents (Ring.clear r) ≡ []
unfolding Ring.clear get_use_size
empty-clear r = refl

pub set_at_self {ℓ} : {A : Type ℓ} (f : ℕ → A) (a : ℕ) (v : A) → set_at f a v a ≡ v
set_at_self f a v = rw (==_refl a) refl

-- What Clear leaves of the session's members.
abbrev pub cleared_conn : Conn → Conn
cleared_conn c = record c {
  socket = none;
  recv_buffer = Ring.clear c.recv_buffer;
  send_queue = [];
  sending_list = [];
  is_sending = false;
}

pub clear_session_conn :
    (a : ℕ) (n : Network) → (clear_session a n).conns a ≡ cleared_conn (n.conns a)
unfolding clear_session clear_sends
clear_session_conn a n = set_at_self n.conns a (cleared_conn (n.conns a))

clear_session_other :
    (a b : ℕ) (n : Network) → (a == b) ≡ false → (clear_session a n).conns b ≡ n.conns b
unfolding clear_session
clear_session_other a b n ne = rw ne refl

pub clear_session-IsPool : (a : ℕ) (n : Network) → IsPool n.pool → IsPool (clear_session a n).pool
unfolding clear_session clear_sends
clear_session-IsPool a n pool =
    let c = n.conns a in
    release_all-IsPool c.sending_list (release_all c.send_queue n.pool)
      (release_all-IsPool c.send_queue n.pool pool)

clear_session_pool :
    (a : ℕ) (n : Network)
    → IsPool n.pool
    → length (clear_session a n).pool
      ≡ min pool_limit (
          length n.pool
          + (standard_count (n.conns a).send_queue + standard_count (n.conns a).sending_list))
unfolding clear_session clear_sends
clear_session_pool a n pool =
    let c = n.conns a in
    let queued = length-release_all c.send_queue n.pool pool.bounded in
    let sending =
      length-release_all c.sending_list (release_all c.send_queue n.pool) (omega (arith, queued)) in
    omega (arith, queued, sending)

clear_session_closed :
    (a : ℕ) (n : Network) → (clear_session a n).closed ≡ n.closed ++ sockets_of (n.conns a).socket
unfolding clear_session
clear_session_closed a n = refl

abbrev pub accepted_on : ℕ → ℕ → Network → Network
accepted_on socket a n = record (set_conn a (record (n.conns a) { socket = some socket }) n) {
  accepting = n.accepting ++ (a ∷ []);
}

pub register_accept_opens :
    (k : Kernel) (socket a : ℕ) (n : Network)
    → k.new_socket ≡ some socket
    → k.takes_accept socket ≡ true
    → register_accept k a n ≡ accepted_on socket a n
unfolding register_accept
register_accept_opens k socket a n e f = simp (register_accept, e, f)

accepted_on-IsReady :
    (socket a : ℕ) (n : Network)
    → IsPool n.pool
    → IsReady socket a n.conns n.closed n.pool (accepted_on socket a (clear_session a n))
accepted_on-IsReady socket a n pool =
    let m = clear_session a n in
    let at_a : (accepted_on socket a m).conns a
        ≡ record (cleared_conn (n.conns a)) { socket = some socket } =
      set_at_self m.conns a (record (m.conns a) { socket = some socket })
      ∙ ap (λ (c : Conn). record c { socket = some socket }) (clear_session_conn a n) in
    record {
      fresh = ap (λ c. c.socket) at_a;
      nothing_held = ap (λ c. contents c.recv_buffer) at_a ∙ empty-clear (n.conns a).recv_buffer;
      nothing_queued = ap (λ c. c.send_queue) at_a;
      nothing_sending = ap (λ c. c.sending_list) at_a;
      idle = ap (λ c. c.is_sending) at_a;
      closes = clear_session_closed a n;
      waits_again = contains-append_self m.accepting a;
      pool_kept = clear_session-IsPool a n pool;
      buffers_back = clear_session_pool a n pool;
      same_state = ap (λ c. c.state) at_a;
      others_kept = λ b ne. rw ne (clear_session_other a b n ne);
    }

end_conn-IsReady :
    (k : Kernel) (socket a : ℕ) (n : Network)
    → k.new_socket ≡ some socket
    → k.takes_accept socket ≡ true
    → IsPool n.pool
    → IsReady socket a n.conns n.closed n.pool (end_conn k a n)
unfolding end_conn
end_conn-IsReady k socket a n e f pool =
    rw (register_accept_opens k socket a (clear_session a n) e f)
      (accepted_on-IsReady socket a n pool)

some_inj : {a b : ℕ} → some a ≡ some b → a ≡ b
some_inj e = cc

none_not_some : {a : ℕ} → ◌≡◌ {A = Option ℕ} none (some a) → ⊥
none_not_some e = cc

failed-IsReady :
    (k : Kernel) (socket : ℕ) (op : Operation) (a : ℕ) (n : Network)
    → k.new_socket ≡ some socket
    → k.takes_accept socket ≡ true
    → IsPool n.pool
    → IsReady socket a n.conns n.closed n.pool (end_conn k a (completed op a n))
failed-IsReady k socket accept_operation a n e f pool =
    end_conn-IsReady k socket a (completed accept_operation a n) e f pool
failed-IsReady k socket recv_operation a n e f pool =
    end_conn-IsReady k socket a (completed recv_operation a n) e f pool
failed-IsReady k socket send_operation a n e f pool = end_conn-IsReady k socket a n e f pool

-- Whichever way a connection ends that Dispatch sees (a failed operation of any kind, or a receive or
-- send of no bytes), if the operating system gives a socket and takes the accept: the session has the
-- new socket, an empty receive buffer and nothing to send, its accept is posted, its old socket is closed.
-- The pool holds standard buffers only, at most 10,000, and of those that the session held, queued or under
-- way, each one of the standard size more, as far as there is room. Its game state is what it was, and no
-- other session changes. (The pool was such a pool before.)
pub dispatch_end :
    (k : Kernel) (now : ℕ) (c : Completion) (socket a : ℕ) (n : Network)
    → ends_at c ≡ some a
    → k.new_socket ≡ some socket
    → k.takes_accept socket ≡ true
    → IsPool n.pool
    → IsReady socket a n.conns n.closed n.pool (dispatch k now c n)
unfolding dispatch
dispatch_end k now timed_out socket a n at e f pool = absurd (none_not_some at)
dispatch_end k now (accepted b) socket a n at e f pool = absurd (none_not_some at)
dispatch_end k now (received b []) socket a n at e f pool =
    rw (← some_inj at) (end_conn-IsReady k socket b (completed recv_operation b n) e f pool)
dispatch_end k now (received b (byte ∷ bytes)) socket a n at e f pool = absurd (none_not_some at)
dispatch_end k now (sent b zero) socket a n at e f pool =
    rw (← some_inj at) (end_conn-IsReady k socket b n e f pool)
dispatch_end k now (sent b (suc len)) socket a n at e f pool = absurd (none_not_some at)
dispatch_end k now (failed op b) socket a n at e f pool =
    rw (← some_inj at) (failed-IsReady k socket op b n e f pool)
