-- ===== src/Network/Turns.antt =====
-- Runs of Dispatch (MMO/Server/Core/IocpCore.cpp): any completions, in any order, also of operations on a
-- socket that was closed, with what connections were begun and ended.
use mmorpg_server.Base.{
  ℕ, zero, suc, ◌+◌, ◌≡◌, refl, ap, ◌∙◌, Bool, true, List, [], ◌∷◌, ◌++◌, arith, ==_refl, ==_refl,
  if◌then◌else◌,
}
use mmorpg_server.Grid.{contains}
use mmorpg_server.Platform.{PlayerState}
use mmorpg_server.SessionPool.Once.{count, count-append}
use mmorpg_server.Network.{
  Kernel, Network, accept_operation, recv_operation, send_operation, Completion, timed_out,
  accepted, received, sent, failed, set_conn, register_recv, receive_packets, on_recv_conn,
  on_send_conn, on_accepted, completed, dispatch,
}
use mmorpg_server.Network.Accepts.{
  waits, is_posted, Opens, count-remove_one, waits-end_conn, waits-register_recv, waits-accept_next,
  waits-receive_packets,
}

-- The network; and with a session for each time, the accepts that completed, and the ends of connections
-- that Dispatch saw.
pub record Tracked : Type 0 where
  pub net : Network
  pub begun : List ℕ
  pub ended : List ℕ

-- An accept completes, or fails, only if it is posted.
abbrev pub is_known : Completion → Network → Bool
is_known (accepted a) n = contains n.accepting a
is_known (failed accept_operation a) n = contains n.accepting a
is_known _ n = true

abbrev pub begun_by : Completion → List ℕ
begun_by (accepted a) = a ∷ []
begun_by (failed accept_operation a) = a ∷ []
begun_by _ = []

-- A connection ends with a completion of no bytes or of a failed operation, and where no receive is posted.
abbrev pub ended_by : Kernel → Completion → Network → List ℕ
ended_by k timed_out n = []
ended_by k (accepted a) n = if is_posted k (n.conns a) then [] else a ∷ []
ended_by k (received a []) n = a ∷ []
ended_by k (received a (byte ∷ bytes)) n =
    if is_posted k ((receive_packets a (byte ∷ bytes) (completed recv_operation a n)).conns a)
    then []
    else a ∷ []
ended_by k (sent a zero) n = a ∷ []
ended_by k (sent a (suc len)) n = []
ended_by k (failed op a) n = a ∷ []

abbrev pub turn : Kernel → ℕ → Completion → Tracked → Tracked
turn k now c t = record {
  net = dispatch k now c t.net;
  begun = begun_by c ++ t.begun;
  ended = ended_by k c t.net ++ t.ended;
}

pub data Turns (t : Tracked) : Tracked → Type 0 where
  here : Turns t t
  next :
      {u : Tracked} (k : Kernel) (now : ℕ) (c : Completion)
      → Turns t u
      → Opens k
      → is_known c u.net ≡ true
      → Turns t (turn k now c u)

waits-on_accepted :
    (b a now : ℕ) (k : Kernel) (n : Network)
    → Opens k
    → waits b (on_accepted k now a n)
      ≡ waits b n + (if is_posted k (n.conns a) then 0 else count b (a ∷ []))
unfolding on_accepted
waits-on_accepted b a now k n opens =
    let c = record (n.conns a) { state = PlayerState.connected; last_tick = now } in
    let n' = register_recv k a (set_conn a c n) in
    waits-accept_next b k n'.manager.free_sessions n'.manager n' opens refl
    ∙ waits-register_recv b a k (set_conn a c n)
    ∙ rw (==_refl a) refl

waits-on_recv_conn :
    (b a byte : ℕ) (bytes : List ℕ) (k : Kernel) (n : Network)
    → waits b (on_recv_conn k a (byte ∷ bytes) n)
      ≡ waits b n
        + (if is_posted k ((receive_packets a (byte ∷ bytes) n).conns a)
            then 0
            else count b (a ∷ []))
unfolding on_recv_conn
waits-on_recv_conn b a byte bytes k n =
    waits-register_recv b a k (receive_packets a (byte ∷ bytes) n)
    ∙ ap
        (λ (w : ℕ).
          w
          + (if is_posted k ((receive_packets a (byte ∷ bytes) n).conns a)
              then 0
              else count b (a ∷ [])))
        (waits-receive_packets b a (byte ∷ bytes) n)

waits-on_send_conn : (b a : ℕ) (k : Kernel) (n : Network) → waits b (on_send_conn k a n) ≡ waits b n
unfolding on_send_conn
waits-on_send_conn b a k n = refl

-- One dispatch.
waits-dispatch :
    (b : ℕ) (k : Kernel) (now : ℕ) (c : Completion) (n : Network)
    → Opens k
    → is_known c n ≡ true
    → waits b (dispatch k now c n) + count b (begun_by c) ≡ waits b n + count b (ended_by k c n)
unfolding dispatch
waits-dispatch b k now timed_out n opens known = refl
waits-dispatch b k now (accepted a) n opens known = ground (
  arith,
  waits-on_accepted b a now k (completed accept_operation a n) opens,
  count-remove_one b a n.accepting known,
)
waits-dispatch b k now (received a []) n opens known =
    ground (arith, waits-end_conn b a k (completed recv_operation a n) opens)
waits-dispatch b k now (received a (byte ∷ bytes)) n opens known =
    ground (arith, waits-on_recv_conn b a byte bytes k (completed recv_operation a n))
waits-dispatch b k now (sent a zero) n opens known = ground (arith, waits-end_conn b a k n opens)
waits-dispatch b k now (sent a (suc len)) n opens known = ground (arith, waits-on_send_conn b a k n)
waits-dispatch b k now (failed accept_operation a) n opens known = ground (
  arith,
  waits-end_conn b a k (completed accept_operation a n) opens,
  count-remove_one b a n.accepting known,
)
waits-dispatch b k now (failed recv_operation a) n opens known =
    ground (arith, waits-end_conn b a k (completed recv_operation a n) opens)
waits-dispatch b k now (failed send_operation a) n opens known =
    ground (arith, waits-end_conn b a k n opens)

-- The balance of a session over a run.
pub Turns-waits :
    (b : ℕ) {t u : Tracked}
    → Turns t u
    → (waits b u.net + count b u.begun) + count b t.ended
      ≡ (waits b t.net + count b t.begun) + count b u.ended
Turns-waits b here = refl
Turns-waits b (next {u} k now c r opens known) = omega (
  arith,
  waits-dispatch b k now c u.net opens known,
  Turns-waits b r,
  count-append b (begun_by c) u.begun,
  count-append b (ended_by k c u.net) u.ended,
)
