-- ===== src/Network/Startup.antt =====
-- The start of the server (MMO/Server/Main.cpp): the pools and the first accepts.
use mmorpg_server.Base.{
  ℕ, ◌+◌, ◌≡◌, refl, ◌∙◌, false, ◌&&◌, none, List, [], ◌∷◌, arith, ltb, leb, if◌then◌else◌,
}
use mmorpg_server.Ring.{new_ring}
use mmorpg_server.Send.{init_pool}
use mmorpg_server.Platform.{PlayerState}
use mmorpg_server.SessionPool.{no_sessions, init, acquire}
use mmorpg_server.SessionPool.Once.{count, count-init}
use mmorpg_server.Network.{Kernel, Conn, Network, accept_next}
use mmorpg_server.Network.Accepts.{waits, Opens, waits-accept_next}
use mmorpg_server.Network.Turns.{Tracked, Turns, Turns-waits}

abbrev pub session_count : ℕ
session_count = 2320

abbrev pub buffer_count : ℕ
buffer_count = 8000

abbrev pub ring_capacity : ℕ
ring_capacity = 8192

-- A session as its constructor leaves it.
unfoldable pub new_conn : Conn
new_conn = record {
  socket = none;
  state = PlayerState.none;
  last_tick = 0;
  recv_buffer = new_ring ring_capacity;
  send_queue = [];
  sending_list = [];
  is_sending = false;
  posted = [];
}

-- The pools filled; the sessions stand at the addresses from `first` on.
unfoldable pub new_network : ℕ → Network
unfolding no_sessions
new_network first = record {
  conns = λ a. new_conn;
  manager = init session_count first no_sessions;
  pool = init_pool buffer_count [];
  closed = [];
  jobs = [];
  accepting = [];
  receiving = [];
}

-- The loop that posts the first accepts, a round for each kernel.
unfoldable pub start_accepts : List Kernel → Network → Network
start_accepts [] n = n
start_accepts (k ∷ kernels) n = start_accepts kernels (accept_next k (acquire n.manager) n)

unfoldable pub start_server : ℕ → List Kernel → Network
start_server first kernels = start_accepts kernels (new_network first)

abbrev pub AllOpen : List Kernel → Type 0
AllOpen [] = Unit {0}
AllOpen (k ∷ kernels) = Opens k × AllOpen kernels

waits-start_accepts :
    (b : ℕ) (kernels : List Kernel) (n : Network)
    → AllOpen kernels
    → waits b (start_accepts kernels n) ≡ waits b n
unfolding start_accepts
waits-start_accepts b [] n all = refl
waits-start_accepts b (k ∷ kernels) n all =
    waits-start_accepts b kernels (accept_next k (acquire n.manager) n) all.1
    ∙ waits-accept_next b k n.manager.free_sessions n.manager n all.0 refl

-- From the start of the server on, whatever operations complete, in any order, also on a socket that was
-- closed, if an accept completes only where it is posted and the operating system gives sockets and takes
-- accepts: how often a session is in the pool or waits for a connection is once for each of the 2,320
-- sessions, and never for another, less its accepts that completed or failed, plus the ends of its connections that
-- Dispatch saw. (A connection that ends twice thus has its session twice.)
pub serve_balance :
    (b first : ℕ) (kernels : List Kernel) {t : Tracked}
    → AllOpen kernels
    → Turns (record { net = start_server first kernels; begun = []; ended = [] }) t
    → waits b t.net + count b t.begun
      ≡ (if leb first b && ltb b (first + session_count) then 1 else 0) + count b t.ended
unfolding start_server new_network no_sessions
serve_balance b first kernels all turns = omega (
  arith,
  Turns-waits b turns,
  waits-start_accepts b kernels (new_network first) all,
  count-init b session_count first no_sessions,
)
