-- ===== src/Network/Workers.antt =====
-- The listening socket (StartListen of MMO/Server/Network/Source/Listener.cpp), and the loop of a worker
-- thread (MMO/Server/Main.cpp).
use mmorpg_server.Base.{
  ℕ, ◌+◌, ◌%◌, ◌^◌, ◌<◌, ◌≡◌, refl, ◌∙◌, Bool, false, ◌&&◌, Option, none, some, List, [], ◌∷◌,
  length, arith, lt→ltb, ==_refl,
}
use mmorpg_server.Monitor.{ServerMonitor, add_count, add_worker_count, iocp_count, max_iocp_workers}
use mmorpg_server.Network.{Kernel, Network, Completion, dispatch}

-- What the calls of StartListen return: WSASocket, bind, listen, WSAIoctl and IocpCore::Register.
pub record ListenKernel : Type 0 where
  pub listen_socket : Option ℕ
  pub binds : Bool
  pub listens : Bool
  pub gives_accept_ex : Bool
  pub registers : Bool

-- m_listenSocket, and the result; after a failure the socket stays with the Listener.
unfoldable pub start_listen : ListenKernel → Option ℕ × Bool
start_listen k = elim k.listen_socket [
  | none ↦ (none, false)
  | some socket ↦ (some socket, k.binds && (k.listens && (k.gives_accept_ex && k.registers)))
]

-- `while (1)` of the worker thread with an index, for the completions that it is given, each with the clock.
unfoldable pub worker_loop :
    ℕ → List (Kernel × ℕ × Completion) → Network × ServerMonitor → Network × ServerMonitor
worker_loop idx [] s = s
worker_loop idx ((k, now, c) ∷ turns) (n, m) =
    worker_loop idx turns (dispatch k now c n, add_worker_count idx m)

-- The column of a worker counts its completions, on 32 bits.
pub worker_loop_count :
    (idx : ℕ) (turns : List (Kernel × ℕ × Completion)) (n : Network) (m : ServerMonitor)
    → idx < max_iocp_workers
    → m.counts (iocp_count idx) < 2 ^ 32
    → (worker_loop idx turns (n, m)).1.counts (iocp_count idx)
      ≡ (m.counts (iocp_count idx) + length turns) % 2 ^ 32
unfolding worker_loop add_worker_count add_count
worker_loop_count idx [] n m real fits = omega (arith, fits)
worker_loop_count idx ((k, now, c) ∷ turns) n m real fits =
    let counted : (add_worker_count idx m).counts (iocp_count idx)
        ≡ (m.counts (iocp_count idx) + 1) % 2 ^ 32 =
      rw (lt→ltb idx max_iocp_workers real, ==_refl (iocp_count idx)) refl in
    worker_loop_count idx turns (dispatch k now c n) (add_worker_count idx m) real
      (omega (arith, counted))
    ∙ omega (arith, counted)
