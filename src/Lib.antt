-- ===== src/Lib.antt =====
-- mmorpg-server: a C++ game server on I/O completion ports (MMO/Server) and a test client
-- (MMO/Client). The network threads receive bytes into a ring buffer per session, cut them into
-- packets and push each as a job to the logic thread of its session. The logic threads handle the
-- packets: login, entering the game, moving, attacking, chat and logout. The world keeps, for
-- every cell of a grid, the sessions that see it, and tells exactly those of what happens there.
-- What is told goes through a queue of send buffers back to the network.
--
-- The files:
--   Base         shared names: tests on numbers, lists, signed integers (`Base.Int`).
--   Ring         RingBuffer (MMO/Server/Network/Source/RingBuffer.cpp), the receive buffer.
--   Protocol     the packet ids, sizes and header (MMO/Server/Core/Protocol.h).
--   Wire         the members of the packets in Protocol.h and in the client's copy
--                (MMO/Client/Protocol.h), and the bytes of what the server sends; `Wire.Effects` is what
--                each message does to a client.
--   Framing      Session::ProcessPackets and OnRecv (MMO/Server/Network/Source/Session.cpp);
--                `Framing.Stream` is the independent description: a parse of the bare byte stream.
--   Send         Session::Send, RegisterSend, OnSend and the send part of Clear, with the pool of send
--                buffers (MMO/Server/Network/Include/SendBuffer.h).
--   Logic        the job queues and the job pool (MMO/Server/Core/LogicManager.h); `Logic.Wait` is how a
--                thread waits on its condition variable, is woken and ends, a step at a time.
--   Pipeline     from the sockets to the logic threads: Framing and Logic together.
--   TimeWheel    MMO/Server/Core/TimeWheel.h, TimeWheel.cpp.
--   Platform     the machine's floats, and the members of Session and World that the sources call but
--                that no file of the repository declares, as parameters with their laws.
--   Game         the state that the next three share.
--   Grid, World  MMO/Server/Game/World.h, World.cpp: the grid of cells, EnterGame, LeaveGame,
--                HandleMove and the broadcasts.
--   Player       MMO/Server/Game/Player.h, Player.cpp: damage, death and the respawn timer.
--   Handler      MMO/Server/Core/PacketHandler.h, PacketHandler.cpp: one function per packet.
--   Timeout      CheckSessionTimeout (MMO/Server/Core/LogicManager.h).
--   PlayerPool   MMO/Server/PlayerManager.h, the pool of players.
--   SessionPool  SessionManager (MMO/Server/Network/Source/SessionManager.cpp), the pool of sessions.
--   Round        a round of a logic thread on the game (LogicManager::Update of
--                MMO/Server/Core/LogicManager.h), with the periodic part of thread 0.
--   Network      Clear, RegisterRecv, OnRecv, OnSend and OnAccept of Session (Session.cpp) over all
--                sessions, RegisterAccept (MMO/Server/Network/Source/Listener.cpp), Dispatch
--                (MMO/Server/Core/IocpCore.cpp), and the start of MMO/Server/Main.cpp
--                (`Network.Startup`); `Network.Turns` is a run of completions in any order;
--                `Network.Workers` is StartListen and the loop of a worker thread.
--   Login        the database task of Handle_C_LOGIN (MMO/Server/Core/PacketHandler.cpp).
--   Database     DBManager (MMO/Server/DB/DBManager.cpp): the queue of tasks and its threads, a step at
--                a time; `Database.Sleep` is their condition variable, by counts of threads.
--   Monitor      the counters and the file name of MMO/Server/Observability/ServerMonitor.h;
--                `Monitor.Cpu` is its two figures of the process, `Monitor.Lines` are its lines and those
--                of MMO/Server/Observability/AOILogger.h.
--   Client       the test client (MMO/Client/Main.cpp): ReceiveThread and every packet that it sends;
--                `Client.Console` is its automatic login and its end; `Client.Play` is the whole of it,
--                its threads in any order.
--   Tests        runs of the models on concrete inputs.
--
-- State and operations: a session, a player and a socket are named by numbers, with 0 for a null
-- pointer; `Game` holds the heap of sessions and players, the grid, the map of sessions, the time
-- wheel and what was sent, asked of the database and closed, in order. An operation takes its
-- state and returns the next; what the code collects under the world's mutex and the sends that
-- follow are one step. Each operation has the name of its function in snake case. `rand()`, the
-- clock and the results of the calls of the operating system (`Network.Kernel`) are arguments;
-- the tables of accounts (`Login.Accounts`), the tasks of the database (`Database.Tasks`) and the
-- floats are parameters, and so is how a number or a time is printed (`Monitor.Lines.Printer`). A
-- condition variable is the place where its threads are: a sleeping thread takes no step until it is
-- notified, its time is over or it wakes by itself. Reading past the end of a payload, undefined in the
-- code, is `none`. Whether the data() of an empty vector is a null pointer is an argument.
--
-- Bounds and fuel: the ring buffer's positions stay below its capacity, so its `int`s are
-- numbers, and with positions in range no subtraction of it goes below zero. ProcessPackets runs
-- on fuel: a round takes four bytes at least, so one more round than the held bytes is enough.
-- TimeWheel::Update runs on fuel too: one more round than the ticks that are due is enough. The
-- loop of ReceiveThread gets one more round than it holds bytes, which is enough unless a header
-- of size 0 comes up. Hit points are integers: the code subtracts 10 or 20 from at most 100.
--
-- Not modelled: the set-up of completion ports and threads (the constructor and Register of
-- IocpCore.cpp, Init of DBManager.cpp, the rest of both main functions), the opening of the log files and
-- console output. World::Update, which the round of thread 0 calls and no file defines, is a parameter.
-- The interleaving of two threads within one operation is left out, but for the monitor's counters and
-- the condition variables; whole operations come in any order.
pub mod Base
pub mod Client
pub mod Database
pub mod Framing
pub mod Game
pub mod Grid
pub mod Handler
pub mod Logic
pub mod Login
pub mod Monitor
pub mod Network
pub mod Pipeline
pub mod Platform
pub mod Player
pub mod PlayerPool
pub mod Protocol
pub mod Ring
pub mod Round
pub mod Send
pub mod SessionPool
pub mod Tests
pub mod TimeWheel
pub mod Timeout
pub mod Wire
pub mod World
