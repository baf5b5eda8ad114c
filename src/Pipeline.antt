-- ===== src/Pipeline.antt =====
-- From the network to the logic threads: OnRecv and ProcessPackets of all sessions
-- (MMO/Server/Network/Source/Session.cpp) with PushJob and Update (MMO/Server/Core/LogicManager.h), a
-- push and a round at a time.
pub mod Fifo
use mmorpg_server.Base.{ℕ, Bool, true, false, List, [], ◌∷◌, ◌++◌, map, ◌==◌, if◌then◌else◌}
use mmorpg_server.Ring.{RingBuffer}
use mmorpg_server.Framing.{Packet, Processed, Outcome, waiting, cleared, out_of_fuel}
use mmorpg_server.Framing.Receive.{on_recv, receive_next, started}
use mmorpg_server.Logic.{Job, LogicManager, push_job, update_round, new_manager}
use mmorpg_server.Game.{set_at}

-- What each session has received and cut, oldest first; the packets that its ProcessPackets has cut and
-- not yet pushed; and the queues of the logic threads.
pub record Pipeline : Type 0 where
  pub streams : ℕ → Processed
  pub pending : ℕ → List Job
  pub manager : LogicManager

-- The job of a packet.
unfoldable pub to_job : ℕ → Packet → Job
to_job session p = record { session = session; header = p.header; payload = p.payload }

-- The packets that a receive completes.
unfoldable pub new_packets : Outcome → RingBuffer → List ℕ → List Packet
new_packets waiting buffer bytes = (on_recv buffer bytes).jobs
new_packets cleared buffer bytes = []
new_packets out_of_fuel buffer bytes = []

unfoldable pub receive_at : ℕ → List ℕ → Pipeline → Pipeline
unfolding new_packets to_job
receive_at a bytes s =
    let done = s.streams a in
    record s {
      streams = set_at s.streams a (receive_next done.outcome done bytes);
      pending =
          set_at s.pending a
            (s.pending a ++ map (to_job a) (new_packets done.outcome done.buffer bytes));
    }

-- A session's next PushJob.
unfoldable pub push_next : ℕ → List Job → Pipeline → Pipeline
push_next a [] s = s
push_next a (job ∷ jobs) s = record s {
  pending = set_at s.pending a jobs;
  manager = push_job job s.manager;
}

pub data PipeEvent : Type 0 where
  receives : ℕ → List ℕ → PipeEvent
  pushes rounds : ℕ → PipeEvent

unfoldable pub pipe_step : PipeEvent → Pipeline → Pipeline
unfolding receive_at push_next
pipe_step (receives a bytes) s = receive_at a bytes s
pipe_step (pushes a) s = push_next a (s.pending a) s
pipe_step (rounds idx) s = record s { manager = update_round idx s.manager }

unfoldable pub pipe_run : List PipeEvent → Pipeline → Pipeline
unfolding pipe_step
pipe_run [] s = s
pipe_run (e ∷ es) s = pipe_run es (pipe_step e s)

-- Sessions that have received nothing, over the buffers that they have.
unfoldable pub new_pipeline : (ℕ → RingBuffer) → Pipeline
unfolding started new_manager
new_pipeline buffers = record {
  streams = λ a. started (buffers a);
  pending = λ a. [];
  manager = new_manager;
}
