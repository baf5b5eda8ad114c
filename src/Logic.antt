-- ===== src/Logic.antt =====
-- LogicManager and JobPool (MMO/Server/Core/LogicManager.h): the job queues of the logic threads, over
-- any type of job contents. A session is named by its address.
pub mod Affinity
pub mod Pool
pub mod Wait
pub mod Wakes
pub mod Ending
use mmorpg_server.Base.{
  ℕ, zero, suc, ◌/◌, ◌%◌, Bool, true, false, Option, none, some, List, [], ◌∷◌, ◌++◌, ◌==◌, leb,
  if◌then◌else◌, length,
}
use mmorpg_server.Protocol.{PacketHeader}

abbrev pub thread_count : ℕ
thread_count = 4

-- struct Job.
pub record Job : Type 0 where
  pub session : ℕ
  pub header : PacketHeader
  pub payload : List ℕ

-- The queue of each thread, and the jobs that the threads have handled, oldest first, each with its
-- thread.
pub record LogicManager : Type 0 where
  pub jobs : ℕ → List Job
  pub handled : List (ℕ × Job)

-- `(session >> 6) % THREAD_COUNT`.
unfoldable pub thread_of : ℕ → ℕ
thread_of session = session / 64 % thread_count

unfoldable pub push_job : Job → LogicManager → LogicManager
unfolding thread_of
push_job job m =
    let idx = thread_of job.session in
    record m { jobs = λ i. if idx == i then m.jobs i ++ (job ∷ []) else m.jobs i }

abbrev pub by_thread : ℕ → List Job → List (ℕ × Job)
by_thread idx [] = []
by_thread idx (job ∷ js) = (idx, job) ∷ by_thread idx js

-- One round of Update(idx): take the whole queue, and handle its jobs in order.
unfoldable pub update_round : ℕ → LogicManager → LogicManager
update_round idx m = record {
  jobs = λ i. if idx == i then [] else m.jobs i;
  handled = m.handled ++ by_thread idx (m.jobs idx);
}

-- What the producers and the threads do, in any order.
pub data LogicEvent : Type 0 where
  pushes : Job → LogicEvent
  rounds : ℕ → LogicEvent

unfoldable pub logic_step : LogicEvent → LogicManager → LogicManager
logic_step (pushes job) m = push_job job m
logic_step (rounds idx) m = update_round idx m

unfoldable pub logic_run : List LogicEvent → LogicManager → LogicManager
logic_run [] m = m
logic_run (e ∷ es) m = logic_run es (logic_step e m)

unfoldable pub new_manager : LogicManager
new_manager = record { jobs = λ i. []; handled = [] }

-- JobPool: the free jobs, the top of the stack first.
abbrev pub job_pool_limit : ℕ
job_pool_limit = 1000

unfoldable pub new_job : Job
new_job = record { session = 0; header = record { size = 0; id = 0 }; payload = [] }

unfoldable pub pool_pop : List Job → Job × List Job
unfolding new_job
pool_pop [] = (new_job, [])
pool_pop (job ∷ pool) = (job, pool)

unfoldable pub pool_push : Job → List Job → List Job
pool_push job pool =
    if leb job_pool_limit (length pool)
    then pool
    else record job { session = 0; payload = [] } ∷ pool
