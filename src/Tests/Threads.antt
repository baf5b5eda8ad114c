-- ===== src/Tests/Threads.antt =====
-- Runs of the logic and the database threads (MMO/Server/Core/LogicManager.h, MMO/Server/DB/DBManager.cpp),
-- from the network on.
use mmorpg_server.Base.{
  ◌+◌, ◌≤◌, ◌<◌, ◌≡◌, ◌⊎◌, refl, true, false, some, List, [], ◌∷◌, ◌++◌, arith, map,
}
use mmorpg_server.Logic.Affinity.{IsAffine, history}
use mmorpg_server.Logic.Wait.{
  LogicThread, asleep, ended, ThreadEvent, steps, stops, notifies, pushes, thread_run, new_thread,
}
use mmorpg_server.Logic.Wakes.{IsAwakeFor, in_hand, pushed_all, all_jobs, thread_run_wakes}
use mmorpg_server.Logic.Ending.{EndsWithin, thread_ends}
use mmorpg_server.Database.Sleep.{Sleepers, sleep_run, new_sleepers}
use mmorpg_server.Database.Sleep
use mmorpg_server.Database.Heard.{sleep_run-heard}
use mmorpg_server.Pipeline.{PipeEvent, receives, rounds, pipe_run, new_pipeline, to_job}
use mmorpg_server.Pipeline
use mmorpg_server.Pipeline.Fifo.{pipe_run-packets}
use mmorpg_server.Tests.Frames.{
  two_packets, two_packets-AllPackets, start_ring, start_ring-IsValid, pieces_fit,
}
use mmorpg_server.Tests.Rounds.{job}

-- Shutdown comes between the test and the sleep: the thread sleeps through its notification.
abbrev missed : List ThreadEvent
missed = pushes job ∷ steps ∷ steps ∷ steps ∷ steps ∷ stops ∷ notifies ∷ steps ∷ []

abbrev sleeper : LogicThread
sleeper = record { phase = asleep; jobs = []; stop = true; handled = job ∷ [] }

sleeps_on : thread_run missed new_thread ≡ some sleeper
unfolding thread_run new_thread
sleeps_on = refl

thread_run_wakes_example :
    (sleeper.handled ++ (in_hand sleeper.phase ++ sleeper.jobs) ≡ pushed_all missed)
    × IsAwakeFor sleeper.phase sleeper
thread_run_wakes_example = thread_run_wakes missed sleeper sleeps_on

asleep-ne-ended : asleep ≡ ended → ⊥
asleep-ne-ended e = ground (arith, e)

thread_ends_example : EndsWithin 4 sleeper × (all_jobs sleeper ≡ job ∷ [])
thread_ends_example = thread_ends missed sleeper sleeps_on refl asleep-ne-ended

-- Two threads go to sleep; a task is pushed, and its notification is still to come.
abbrev two_sleep : Sleepers
two_sleep = record {
  tasks = 1;
  awake = 0;
  asleep = 2;
  busy = 0;
  ended = 0;
  notifying = 1;
  stopping = 0;
  stop = false;
}

sleep_run-heard_example :
    (two_sleep.awake + two_sleep.asleep + two_sleep.busy + two_sleep.ended ≡ 2)
    × ((two_sleep.asleep ≡ 0) ⊎ (two_sleep.tasks ≤ two_sleep.awake + two_sleep.notifying))
    × ((two_sleep.asleep ≡ 0) ⊎ ((two_sleep.stop ≡ false) ⊎ (0 < two_sleep.stopping)))
unfolding sleep_run new_sleepers
sleep_run-heard_example =
    sleep_run-heard 2 (Sleep.tests ∷ Sleep.tests ∷ Sleep.pushes ∷ []) two_sleep refl

-- Two sessions receive, one of them in three parts, with a push and a round between.
abbrev busy_run : List PipeEvent
busy_run =
    receives 64 (6 ∷ [])
    ∷ receives 128 (4 ∷ 0 ∷ [])
    ∷ receives 64 (0 ∷ 3 ∷ 0 ∷ 8 ∷ [])
    ∷ receives 64 (9 ∷ 4 ∷ 0 ∷ 5 ∷ 0 ∷ [])
    ∷ Pipeline.pushes 64
    ∷ rounds 1
    ∷ []

pipe_run-packets_example :
    let s = pipe_run busy_run (new_pipeline (λ a. start_ring)) in
    (history 64 s.manager ++ s.pending 64 ≡ map (to_job 64) two_packets) × IsAffine s.manager
unfolding mmorpg_server.Protocol.header_bytes mmorpg_server.Ring.new_ring
    mmorpg_server.Ring.get_use_size
pipe_run-packets_example =
    pipe_run-packets 64 busy_run (λ a. start_ring) two_packets start_ring-IsValid refl pieces_fit
      two_packets-AllPackets refl
