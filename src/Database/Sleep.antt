-- ===== src/Database/Sleep.antt =====
-- The condition variable of the database threads (PushQuery, Shutdown and DbWorkerThread of
-- MMO/Server/DB/DBManager.cpp): how many threads are where, in steps that come in any order.
use mmorpg_server.Base.{
  ℕ, zero, suc, ◌+◌, Bool, true, false, Option, none, some, List, [], ◌∷◌, if◌then◌else◌,
}
use mmorpg_server.Handler.{◌>>=◌}

-- The tasks that wait; the threads at the test of the wait, asleep in it, with a task, and returned; the
-- calls of notify_one and of notify_all that are still to come, since they stand behind the mutex; m_stop.
pub record Sleepers : Type 0 where
  pub tasks : ℕ
  pub awake : ℕ
  pub asleep : ℕ
  pub busy : ℕ
  pub ended : ℕ
  pub notifying : ℕ
  pub stopping : ℕ
  pub stop : Bool

pub data SleepEvent : Type 0 where
  pushes notifies_one stops notifies_all tests finishes throws wakes : SleepEvent

unfoldable pub new_sleepers : ℕ → Sleepers
new_sleepers threads = record {
  tasks = 0;
  awake = threads;
  asleep = 0;
  busy = 0;
  ended = 0;
  notifying = 0;
  stopping = 0;
  stop = false;
}

-- The part of PushQuery that holds the mutex, and then its notify_one.
unfoldable pub push_task : Sleepers → Sleepers
push_task s = record s { tasks = suc s.tasks; notifying = suc s.notifying }

unfoldable pub notify_one : ℕ → ℕ → Sleepers → Option Sleepers
notify_one zero asleep s = none
notify_one (suc notifying) zero s = some (record s { notifying = notifying })
notify_one (suc notifying) (suc asleep) s =
    some (record s { notifying = notifying; asleep = asleep; awake = suc s.awake })

-- The part of Shutdown that holds the mutex, and then its notify_all.
unfoldable pub set_stop : Sleepers → Sleepers
set_stop s = record s { stop = true; stopping = suc s.stopping }

unfoldable pub notify_all : ℕ → Sleepers → Option Sleepers
notify_all zero s = none
notify_all (suc stopping) s =
    some (record s { stopping = stopping; awake = s.awake + s.asleep; asleep = 0 })

-- A thread at the test, with the mutex: it takes a task, returns, or goes to sleep, which lets the mutex
-- go.
unfoldable pub test_tasks : ℕ → ℕ → Sleepers → Option Sleepers
test_tasks zero tasks s = none
test_tasks (suc awake) (suc tasks) s =
    some (record s { awake = awake; tasks = tasks; busy = suc s.busy })
test_tasks (suc awake) zero s = some (
    if s.stop
    then record s { awake = awake; ended = suc s.ended }
    else record s { awake = awake; asleep = suc s.asleep })

-- A task returns, or throws.
unfoldable pub finish_task : ℕ → Sleepers → Option Sleepers
finish_task zero s = none
finish_task (suc busy) s = some (record s { busy = busy; awake = suc s.awake })

unfoldable pub throw_task : ℕ → Sleepers → Option Sleepers
throw_task zero s = none
throw_task (suc busy) s = some (record s { busy = busy; ended = suc s.ended })

-- A thread wakes without being notified, and tests again.
abbrev pub wake : ℕ → Sleepers → Option Sleepers
wake zero s = none
wake (suc asleep) s = some (record s { asleep = asleep; awake = suc s.awake })

unfoldable pub sleep_step : SleepEvent → Sleepers → Option Sleepers
unfolding push_task notify_one set_stop notify_all test_tasks finish_task throw_task
sleep_step pushes s = some (push_task s)
sleep_step notifies_one s = notify_one s.notifying s.asleep s
sleep_step stops s = some (set_stop s)
sleep_step notifies_all s = notify_all s.stopping s
sleep_step tests s = test_tasks s.awake s.tasks s
sleep_step finishes s = finish_task s.busy s
sleep_step throws s = throw_task s.busy s
sleep_step wakes s = wake s.asleep s

unfoldable pub sleep_run : List SleepEvent → Sleepers → Option Sleepers
unfolding sleep_step
sleep_run [] s = some s
sleep_run (e ∷ es) s = sleep_step e s >>= sleep_run es
