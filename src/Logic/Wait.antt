-- ===== src/Logic/Wait.antt =====
-- How a logic thread waits and stops (Update, PushJob and Shutdown of MMO/Server/Core/LogicManager.h): one
-- thread, its queue and its condition variable, in steps that any others may come between.
use mmorpg_server.Base.{Bool, true, false, Option, none, some, List, [], ◌∷◌, ◌++◌, if◌then◌else◌}
use mmorpg_server.Handler.{◌>>=◌}
use mmorpg_server.Logic.{Job}

-- Where the thread is: at the test of wait_for, which it makes with the mutex; behind a test that failed,
-- still with the mutex; asleep, without it; with the jobs that it has taken; or behind its loop.
pub data Phase : Type 0 where
  testing deciding asleep ended : Phase
  handling : List Job → Phase

-- `stop` is m_stop, which the threads share.
pub record LogicThread : Type 0 where
  pub phase : Phase
  pub jobs : List Job
  pub stop : Bool
  pub handled : List Job

unfoldable pub new_thread : LogicThread
new_thread = record { phase = testing; jobs = []; stop = false; handled = [] }

-- Behind the wait: leave the loop, or take the whole queue.
unfoldable pub take_jobs : List Job → LogicThread → LogicThread
take_jobs [] t = record t { phase = if t.stop then ended else handling [] }
take_jobs (job ∷ jobs) t = record t { phase = handling (job ∷ jobs); jobs = [] }

-- The predicate of the wait.
unfoldable pub test_jobs : List Job → LogicThread → LogicThread
unfolding take_jobs
test_jobs [] t = if t.stop then take_jobs [] t else record t { phase = deciding }
test_jobs (job ∷ jobs) t = take_jobs (job ∷ jobs) t

-- A step of the thread itself; `none` where it can make none. From `deciding` it goes to sleep and lets
-- the mutex go, in one.
unfoldable pub own_step : Phase → LogicThread → Option LogicThread
unfolding test_jobs
own_step testing t = some (test_jobs t.jobs t)
own_step deciding t = some (record t { phase = asleep })
own_step asleep t = none
own_step (handling []) t = some (record t { phase = testing })
own_step (handling (job ∷ jobs)) t =
    some (record t { phase = handling jobs; handled = t.handled ++ (job ∷ []) })
own_step ended t = none

-- The hundred milliseconds of a sleeping thread are over: it goes on without a test.
unfoldable pub time_out : Phase → LogicThread → Option LogicThread
unfolding take_jobs
time_out asleep t = some (take_jobs t.jobs t)
time_out _ t = none

-- notify_one or notify_all of the thread's condition variable.
abbrev pub woken : Phase → Phase
woken asleep = testing
woken phase = phase

unfoldable pub notify : LogicThread → LogicThread
notify t = record t { phase = woken t.phase }

-- PushJob, which has the mutex to its end; `none` while the thread has it.
unfoldable pub push_waking : Job → Phase → LogicThread → Option LogicThread
unfolding notify
push_waking job deciding t = none
push_waking job _ t = some (notify (record t { jobs = t.jobs ++ (job ∷ []) }))

-- What may happen next. Shutdown sets m_stop without the mutex, and then notifies.
pub data ThreadEvent : Type 0 where
  steps times_out stops notifies : ThreadEvent
  pushes : Job → ThreadEvent

unfoldable pub thread_step : ThreadEvent → LogicThread → Option LogicThread
unfolding own_step time_out push_waking notify
thread_step steps t = own_step t.phase t
thread_step times_out t = time_out t.phase t
thread_step stops t = some (record t { stop = true })
thread_step notifies t = some (notify t)
thread_step (pushes job) t = push_waking job t.phase t

unfoldable pub thread_run : List ThreadEvent → LogicThread → Option LogicThread
unfolding thread_step
thread_run [] t = some t
thread_run (e ∷ es) t = thread_step e t >>= thread_run es
