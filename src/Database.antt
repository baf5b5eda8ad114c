-- ===== src/Database.antt =====
-- The database threads and their queue of tasks (MMO/Server/DB/DBManager.cpp). What a task does, and
-- when a connection is valid, which a third-party connector decides, are parameters.
pub mod Load
pub mod Runs
pub mod Drain
pub mod Order
pub mod Sleep
pub mod Heard
use mmorpg_server.Base.{
  ℕ, ◌≡◌, zero, suc, ◌+◌, Bool, true, false, ◌&&◌, Option, none, some, List, [], ◌∷◌, ◌++◌,
  if◌then◌else◌,
}

-- A DbTask is a std::function, which may be empty: `none`. `call` runs a task on what the tasks work on;
-- `false` says that the call threw SQLException.
pub record Tasks : Type 1 where
  pub Task : Type 0
  pub World : Type 0
  pub call : Task → World → World × Bool
  pub is_valid : World → Bool

-- A thread of DbWorkerThread: at the top of its loop, with a task that it has taken, or returned.
pub data Worker (T : Tasks) : Type 0 where
  waiting : Worker T
  running : Option T.Task → Worker T
  ended : Worker T

-- What the threads share: m_tasks, m_stop, the monitor's count of tasks, and what the tasks work on.
pub record DbManager (T : Tasks) : Type 0 where
  pub tasks : List (Option T.Task)
  pub stop : Bool
  pub db_count : ℕ
  pub world : T.World

module _ (T : Tasks) where
  -- A thread starts with a connection, or returns at once when it gets none or the driver throws.
  unfoldable pub start_worker : Bool → Worker T
  start_worker connected = if connected then waiting else ended

  -- PushQuery.
  unfoldable pub push_query : Option T.Task → DbManager T → DbManager T
  push_query task m = record m { tasks = m.tasks ++ (task ∷ []) }

  -- Shutdown, up to the joins.
  unfoldable pub shutdown : DbManager T → DbManager T
  shutdown m = record m { stop = true }

  -- Shutdown's joins return when every thread has.
  abbrev pub AllEnded : List (Worker T) → Type 0
  AllEnded [] = Unit
  AllEnded (w ∷ ws) = (w ≡ ended) × AllEnded ws

  -- The part of a round that holds the mutex. `none`: the thread waits on m_cv.
  unfoldable pub take_task : List (Option T.Task) → DbManager T → Option (Worker T × DbManager T)
  take_task [] m = if m.stop then some (ended, m) else none
  take_task (task ∷ rest) m = some (running task, record m { tasks = rest })

  -- `task(con.get())` on a valid connection; SQLException leaves the loop.
  unfoldable pub call_task : T.Task → DbManager T → Worker T × DbManager T
  call_task task m =
      let (world, returned) = T.call task m.world in
      if T.is_valid m.world
      then if returned
        then (waiting, record m { world = world; db_count = m.db_count + 1 })
        else (ended, record m { world = world })
      else (waiting, record m { db_count = m.db_count + 1 })

  -- A step of a thread; `none` when it can make none.
  unfoldable pub worker_step : Worker T → DbManager T → Option (Worker T × DbManager T)
  unfolding take_task call_task
  worker_step waiting m = take_task m.tasks m
  worker_step (running none) m = some (waiting, m)
  worker_step (running (some task)) m = some (call_task task m)
  worker_step ended m = none

  abbrev pub put_worker :
      List (Worker T) → Option (Worker T × DbManager T) → Option (List (Worker T) × DbManager T)
  put_worker ws none = none
  put_worker ws (some (w, m)) = some (w ∷ ws, m)

  abbrev pub keep_worker :
      Worker T → Option (List (Worker T) × DbManager T) → Option (List (Worker T) × DbManager T)
  keep_worker w none = none
  keep_worker w (some (ws, m)) = some (w ∷ ws, m)

  -- A step of the thread at a place of m_workers.
  unfoldable pub step_at :
      ℕ → List (Worker T) → DbManager T → Option (List (Worker T) × DbManager T)
  unfolding worker_step
  step_at i [] m = none
  step_at zero (w ∷ ws) m = put_worker ws (worker_step w m)
  step_at (suc i) (w ∷ ws) m = keep_worker w (step_at i ws m)

  abbrev pub go_on :
      (List (Worker T) → DbManager T → Option (List (Worker T) × DbManager T))
      → Option (List (Worker T) × DbManager T)
      → Option (List (Worker T) × DbManager T)
  go_on rest none = none
  go_on rest (some (ws, m)) = rest ws m

  -- Steps in the order of a schedule; `none` when one of them cannot be made.
  unfoldable pub run_schedule :
      List ℕ → List (Worker T) → DbManager T → Option (List (Worker T) × DbManager T)
  unfolding step_at
  run_schedule [] ws m = some (ws, m)
  run_schedule (i ∷ is) ws m = go_on (run_schedule is) (step_at i ws m)
