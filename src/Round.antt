-- ===== src/Round.antt =====
-- A round of a logic thread (LogicManager::Update of MMO/Server/Core/LogicManager.h), with the jobs that it
-- has taken. World::Update, which no file of the repository defines, is a parameter.
pub mod Fair
pub mod Keeps
pub mod Closed
use mmorpg_server.Base.{
  ℕ, zero, suc, ◌+◌, ◌-◌, ◌%◌, ◌^◌, Bool, true, false, not, Option, none, some, List, [], ◌∷◌, ◌++◌,
  ◌==◌, ltb, leb, if◌then◌else◌,
}
use mmorpg_server.Base.Int.{ℤ}
use mmorpg_server.Logic.{Job, pool_push}
use mmorpg_server.Platform.{Platform, PlayerState}
use mmorpg_server.Game.{Game}
use mmorpg_server.World.{log_all_players_aoi}
use mmorpg_server.Handler.{handle_packet, is_state, ◌>>=◌}
use mmorpg_server.Timeout.{elapsed, check_session_timeout}
use mmorpg_server.Monitor.{ServerMonitor, add_count, logic_count, update_monitor}

-- What the handling of a job reads: the clock, two values of rand(), and whether the vector of its data has
-- an address when it is empty.
pub record Moment : Type 0 where
  pub now : ℕ
  pub rand_x : ℕ
  pub rand_y : ℕ
  pub empty_data : Bool

-- What the periodic part reads: the clock, for the log, for the timeouts and for the monitor, the
-- sessions, and what other threads count during the monitor's update.
pub record Tick : Type 0 where
  pub now : ℕ
  pub timeout_now : ℕ
  pub monitor_now : ℕ
  pub sessions : List ℕ
  pub others : ℕ → List ℕ

-- `job->data.data()`. That of an empty vector may be a null pointer or not, which C++ leaves open.
abbrev pub data_of : Bool → List ℕ → Option (List ℕ)
data_of empty_data [] = if empty_data then some [] else none
data_of empty_data (byte ∷ bytes) = some (byte ∷ bytes)

module _ (P : Platform) where
  -- The game, the job pool, the monitor, lastAoiTick and the lines of the log of views.
  pub record Served : Type 0 where
    pub world : Game P
    pub pool : List Job
    pub monitor : ServerMonitor
    pub last_aoi_tick : ℕ
    pub views : List (ℤ × P.Float × P.Float × List ℤ)

  unfoldable pub serve_job : Moment × Job → Served → Option Served
  serve_job (at, job) s = do
    world ←
        handle_packet P at.now at.rand_x at.rand_y job.session job.header
          (data_of at.empty_data job.payload) s.world
    some (record s {
      world = world;
      pool = pool_push job s.pool;
      monitor = add_count logic_count s.monitor;
    })

  unfoldable pub serve_jobs : List (Moment × Job) → Served → Option Served
  unfolding serve_job
  serve_jobs [] s = some s
  serve_jobs (j ∷ js) s = serve_job j s >>= serve_jobs js

  -- The log and the timeouts, once a second.
  unfoldable pub check_world : Tick → Served → Served
  check_world t s =
      if leb 1000 (elapsed t.now s.last_aoi_tick)
      then record s {
        last_aoi_tick = t.now;
        views = s.views ++ log_all_players_aoi P s.world s.world.sessions;
        world = check_session_timeout P t.timeout_now t.sessions s.world;
      }
      else s

  -- The sessions in a state other than NONE.
  unfoldable pub count_users : List ℕ → Game P → ℕ
  count_users [] g = 0
  count_users (a ∷ sessions) g =
      let rest = count_users sessions g in
      if is_state (g.heap a).state PlayerState.none then rest else suc rest

  -- The periodic part, which only thread 0 has.
  unfoldable pub run_periodic : (Game P → Game P) → Tick → Served → Served
  unfolding check_world count_users
  run_periodic world_update t s =
      let updated : Served = record s { world = world_update s.world } in
      let users = count_users t.sessions updated.world in
      let checked = check_world t updated in
      record checked { monitor = update_monitor users t.monitor_now t.others checked.monitor }

  unfoldable pub serve_round :
      (Game P → Game P) → ℕ → Tick → List (Moment × Job) → Served → Option Served
  unfolding serve_jobs run_periodic
  serve_round world_update idx t jobs s = do
    served ← serve_jobs jobs s
    some (if idx == 0 then run_periodic world_update t served else served)
