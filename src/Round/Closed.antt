-- ===== src/Round/Closed.antt =====
-- What any round of a logic thread keeps (LogicManager::Update of MMO/Server/Core/LogicManager.h), whatever
-- its jobs are, and where the players stand after it.
use mmorpg_server.Base.{
  ℕ, ◌≡◌, refl, subst, Bool, true, false, Option, none, some, List, [], ◌∷◌, ltb, ◌==◌, leb,
  if◌then◌else◌, Bool-cases, inl, inr,
}
use mmorpg_server.Logic.{Job, pool_push}
use mmorpg_server.Platform.{Platform, PlayerState}
use mmorpg_server.Game.{Game}
use mmorpg_server.Handler.{handle_packet, is_state, ◌>>=◌}
use mmorpg_server.Handler.Closed.{IsClosed, AfterPacket, handle_packet-Closed}
use mmorpg_server.Handler.Placed.{HoldsInts, Placed, Placed-IsClosed}
use mmorpg_server.Timeout.{elapsed, limit_of, check_session, check_session_timeout, kick}
use mmorpg_server.Monitor.{add_count, logic_count}
use mmorpg_server.Round.Keeps.{AfterJob}
use mmorpg_server.Round.{
  Moment, Tick, data_of, Served, serve_job, serve_jobs, check_world, run_periodic, serve_round,
}

module _ (P : Platform) (Q : Game P → Type 0) (C : IsClosed P Q) where
  either : (b : Bool) (g h : Game P) → Q g → Q h → Q (if b then g else h)
  either true g h k l = k
  either false g h k l = l

  kick-Closed : (a socket : ℕ) (g : Game P) → Q g → Q (kick P a socket g)
  unfolding kick
  kick-Closed a socket g q =
      let kicked =
        C.updated a (record (g.heap a) { state = PlayerState.none }) g
          (record { same_x = refl; same_y = refl; same_player = refl }) q in
      C.framed (kick P a socket g) _ (refl, refl, refl) kicked

  check_session-Closed : (now a : ℕ) (g : Game P) → Q g → Q (check_session P now a g)
  unfolding check_session
  check_session-Closed now a g q =
      let s = g.heap a in
      either (is_state s.state PlayerState.none) g _ q (
        either (ltb (limit_of s.state) (elapsed now (P.get_last_tick s.ext))) _ g
          (socket_kept s.socket) q)
    where
      socket_kept : (o : Option ℕ) → Q (elim o [ none ↦ g | some k ↦ kick P a k g ])
      socket_kept none = q
      socket_kept (some k) = kick-Closed a k g q

  check_session_timeout-Closed :
      (now : ℕ) (sessions : List ℕ) (g : Game P) → Q g → Q (check_session_timeout P now sessions g)
  unfolding check_session_timeout
  check_session_timeout-Closed now [] g q = q
  check_session_timeout-Closed now (a ∷ sessions) g q =
      check_session_timeout-Closed now sessions (check_session P now a g)
        (check_session-Closed now a g q)

  abbrev pub OnWorld : Served P → Type 0
  OnWorld s = Q s.world

  after_then :
      (o : Option (Served P)) (f : Served P → Option (Served P))
      → AfterJob P OnWorld o
      → ((s : Served P) → Q s.world → AfterJob P OnWorld (f s))
      → AfterJob P OnWorld (o >>= f)
  after_then none f h next = tt
  after_then (some s) f h next = next s h

  serve_job-Closed :
      (j : Moment × Job) (s : Served P) → Q s.world → AfterJob P OnWorld (serve_job P j s)
  unfolding serve_job
  serve_job-Closed (at, job) s q =
      served
        (handle_packet P at.now at.rand_x at.rand_y job.session job.header
          (data_of at.empty_data job.payload) s.world)
        (handle_packet-Closed P Q C at.now at.rand_x at.rand_y job.session job.header
          (data_of at.empty_data job.payload) s.world q)
    where
      served :
          (o : Option (Game P))
          → AfterPacket P Q o
          → AfterJob P OnWorld (
              o >>= (λ world. some (record s {
                world = world;
                pool = pool_push job s.pool;
                monitor = add_count logic_count s.monitor;
              })))
      served none h = tt
      served (some g) h = h

  serve_jobs-Closed :
      (js : List (Moment × Job)) (s : Served P) → Q s.world → AfterJob P OnWorld (serve_jobs P js s)
  unfolding serve_jobs
  serve_jobs-Closed [] s q = q
  serve_jobs-Closed (j ∷ js) s q =
      after_then (serve_job P j s) (serve_jobs P js) (serve_job-Closed j s q)
        (λ s' q'. serve_jobs-Closed js s' q')

  run_periodic-Closed :
      (world_update : Game P → Game P) (t : Tick) (s : Served P)
      → ((g : Game P) → Q g → Q (world_update g))
      → Q s.world
      → Q (run_periodic P world_update t s).world
  unfolding run_periodic check_world
  run_periodic-Closed world_update t s keeps q =
      let g = world_update s.world in
      elim (Bool-cases (leb 1000 (elapsed t.now s.last_aoi_tick))) [
        | inl due ↦
            rw due (check_session_timeout-Closed t.timeout_now t.sessions g (keeps s.world q))
        | inr early ↦ rw early (keeps s.world q)
      ]

  pub serve_round-Closed :
      (world_update : Game P → Game P) (idx : ℕ) (t : Tick) (jobs : List (Moment × Job))
      (s : Served P)
      → ((g : Game P) → Q g → Q (world_update g))
      → Q s.world
      → AfterJob P OnWorld (serve_round P world_update idx t jobs s)
  unfolding serve_round
  serve_round-Closed world_update idx t jobs s keeps q =
      after_then (serve_jobs P jobs s) _ (serve_jobs-Closed jobs s q)
        (λ served q'. periodic served q' (idx == 0))
    where
      periodic :
          (served : Served P)
          → Q served.world
          → (b : Bool) → Q (if b then run_periodic P world_update t served else served).world
      periodic served q' true = run_periodic-Closed world_update t served keeps q'
      periodic served q' false = q'

-- A round of a logic thread that comes to an end, whatever its jobs are, from whomever, and the periodic
-- part included: every session that holds a player stands at coordinates from 0 up to, and not
-- including, 1000, if it was so before, if World::Update keeps that, and if floats hold the integers of
-- the map.
pub serve_round-Placed :
    (P : Platform) (world_update : Game P → Game P) (idx : ℕ) (t : Tick)
    (jobs : List (Moment × Job)) (s s' : Served P)
    → HoldsInts P
    → ((g : Game P) → Placed P g → Placed P (world_update g))
    → Placed P s.world
    → serve_round P world_update idx t jobs s ≡ some s'
    → Placed P s'.world
serve_round-Placed P world_update idx t jobs s s' ints keeps placed e =
    subst (AfterJob P (OnWorld P (Placed P) (Placed-IsClosed P ints))) e (
      serve_round-Closed P (Placed P) (Placed-IsClosed P ints) world_update idx t jobs s keeps
        placed)
