-- ===== src/Round/Keeps.antt =====
-- What a round of a logic thread (MMO/Server/Core/LogicManager.h) keeps of the world.
use mmorpg_server.Base.{
  ℕ, ◌≡◌, subst, Bool, true, false, Option, none, some, List, [], ◌∷◌, arith, ltb, ◌==◌, leb,
  if◌then◌else◌, Bool-cases, inl, inr,
}
use mmorpg_server.Logic.{Job, pool_push}
use mmorpg_server.Platform.{Platform, PlayerState}
use mmorpg_server.Game.{Game}
use mmorpg_server.World.Subscribed.{IsSubscribed}
use mmorpg_server.Handler.{handle_packet, is_state, ◌>>=◌}
use mmorpg_server.Timeout.{elapsed, limit_of, check_session, check_session_timeout, kick}
use mmorpg_server.Monitor.{add_count, logic_count}
use mmorpg_server.Round.Fair.{Keeps, IsFair, packet-Keeps}
use mmorpg_server.Round.{
  Moment, Tick, data_of, Served, serve_job, serve_jobs, check_world, run_periodic, serve_round,
}

module _ (P : Platform) where
  if-IsSubscribed :
      (b : Bool) (g h : Game P)
      → IsSubscribed P g
      → IsSubscribed P h
      → IsSubscribed P (if b then g else h)
  if-IsSubscribed true g h inv other = inv
  if-IsSubscribed false g h inv other = other

  kick-IsSubscribed :
      (a socket : ℕ) (g : Game P) → IsSubscribed P g → IsSubscribed P (kick P a socket g)
  unfolding kick
  kick-IsSubscribed a socket g inv b q = ground (arith, inv b q)

  check_session-IsSubscribed :
      (now a : ℕ) (g : Game P) → IsSubscribed P g → IsSubscribed P (check_session P now a g)
  unfolding check_session
  check_session-IsSubscribed now a g inv =
      let s = g.heap a in
      let kicked : Game P = elim s.socket [ none ↦ g | some k ↦ kick P a k g ] in
      let late = ltb (limit_of s.state) (elapsed now (P.get_last_tick s.ext)) in
      if-IsSubscribed (is_state s.state PlayerState.none) g (if late then kicked else g) inv
        (if-IsSubscribed late kicked g (socket_kept s.socket) inv)
    where
      socket_kept : (o : Option ℕ) → IsSubscribed P (elim o [ none ↦ g | some k ↦ kick P a k g ])
      socket_kept none = inv
      socket_kept (some k) = kick-IsSubscribed a k g inv

  check_session_timeout-IsSubscribed :
      (now : ℕ) (sessions : List ℕ) (g : Game P)
      → IsSubscribed P g
      → IsSubscribed P (check_session_timeout P now sessions g)
  unfolding check_session_timeout
  check_session_timeout-IsSubscribed now [] g inv = inv
  check_session_timeout-IsSubscribed now (a ∷ sessions) g inv =
      check_session_timeout-IsSubscribed now sessions (check_session P now a g)
        (check_session-IsSubscribed now a g inv)

  abbrev pub AfterJob : (Served P → Type 0) → Option (Served P) → Type 0
  AfterJob Q none = Unit
  AfterJob Q (some s) = Q s

  -- Every job is fair when its turn comes.
  abbrev pub AllFair : List (Moment × Job) → Served P → Type 0
  AllFair [] s = Unit
  AllFair (j ∷ js) s = IsFair P j.1 s.world × AfterJob (AllFair js) (serve_job P j s)

  abbrev KeepsWorld : Served P → Type 0
  KeepsWorld s = IsSubscribed P s.world

  serve_job-Keeps :
      (j : Moment × Job) (s : Served P)
      → IsSubscribed P s.world
      → IsFair P j.1 s.world
      → AfterJob KeepsWorld (serve_job P j s)
  unfolding serve_job
  serve_job-Keeps (at, job) s inv fair =
      served_keeps
        (handle_packet P at.now at.rand_x at.rand_y job.session job.header
          (data_of at.empty_data job.payload) s.world)
        (packet-Keeps P at job s.world inv fair)
    where
      served_keeps :
          (o : Option (Game P))
          → Keeps P o
          → AfterJob KeepsWorld (
              o >>= (λ world. some (record s {
                world = world;
                pool = pool_push job s.pool;
                monitor = add_count logic_count s.monitor;
              })))
      served_keeps none h = tt
      served_keeps (some g) h = h

  serve_jobs-Keeps :
      (js : List (Moment × Job)) (s : Served P)
      → IsSubscribed P s.world
      → AllFair js s
      → AfterJob KeepsWorld (serve_jobs P js s)
  unfolding serve_jobs
  serve_jobs-Keeps [] s inv fair = inv
  serve_jobs-Keeps (j ∷ js) s inv (now_fair, fair) =
      rest_keeps (serve_job P j s) (serve_job-Keeps j s inv now_fair) fair
        (λ s' inv' fair'. serve_jobs-Keeps js s' inv' fair')
    where
      rest_keeps :
          (o : Option (Served P))
          → AfterJob KeepsWorld o
          → AfterJob (AllFair js) o
          → ((s' : Served P)
              → IsSubscribed P s'.world
              → AllFair js s'
              → AfterJob KeepsWorld (serve_jobs P js s'))
          → AfterJob KeepsWorld (o >>= serve_jobs P js)
      rest_keeps none h f next = tt
      rest_keeps (some s') h f next = next s' h f

  run_periodic-Keeps :
      (world_update : Game P → Game P) (t : Tick) (s : Served P)
      → ((g : Game P) → IsSubscribed P g → IsSubscribed P (world_update g))
      → IsSubscribed P s.world
      → IsSubscribed P (run_periodic P world_update t s).world
  unfolding run_periodic check_world
  run_periodic-Keeps world_update t s update_keeps inv =
      let g = world_update s.world in
      elim (Bool-cases (leb 1000 (elapsed t.now s.last_aoi_tick))) [
        | inl due ↦ rw due (
            check_session_timeout-IsSubscribed t.timeout_now t.sessions g
              (update_keeps s.world inv))
        | inr early ↦ rw early (update_keeps s.world inv)
      ]

  serve_round-Keeps :
      (world_update : Game P → Game P) (idx : ℕ) (t : Tick) (jobs : List (Moment × Job))
      (s : Served P)
      → ((g : Game P) → IsSubscribed P g → IsSubscribed P (world_update g))
      → IsSubscribed P s.world
      → AllFair jobs s
      → AfterJob KeepsWorld (serve_round P world_update idx t jobs s)
  unfolding serve_round
  serve_round-Keeps world_update idx t jobs s update_keeps inv fair =
      round_keeps (serve_jobs P jobs s) (serve_jobs-Keeps jobs s inv fair)
    where
      round_keeps :
          (o : Option (Served P))
          → AfterJob KeepsWorld o
          → AfterJob KeepsWorld (
              o >>= (λ served.
                some (if idx == 0 then run_periodic P world_update t served else served)))
      round_keeps none h = tt
      round_keeps (some served) h = elim (Bool-cases (idx == 0)) [
        | inl first ↦ rw first (run_periodic-Keeps world_update t served update_keeps h)
        | inr other ↦ rw other h
      ]

  -- A round of a logic thread that comes to an end, thread 0's periodic part with its timeouts included:
  -- the subscription invariant is kept over all of the round's jobs, login replies among them, if each is
  -- fair when its turn comes and World::Update keeps the invariant.
  pub serve_round-IsSubscribed :
      (world_update : Game P → Game P) (idx : ℕ) (t : Tick) (jobs : List (Moment × Job))
      (s s' : Served P)
      → ((g : Game P) → IsSubscribed P g → IsSubscribed P (world_update g))
      → IsSubscribed P s.world
      → AllFair jobs s
      → serve_round P world_update idx t jobs s ≡ some s'
      → IsSubscribed P s'.world
  serve_round-IsSubscribed world_update idx t jobs s s' update_keeps inv fair e =
      subst (AfterJob KeepsWorld) e
        (serve_round-Keeps world_update idx t jobs s update_keeps inv fair)
