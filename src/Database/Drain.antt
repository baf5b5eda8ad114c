-- ===== src/Database/Drain.antt =====
-- How the database threads end (MMO/Server/DB/DBManager.cpp).
use mmorpg_server.Base.{
  ℕ, zero, suc, ◌+◌, ◌≤◌, ◌≡◌, ◌⊎◌, refl, ap, ◌∙◌, subst, true, Option, none, some, List, [], ◌∷◌,
  arith, inl, inr,
}
use mmorpg_server.Database.{
  Tasks, Worker, waiting, running, ended, DbManager, AllEnded, shutdown, take_task, worker_step,
  put_worker, keep_worker, step_at, go_on, run_schedule,
}
use mmorpg_server.Database.Runs.{ended_drained}
use mmorpg_server.Database.Load.{
  load, has_live, steps_left, to_call, AllReturn, StepFacts, AfterSteps, Stepped, step_at_facts,
}

module _ (T : Tasks) where
  -- A thread has returned or can make a step.
  take_progress :
      (tasks : List (Option T.Task)) (m : DbManager T)
      → m.stop ≡ true
      → (w : Worker T) × (m' : DbManager T) × (take_task T tasks m ≡ some (w, m'))
  unfolding take_task
  take_progress [] m stopped = (ended, m, rw stopped refl)
  take_progress (task ∷ rest) m stopped = (running task, record m { tasks = rest }, refl)

  worker_progress :
      (w : Worker T) (m : DbManager T)
      → m.stop ≡ true
      → (w ≡ ended) ⊎ ((w' : Worker T) × (m' : DbManager T) × (worker_step T w m ≡ some (w', m')))
  unfolding worker_step
  worker_progress waiting m stopped = inr (take_progress m.tasks m stopped)
  worker_progress (running none) m stopped = inr (waiting, m, refl)
  worker_progress (running (some task)) m stopped = inr (_, _, refl)
  worker_progress ended m stopped = inl refl

  progress :
      (ws : List (Worker T)) (m : DbManager T)
      → m.stop ≡ true
      → AllEnded T ws
        ⊎ ((i : ℕ) × (ws' : List (Worker T)) × (m' : DbManager T) × (step_at T i ws m
              ≡ some (ws', m')))
  unfolding step_at
  progress [] m stopped = inl tt
  progress (w ∷ ws) m stopped = elim (worker_progress w m stopped) [
    | inr (w', m', e) ↦ inr (zero, w' ∷ ws, m', ap (put_worker T ws) e)
    | inl e ↦ elim (progress ws m stopped) [
      | inl over ↦ inl (e, over)
      | inr (i, ws', m', f) ↦ inr (suc i, w ∷ ws', m', ap (keep_worker T w) f)
    ]
  ]

  step_from :
      (i : ℕ) (ws : List (Worker T)) {ws' : List (Worker T)} (m : DbManager T) {m' : DbManager T}
      → step_at T i ws m ≡ some (ws', m')
      → StepFacts T (load T ws) m (load T ws') m'
  step_from i ws {ws'} m {m'} e = subst (AfterSteps T (Stepped T) ws m) e (step_at_facts T i ws m)

  record Ended (ws : List (Worker T)) (m : DbManager T) : Type 0 where
    schedule : List ℕ
    workers : List (Worker T)
    manager : DbManager T
    runs : run_schedule T schedule ws m ≡ some (workers, manager)
    over : AllEnded T workers

  step_first :
      (i : ℕ) (ws : List (Worker T)) {ws' : List (Worker T)} (m : DbManager T) {m' : DbManager T}
      → step_at T i ws m ≡ some (ws', m')
      → Ended ws' m'
      → Ended ws m
  unfolding run_schedule
  step_first i ws {ws'} m {m'} e r = record {
    schedule = i ∷ r.schedule;
    workers = r.workers;
    manager = r.manager;
    runs = ap (go_on T (run_schedule T r.schedule)) e ∙ r.runs;
    over = r.over;
  }

  run_out :
      (fuel : ℕ) (ws : List (Worker T)) (m : DbManager T)
      → m.stop ≡ true
      → steps_left T ws m ≤ fuel
      → Ended ws m
  unfolding run_schedule
  run_out zero ws m stopped le = elim (progress ws m stopped) [
    | inl over ↦ record { schedule = []; workers = ws; manager = m; runs = refl; over = over }
    | inr (i, ws', m', e) ↦ absurd (omega (arith, le, (step_from i ws m e).fewer))
  ]
  run_out (suc fuel) ws m stopped le = elim (progress ws m stopped) [
    | inl over ↦ record { schedule = []; workers = ws; manager = m; runs = refl; over = over }
    | inr (i, ws', m', e) ↦ step_first i ws m e (
        run_out fuel ws' m' ((step_from i ws m e).stops ∙ stopped)
          (omega (arith, le, (step_from i ws m e).fewer)))
  ]

  -- After Shutdown, from wherever the threads are, if one of them has not returned and no task throws:
  -- they can make steps at whose end every thread has returned, so that the joins are over, the queue is
  -- empty and the monitor has counted every task that was waiting or taken.
  pub shutdown_drains :
      (ws : List (Worker T)) (m : DbManager T)
      → AllReturn T
      → has_live T ws ≡ true
      → let stopped = shutdown T m in
        (is : List ℕ) × (ws' : List (Worker T)) × (m' : DbManager T) × (run_schedule T is ws stopped
          ≡ some (ws', m'))
        × AllEnded T ws'
        × (m'.tasks ≡ [])
        × (m'.db_count ≡ m.db_count + to_call T ws m)
  unfolding shutdown
  shutdown_drains ws m all alive =
      let r = run_out (steps_left T ws m) ws (shutdown T m) refl (omega arith) in
      let (no_tasks, counted) =
        ended_drained T r.schedule ws r.workers (shutdown T m) r.manager r.runs r.over all alive in
      (r.schedule, r.workers, r.manager, r.runs, r.over, no_tasks, counted)
