-- ===== src/Database/Runs.antt =====
-- What the steps of the database threads come to (MMO/Server/DB/DBManager.cpp).
use mmorpg_server.Base.{
  ℕ, zero, suc, ◌+◌, ◌*◌, ◌≤◌, ◌≡◌, ◌≢◌, refl, ap, ◌∙◌, subst, true, false, ◌||◌, Option, none,
  some, List, [], ◌∷◌, arith, length,
}
use mmorpg_server.Database.{
  Tasks, Worker, waiting, running, ended, DbManager, AllEnded, take_task, worker_step, put_worker,
  keep_worker, step_at, go_on, run_schedule,
}
use mmorpg_server.Database.Load.{
  Load, load, is_empty, full_tasks, has_live, steps_left, to_call, AllReturn, StepFacts, AfterSteps,
  Stepped, step_at_facts,
}

module _ (T : Tasks) where
  -- What a schedule does.
  record RunFacts (n : ℕ) (a : Load T) (m : DbManager T) (b : Load T) (m' : DbManager T)
      : Type 0 where
    fewer : n + (b.weight + 2 * length m'.tasks) ≤ a.weight + 2 * length m.tasks
    stops : m'.stop ≡ m.stop
    idle :
        AllReturn T → (a.live || is_empty T m.tasks) ≡ true → (b.live || is_empty T m'.tasks) ≡ true
    counts :
        AllReturn T
        → b.held + full_tasks T m'.tasks + m'.db_count ≡ a.held + full_tasks T m.tasks + m.db_count

  abbrev Ran : ℕ → DbManager T → Load T → Load T → DbManager T → Type 0
  Ran n m a b m' = RunFacts n a m b m'

  step_then :
      {n : ℕ} {a b c : Load T} {m m' m'' : DbManager T}
      → StepFacts T a m b m'
      → RunFacts n b m' c m''
      → RunFacts (suc n) a m c m''
  step_then {n} {a} {b} {c} {m} {m'} {m''} f r = record {
    fewer = omega (arith, f.fewer, r.fewer);
    stops = r.stops ∙ f.stops;
    idle = λ all start. r.idle all (f.idle all);
    counts = λ all. r.counts all ∙ f.counts all;
  }

  run_facts :
      (is : List ℕ) (ws : List (Worker T)) (m : DbManager T)
      → AfterSteps T (Ran (length is)) ws m (run_schedule T is ws m)
  unfolding run_schedule
  run_facts [] ws m = record {
    fewer = omega arith;
    stops = refl;
    idle = λ all start. start;
    counts = λ all. refl;
  }
  run_facts (i ∷ is) ws m =
      go_facts (step_at T i ws m) (step_at_facts T i ws m) (λ ws' m'. run_facts is ws' m')
    where
      then_facts :
          (ws' : List (Worker T)) (m' : DbManager T) (o : Option (List (Worker T) × DbManager T))
          → StepFacts T (load T ws) m (load T ws') m'
          → AfterSteps T (Ran (length is)) ws' m' o
          → AfterSteps T (Ran (suc (length is))) ws m o
      then_facts ws' m' none f h = tt
      then_facts ws' m' (some (ws'', m'')) f h = step_then f h

      go_facts :
          (o : Option (List (Worker T) × DbManager T))
          → AfterSteps T (Stepped T) ws m o
          → ((ws' : List (Worker T)) (m' : DbManager T)
              → AfterSteps T (Ran (length is)) ws' m' (run_schedule T is ws' m'))
          → AfterSteps T (Ran (suc (length is))) ws m (go_on T (run_schedule T is) o)
      go_facts none h rest = tt
      go_facts (some (ws', m')) h rest =
          then_facts ws' m' (run_schedule T is ws' m') h (rest ws' m')

  -- No thread can make a step.
  abbrev pub IsStuck : List (Worker T) → DbManager T → Type 0
  IsStuck ws m = (i : ℕ) → step_at T i ws m ≡ none

  waits_no_more :
      (tasks : List (Option T.Task)) (m : DbManager T) → m.stop ≡ true → take_task T tasks m ≢ none
  unfolding take_task
  waits_no_more [] m stopped e = absurd (ground (arith, e))
  waits_no_more (task ∷ rest) m stopped e = absurd (ground (arith, e))

  stuck_worker :
      (w : Worker T) (m : DbManager T) → m.stop ≡ true → worker_step T w m ≡ none → w ≡ ended
  unfolding worker_step
  stuck_worker waiting m stopped e = absurd (waits_no_more m.tasks m stopped e)
  stuck_worker (running none) m stopped e = absurd (ground (arith, e))
  stuck_worker (running (some task)) m stopped e = absurd (ground (arith, e))
  stuck_worker ended m stopped e = refl

  -- Once the managers are stopped, threads that can make no step have all returned.
  stuck_ended :
      (ws : List (Worker T)) (m : DbManager T) → m.stop ≡ true → IsStuck ws m → AllEnded T ws
  unfolding step_at
  stuck_ended [] m stopped stuck = tt
  stuck_ended (w ∷ ws) m stopped stuck = (
    stuck_worker w m stopped (put_none (worker_step T w m) (stuck zero)),
    stuck_ended ws m stopped (λ i. keep_none (step_at T i ws m) (stuck (suc i))),
  )
    where
      put_none : (o : Option (Worker T × DbManager T)) → put_worker T ws o ≡ none → o ≡ none
      put_none none e = refl
      put_none (some (w', m')) e = absurd (ground (arith, e))

      keep_none : (o : Option (List (Worker T) × DbManager T)) → keep_worker T w o ≡ none → o ≡ none
      keep_none none e = refl
      keep_none (some (ws', m')) e = absurd (ground (arith, e))

  ended_load :
      (ws : List (Worker T)) → AllEnded T ws → ((load T ws).live ≡ false) × ((load T ws).held ≡ 0)
  ended_load [] h = (refl, refl)
  ended_load (w ∷ ws) (e, h) =
      let (quiet, free) = ended_load ws h in rw e (quiet, omega (arith, free))

  emptied : (tasks : List (Option T.Task)) → is_empty T tasks ≡ true → (tasks ≡ [])
  emptied [] e = refl
  emptied (task ∷ rest) e = absurd (ground (arith, e))

  run_from :
      (is : List ℕ) (ws : List (Worker T)) {ws' : List (Worker T)} (m : DbManager T)
      {m' : DbManager T}
      → run_schedule T is ws m ≡ some (ws', m')
      → RunFacts (length is) (load T ws) m (load T ws') m'
  run_from is ws {ws'} m {m'} e = subst (AfterSteps T (Ran (length is)) ws m) e (run_facts is ws m)

  -- While no task is pushed, the threads can make no more steps than `steps_left` says, in any order:
  -- two for each waiting task and for each thread that runs one, and one for each that waits.
  pub schedule_bound :
      (is : List ℕ) (ws ws' : List (Worker T)) (m m' : DbManager T)
      → run_schedule T is ws m ≡ some (ws', m')
      → length is + steps_left T ws' m' ≤ steps_left T ws m
  schedule_bound is ws ws' m m' e = (run_from is ws m e).fewer

  -- A run at whose end every thread has returned.
  pub ended_drained :
      (is : List ℕ) (ws ws' : List (Worker T)) (m m' : DbManager T)
      → run_schedule T is ws m ≡ some (ws', m')
      → AllEnded T ws'
      → AllReturn T
      → has_live T ws ≡ true
      → (m'.tasks ≡ []) × (m'.db_count ≡ m.db_count + to_call T ws m)
  ended_drained is ws ws' m m' e over all alive =
      let r = run_from is ws m e in
      let (quiet, free) = ended_load ws' over in
      let no_tasks = emptied m'.tasks (ground (arith, r.idle all (ground (arith, alive)), quiet)) in
      (no_tasks, omega (arith, r.counts all, free, ap (full_tasks T) no_tasks))

  -- The same of a run after Shutdown whose threads can make no step any more.
  pub stuck_drained :
      (is : List ℕ) (ws ws' : List (Worker T)) (m m' : DbManager T)
      → m.stop ≡ true
      → run_schedule T is ws m ≡ some (ws', m')
      → IsStuck ws' m'
      → AllReturn T
      → has_live T ws ≡ true
      → AllEnded T ws' × (m'.tasks ≡ [])
  stuck_drained is ws ws' m m' stopped e stuck all alive =
      let over = stuck_ended ws' m' ((run_from is ws m e).stops ∙ stopped) stuck in
      (over, (ended_drained is ws ws' m m' e over all alive).0)
