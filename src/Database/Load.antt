-- ===== src/Database/Load.antt =====
-- What one step of a database thread does to the queue (MMO/Server/DB/DBManager.cpp).
use mmorpg_server.Base.{
  ℕ, zero, suc, ◌+◌, ◌*◌, ◌≤◌, ◌≡◌, refl, Bool, true, false, ◌||◌, Option, none, some, List, [],
  ◌∷◌, arith, length, Bool-cases, inl, inr,
}
use mmorpg_server.Database.{
  Tasks, Worker, waiting, running, ended, DbManager, take_task, call_task, worker_step, put_worker,
  keep_worker, step_at,
}

module _ (T : Tasks) where
  -- What some threads still have: whether one has not returned, the steps that they can make without new
  -- tasks, and the tasks that they hold.
  pub record Load : Type 0 where
    pub live : Bool
    pub weight : ℕ
    pub held : ℕ

  abbrev load_of : Worker T → Load
  load_of waiting = record { live = true; weight = 1; held = 0 }
  load_of (running none) = record { live = true; weight = 2; held = 0 }
  load_of (running (some task)) = record { live = true; weight = 2; held = 1 }
  load_of ended = record { live = false; weight = 0; held = 0 }

  abbrev add_load : Load → Load → Load
  add_load a b = record {
    live = a.live || b.live;
    weight = a.weight + b.weight;
    held = a.held + b.held;
  }

  abbrev pub load : List (Worker T) → Load
  load [] = record { live = false; weight = 0; held = 0 }
  load (w ∷ ws) = add_load (load_of w) (load ws)

  abbrev pub is_empty : List (Option T.Task) → Bool
  is_empty [] = true
  is_empty (task ∷ rest) = false

  -- The tasks of a queue that are not empty functions.
  abbrev pub full_tasks : List (Option T.Task) → ℕ
  full_tasks [] = 0
  full_tasks (none ∷ rest) = full_tasks rest
  full_tasks (some task ∷ rest) = suc (full_tasks rest)

  -- No thread that has not returned: the joins of Shutdown are over.
  abbrev pub has_live : List (Worker T) → Bool
  has_live ws = (load ws).live

  -- The steps that are left, at most, when no task is pushed.
  abbrev pub steps_left : List (Worker T) → DbManager T → ℕ
  steps_left ws m = (load ws).weight + 2 * length m.tasks

  -- The tasks that are still to be called.
  abbrev pub to_call : List (Worker T) → DbManager T → ℕ
  to_call ws m = (load ws).held + full_tasks m.tasks

  -- No call of a task throws.
  abbrev pub AllReturn : Type 0
  AllReturn = (task : T.Task) (world : T.World) → (T.call task world).1 ≡ true

  -- What a step does, from one load and manager to another.
  pub record StepFacts (a : Load) (m : DbManager T) (b : Load) (m' : DbManager T) : Type 0 where
    pub fewer : suc (b.weight + 2 * length m'.tasks) ≤ a.weight + 2 * length m.tasks
    pub stops : m'.stop ≡ m.stop
    pub idle : AllReturn → (b.live || is_empty m'.tasks) ≡ true
    pub counts :
        AllReturn
        → b.held + full_tasks m'.tasks + m'.db_count ≡ a.held + full_tasks m.tasks + m.db_count

  abbrev AfterStep : Load → DbManager T → Option (Worker T × DbManager T) → Type 0
  AfterStep a m none = Unit
  AfterStep a m (some (w, m')) = StepFacts a m (load_of w) m'

  take_task_facts :
      (tasks : List (Option T.Task)) (m : DbManager T)
      → m.tasks ≡ tasks
      → AfterStep (load_of waiting) m (take_task T tasks m)
  unfolding take_task
  take_task_facts [] m e = elim (Bool-cases m.stop) [
    | inl stopped ↦
        rw stopped record {
          fewer = omega arith;
          stops = refl;
          idle = λ all. rw e refl;
          counts = λ all. refl;
        }
    | inr open_still ↦ rw open_still tt
  ]
  take_task_facts (none ∷ rest) m e = record {
    fewer = rw e (omega arith);
    stops = refl;
    idle = λ all. refl;
    counts = λ all. rw e refl;
  }
  take_task_facts (some task ∷ rest) m e = record {
    fewer = rw e (omega arith);
    stops = refl;
    idle = λ all. refl;
    counts = λ all. rw e (omega arith);
  }

  call_task_facts :
      (task : T.Task) (m : DbManager T)
      → let r = call_task T task m in StepFacts (load_of (running (some task))) m (load_of r.0) r.1
  unfolding call_task
  call_task_facts task m = elim (Bool-cases (T.is_valid m.world)) [
    | inl valid ↦ elim (Bool-cases (T.call task m.world).1) [
      | inl returned ↦
          rw (valid, returned)
            record {
              fewer = omega arith;
              stops = refl;
              idle = λ all. refl;
              counts = λ all. omega arith;
            }
      | inr threw ↦
          rw (valid, threw)
            record {
              fewer = omega arith;
              stops = refl;
              idle = λ all. absurd (cc (threw, all task m.world));
              counts = λ all. absurd (cc (threw, all task m.world));
            }
    ]
    | inr broken ↦ rw broken record {
      fewer = omega arith;
      stops = refl;
      idle = λ all. refl;
      counts = λ all. omega arith;
    }
  ]

  worker_step_facts : (w : Worker T) (m : DbManager T) → AfterStep (load_of w) m (worker_step T w m)
  unfolding worker_step
  worker_step_facts waiting m = take_task_facts m.tasks m refl
  worker_step_facts (running none) m = record {
    fewer = omega arith;
    stops = refl;
    idle = λ all. refl;
    counts = λ all. refl;
  }
  worker_step_facts (running (some task)) m = call_task_facts task m
  worker_step_facts ended m = tt

  -- Threads beside the one that makes the step.
  beside_right :
      {a b : Load} {m m' : DbManager T} (c : Load)
      → StepFacts a m b m'
      → StepFacts (add_load a c) m (add_load b c) m'
  beside_right {a} {b} {m} {m'} c f = record {
    fewer = omega (arith, f.fewer);
    stops = f.stops;
    idle = λ all. ground (arith, f.idle all);
    counts = λ all. omega (arith, f.counts all);
  }

  beside_left :
      {a b : Load} {m m' : DbManager T} (c : Load)
      → StepFacts a m b m'
      → StepFacts (add_load c a) m (add_load c b) m'
  beside_left {a} {b} {m} {m'} c f = record {
    fewer = omega (arith, f.fewer);
    stops = f.stops;
    idle = λ all. ground (arith, f.idle all);
    counts = λ all. omega (arith, f.counts all);
  }

  abbrev pub AfterSteps :
      (DbManager T → Load → Load → DbManager T → Type 0)
      → List (Worker T)
      → DbManager T
      → Option (List (Worker T) × DbManager T)
      → Type 0
  AfterSteps F ws m none = Unit
  AfterSteps F ws m (some (ws', m')) = F m (load ws) (load ws') m'

  abbrev pub Stepped : DbManager T → Load → Load → DbManager T → Type 0
  Stepped m a b m' = StepFacts a m b m'

  pub step_at_facts :
      (i : ℕ) (ws : List (Worker T)) (m : DbManager T) → AfterSteps Stepped ws m (step_at T i ws m)
  unfolding step_at
  step_at_facts i [] m = tt
  step_at_facts zero (w ∷ ws) m = put_facts (worker_step T w m) (worker_step_facts w m)
    where
      put_facts :
          (o : Option (Worker T × DbManager T))
          → AfterStep (load_of w) m o
          → AfterSteps Stepped (w ∷ ws) m (put_worker T ws o)
      put_facts none h = tt
      put_facts (some (w', m')) h = beside_right (load ws) h
  step_at_facts (suc i) (w ∷ ws) m = keep_facts (step_at T i ws m) (step_at_facts i ws m)
    where
      keep_facts :
          (o : Option (List (Worker T) × DbManager T))
          → AfterSteps Stepped ws m o
          → AfterSteps Stepped (w ∷ ws) m (keep_worker T w o)
      keep_facts none h = tt
      keep_facts (some (ws', m')) h = beside_left (load_of w) h
