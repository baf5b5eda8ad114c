-- ===== src/Database/Order.antt =====
-- One database thread runs the tasks in the order in which they were pushed (MMO/Server/DB/DBManager.cpp).
use mmorpg_server.Base.{
  ℕ, zero, suc, ◌≡◌, refl, sym, ap₂, append-nil, append_assoc, ◌∙◌, subst, true, Option, none, some,
  List, [], ◌∷◌, ◌++◌, if◌then◌else◌, Bool-cases, inl, inr,
}
use mmorpg_server.Database.{
  Tasks, Worker, waiting, running, ended, DbManager, AllEnded, push_query, shutdown, take_task,
  call_task, worker_step, put_worker, step_at, go_on, run_schedule,
}
use mmorpg_server.Database.Load.{AllReturn}
use mmorpg_server.Database.Runs.{IsStuck, stuck_drained}

module _ (T : Tasks) where
  -- A task, and tasks one after another; without a valid connection a task is dropped.
  abbrev pub call_one : Option T.Task → T.World → T.World
  call_one none world = world
  call_one (some task) world = if T.is_valid world then (T.call task world).0 else world

  abbrev pub call_all : List (Option T.Task) → T.World → T.World
  call_all [] world = world
  call_all (task ∷ rest) world = call_all rest (call_one task world)

  -- What the world is to become, with one thread.
  abbrev future : Worker T → DbManager T → T.World
  future waiting m = call_all m.tasks m.world
  future (running task) m = call_all m.tasks (call_one task m.world)
  future ended m = call_all m.tasks m.world

  abbrev SameFuture : T.World → Option (Worker T × DbManager T) → Type 0
  SameFuture world none = Unit
  SameFuture world (some (w, m)) = future w m ≡ world

  take_task-future :
      (tasks : List (Option T.Task)) (m : DbManager T)
      → m.tasks ≡ tasks
      → SameFuture (future waiting m) (take_task T tasks m)
  unfolding take_task
  take_task-future [] m e = elim (Bool-cases m.stop) [
    | inl stopped ↦ rw stopped refl
    | inr open_still ↦ rw open_still tt
  ]
  take_task-future (task ∷ rest) m e = rw e refl

  worker_step-future :
      (w : Worker T) (m : DbManager T) → AllReturn T → SameFuture (future w m) (worker_step T w m)
  unfolding worker_step call_task
  worker_step-future waiting m all = take_task-future m.tasks m refl
  worker_step-future (running none) m all = refl
  worker_step-future (running (some task)) m all = elim (Bool-cases (T.is_valid m.world)) [
    | inl valid ↦ rw (valid, all task m.world) refl
    | inr broken ↦ rw broken refl
  ]
  worker_step-future ended m all = tt

  abbrev SameFutures : T.World → Option (List (Worker T) × DbManager T) → Type 0
  SameFutures world none = Unit
  SameFutures world (some (ws, m)) = (w : Worker T) × (ws ≡ w ∷ []) × (future w m ≡ world)

  run_future :
      (is : List ℕ) (w : Worker T) (m : DbManager T)
      → AllReturn T
      → SameFutures (future w m) (run_schedule T is (w ∷ []) m)
  unfolding run_schedule step_at
  run_future [] w m all = (w, refl, refl)
  run_future (suc i ∷ is) w m all = tt
  run_future (zero ∷ is) w m all =
      go_future (worker_step T w m) (worker_step-future w m all) (λ w' m'. run_future is w' m' all)
    where
      then_future :
          {a b : T.World} (o : Option (List (Worker T) × DbManager T))
          → b ≡ a
          → SameFutures b o
          → SameFutures a o
      then_future none e h = tt
      then_future (some (ws, m')) e (w', one, h) = (w', one, h ∙ e)

      go_future :
          (o : Option (Worker T × DbManager T))
          → SameFuture (future w m) o
          → ((w' : Worker T) (m' : DbManager T)
              → SameFutures (future w' m') (run_schedule T is (w' ∷ []) m'))
          → SameFutures (future w m) (go_on T (run_schedule T is) (put_worker T [] o))
      go_future none h rest = tt
      go_future (some (w', m')) h rest = then_future (run_schedule T is (w' ∷ []) m') h (rest w' m')

  ended_future : (w : Worker T) (m : DbManager T) → w ≡ ended → m.tasks ≡ [] → future w m ≡ m.world
  ended_future w m e f = rw (e, f) refl

  stopped_order :
      (is : List ℕ) (ws' : List (Worker T)) (m m' : DbManager T)
      → AllReturn T
      → m.stop ≡ true
      → run_schedule T is (waiting ∷ []) m ≡ some (ws', m')
      → IsStuck T ws' m'
      → m'.world ≡ call_all m.tasks m.world
  stopped_order is ws' m m' all stopped e stuck =
      let (over, no_tasks) = stuck_drained T is (waiting ∷ []) ws' m m' stopped e stuck all refl in
      let (w, one, same) = subst (SameFutures (future waiting m)) e (run_future is waiting m all) in
      let (w_ended, none_more) = subst (AllEnded T) one over in
      sym (ended_future w m' w_ended no_tasks) ∙ same

  abbrev pub push_all : List (Option T.Task) → DbManager T → DbManager T
  push_all [] m = m
  push_all (task ∷ rest) m = push_all rest (push_query T task m)

  push_all_tasks :
      (pushed : List (Option T.Task)) (m : DbManager T)
      → ((push_all pushed m).tasks ≡ m.tasks ++ pushed) × ((push_all pushed m).world ≡ m.world)
  unfolding push_query
  push_all_tasks [] m = (sym (append-nil m.tasks), refl)
  push_all_tasks (task ∷ rest) m =
      let (tasks, world) = push_all_tasks rest (push_query T task m) in
      (tasks ∙ append_assoc m.tasks (task ∷ []) rest, world)

  call_all-append :
      (ts us : List (Option T.Task)) (world : T.World)
      → call_all (ts ++ us) world ≡ call_all us (call_all ts world)
  call_all-append [] us world = refl
  call_all-append (t ∷ ts) us world = call_all-append ts us (call_one t world)

  -- One thread, any tasks pushed behind those that wait, then Shutdown; no task throws. When the thread
  -- can make no step any more, every task has run, on what the tasks before it left, in the order of the
  -- pushes; but a task that comes up while the connection is not valid is dropped.
  pub one_worker_order :
      (is : List ℕ) (ws' : List (Worker T)) (pushed : List (Option T.Task)) (m m' : DbManager T)
      → AllReturn T
      → run_schedule T is (waiting ∷ []) (shutdown T (push_all pushed m)) ≡ some (ws', m')
      → IsStuck T ws' m'
      → m'.world ≡ call_all pushed (call_all m.tasks m.world)
  unfolding shutdown
  one_worker_order is ws' pushed m m' all e stuck =
      let (tasks, world) = push_all_tasks pushed m in
      stopped_order is ws' (shutdown T (push_all pushed m)) m' all refl e stuck
      ∙ ap₂ call_all tasks world
      ∙ call_all-append m.tasks pushed m.world
