-- ===== src/Database/Heard.antt =====
-- No wake-up of a database thread is lost (MMO/Server/DB/DBManager.cpp).
use mmorpg_server.Base.{
  ℕ, zero, suc, ◌+◌, ◌≤◌, ◌<◌, ◌≡◌, refl, Bool, true, false, Option, none, some, List, [], ◌∷◌, ◌⊎◌,
  inl, inr, arith, if◌then◌else◌, subst,
}
use mmorpg_server.Handler.{◌>>=◌}
use mmorpg_server.Database.Sleep.{
  Sleepers, SleepEvent, pushes, notifies_one, stops, notifies_all, tests, finishes, throws, wakes,
  new_sleepers, push_task, notify_one, set_stop, notify_all, test_tasks, finish_task, throw_task,
  sleep_step, sleep_run, wake,
}

-- If a thread sleeps: for each task that waits, a thread is on its way to the test or a notification is
-- to come; and m_stop is set only if Shutdown's notification is to come.
pub record IsHeard (threads : ℕ) (s : Sleepers) : Type 0 where
  pub all_there : s.awake + s.asleep + s.busy + s.ended ≡ threads
  pub tasks_heard : (s.asleep ≡ 0) ⊎ (s.tasks ≤ s.awake + s.notifying)
  pub stop_heard : (s.asleep ≡ 0) ⊎ ((s.stop ≡ false) ⊎ (0 < s.stopping))

abbrev HeardBy : ℕ → Option Sleepers → Type 0
HeardBy threads none = Unit
HeardBy threads (some s) = IsHeard threads s

notify_one-IsHeard :
    (threads notifying asleep : ℕ) (s : Sleepers)
    → s.notifying ≡ notifying
    → s.asleep ≡ asleep
    → IsHeard threads s
    → HeardBy threads (notify_one notifying asleep s)
unfolding notify_one
notify_one-IsHeard threads zero asleep s e f h = tt
notify_one-IsHeard threads (suc notifying) zero s e f h = record {
  all_there = h.all_there;
  tasks_heard = inl f;
  stop_heard = h.stop_heard;
}
notify_one-IsHeard threads (suc notifying) (suc asleep) s e f h = record {
  all_there = omega (arith, h.all_there, f);
  tasks_heard = ground (arith, h.tasks_heard, e, f);
  stop_heard = ground (arith, h.stop_heard, f);
}

notify_all-IsHeard :
    (threads stopping : ℕ) (s : Sleepers)
    → IsHeard threads s
    → HeardBy threads (notify_all stopping s)
unfolding notify_all
notify_all-IsHeard threads zero s h = tt
notify_all-IsHeard threads (suc stopping) s h = record {
  all_there = omega (arith, h.all_there);
  tasks_heard = inl refl;
  stop_heard = inl refl;
}

test_tasks-IsHeard :
    (threads awake tasks : ℕ) (s : Sleepers)
    → s.awake ≡ awake
    → s.tasks ≡ tasks
    → IsHeard threads s
    → HeardBy threads (test_tasks awake tasks s)
unfolding test_tasks
test_tasks-IsHeard threads zero tasks s e f h = tt
test_tasks-IsHeard threads (suc awake) (suc tasks) s e f h = record {
  all_there = omega (arith, h.all_there, e);
  tasks_heard = ground (arith, h.tasks_heard, e, f);
  stop_heard = h.stop_heard;
}
test_tasks-IsHeard threads (suc awake) zero s e f h =
    either s.stop _ _
      (λ told. record {
        all_there = omega (arith, h.all_there, e);
        tasks_heard = inr (omega (arith, f));
        stop_heard = h.stop_heard;
      })
      (λ on. record {
        all_there = omega (arith, h.all_there, e);
        tasks_heard = inr (omega (arith, f));
        stop_heard = inr (inl on);
      })
  where
    either :
        (b : Bool) (x y : Sleepers)
        → (b ≡ true → IsHeard threads x)
        → (b ≡ false → IsHeard threads y)
        → IsHeard threads (if b then x else y)
    either true x y k l = k refl
    either false x y k l = l refl

finish_task-IsHeard :
    (threads busy : ℕ) (s : Sleepers)
    → s.busy ≡ busy
    → IsHeard threads s
    → HeardBy threads (finish_task busy s)
unfolding finish_task
finish_task-IsHeard threads zero s e h = tt
finish_task-IsHeard threads (suc busy) s e h = record {
  all_there = omega (arith, h.all_there, e);
  tasks_heard = ground (arith, h.tasks_heard);
  stop_heard = h.stop_heard;
}

throw_task-IsHeard :
    (threads busy : ℕ) (s : Sleepers)
    → s.busy ≡ busy
    → IsHeard threads s
    → HeardBy threads (throw_task busy s)
unfolding throw_task
throw_task-IsHeard threads zero s e h = tt
throw_task-IsHeard threads (suc busy) s e h = record {
  all_there = omega (arith, h.all_there, e);
  tasks_heard = h.tasks_heard;
  stop_heard = h.stop_heard;
}

wake-IsHeard :
    (threads asleep : ℕ) (s : Sleepers)
    → s.asleep ≡ asleep
    → IsHeard threads s
    → HeardBy threads (wake asleep s)
wake-IsHeard threads zero s e h = tt
wake-IsHeard threads (suc asleep) s e h = record {
  all_there = omega (arith, h.all_there, e);
  tasks_heard = ground (arith, h.tasks_heard, e);
  stop_heard = ground (arith, h.stop_heard, e);
}

sleep_step-IsHeard :
    (threads : ℕ) (e : SleepEvent) (s : Sleepers)
    → IsHeard threads s
    → HeardBy threads (sleep_step e s)
unfolding sleep_step push_task set_stop
sleep_step-IsHeard threads pushes s h = record {
  all_there = h.all_there;
  tasks_heard = ground (arith, h.tasks_heard);
  stop_heard = h.stop_heard;
}
sleep_step-IsHeard threads notifies_one s h =
    notify_one-IsHeard threads s.notifying s.asleep s refl refl h
sleep_step-IsHeard threads stops s h = record {
  all_there = h.all_there;
  tasks_heard = h.tasks_heard;
  stop_heard = inr (inr (omega arith));
}
sleep_step-IsHeard threads notifies_all s h = notify_all-IsHeard threads s.stopping s h
sleep_step-IsHeard threads tests s h = test_tasks-IsHeard threads s.awake s.tasks s refl refl h
sleep_step-IsHeard threads finishes s h = finish_task-IsHeard threads s.busy s refl h
sleep_step-IsHeard threads throws s h = throw_task-IsHeard threads s.busy s refl h
sleep_step-IsHeard threads wakes s h = wake-IsHeard threads s.asleep s refl h

sleep_run-IsHeard :
    (threads : ℕ) (es : List SleepEvent) (s : Sleepers)
    → IsHeard threads s
    → HeardBy threads (sleep_run es s)
unfolding sleep_run
sleep_run-IsHeard threads [] s h = h
sleep_run-IsHeard threads (e ∷ es) s h =
    rest_heard (sleep_step e s) (sleep_step-IsHeard threads e s h)
      (λ s' h'. sleep_run-IsHeard threads es s' h')
  where
    rest_heard :
        (o : Option Sleepers)
        → HeardBy threads o
        → ((s' : Sleepers) → IsHeard threads s' → HeardBy threads (sleep_run es s'))
        → HeardBy threads (o >>= sleep_run es)
    rest_heard none h' rest = tt
    rest_heard (some s') h' rest = rest s' h'

-- The database threads from their start, with pushes, notifications, wake-ups, tasks that return or throw
-- and Shutdown in any order: as many threads as there were are awake, asleep, busy or returned. If one
-- sleeps, then for each task that waits a thread is on its way to the test or a notification is still to
-- come, and m_stop is set only if Shutdown's notification is still to come: no wake-up is lost.
pub sleep_run-heard :
    (threads : ℕ) (es : List SleepEvent) (s : Sleepers)
    → sleep_run es (new_sleepers threads) ≡ some s
    → (s.awake + s.asleep + s.busy + s.ended ≡ threads)
      × ((s.asleep ≡ 0) ⊎ (s.tasks ≤ s.awake + s.notifying))
      × ((s.asleep ≡ 0) ⊎ ((s.stop ≡ false) ⊎ (0 < s.stopping)))
unfolding new_sleepers
sleep_run-heard threads es s e =
    let start : IsHeard threads (new_sleepers threads) = record {
      all_there = omega arith;
      tasks_heard = inl refl;
      stop_heard = inl refl;
    } in
    let h = subst (HeardBy threads) e (sleep_run-IsHeard threads es (new_sleepers threads) start) in
    (h.all_there, h.tasks_heard, h.stop_heard)
