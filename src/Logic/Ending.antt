-- ===== src/Logic/Ending.antt =====
-- The end of a logic thread after Shutdown (MMO/Server/Core/LogicManager.h).
use mmorpg_server.Base.{
  ℕ, suc, ◌+◌, ◌≤◌, ◌≡◌, ◌≢◌, refl, sym, ap, ◌∙◌, subst, true, false, some, List, [], ◌∷◌, ◌++◌,
  arith, length, append_assoc, append-nil,
}
use mmorpg_server.Logic.{Job}
use mmorpg_server.Logic.Wait.{
  Phase, testing, deciding, asleep, ended, handling, LogicThread, new_thread, take_jobs, test_jobs,
  own_step, time_out, ThreadEvent, steps, times_out, thread_step, thread_run,
}
use mmorpg_server.Logic.Wakes.{in_hand, all_jobs, pushed_all, IsAwakeFor, thread_run-Kept}

-- Only what the thread does by itself: its steps, and the end of its wait.
abbrev pub IsOwn : ThreadEvent → Type 0
IsOwn steps = Unit
IsOwn times_out = Unit
IsOwn _ = true ≡ false

abbrev pub AllOwn : List ThreadEvent → Type 0
AllOwn [] = Unit
AllOwn (e ∷ es) = IsOwn e × AllOwn es

-- By itself, in so many events, the thread ends, with all its jobs handled.
pub record Ends (count : ℕ) (t : LogicThread) : Type 0 where
  pub events : List ThreadEvent
  pub final : LogicThread
  pub own : AllOwn events
  pub counted : length events ≡ count
  pub ran : thread_run events t ≡ some final
  pub over : final.phase ≡ ended
  pub done : final.handled ≡ all_jobs t

first-then :
    {count : ℕ} (e : ThreadEvent) (t t' : LogicThread)
    → IsOwn e
    → thread_step e t ≡ some t'
    → all_jobs t' ≡ all_jobs t
    → Ends count t'
    → Ends (suc count) t
unfolding thread_run
first-then e t t' own step same rest = record {
  events = e ∷ rest.events;
  final = rest.final;
  own = (own, rest.own);
  counted = ap suc rest.counted;
  ran = rw step rest.ran;
  over = rest.over;
  done = rest.done ∙ same;
}

-- A thread that has been told to stop.
abbrev told : Phase → List Job → List Job → LogicThread
told phase jobs handled = record { phase = phase; jobs = jobs; stop = true; handled = handled }

-- At the test, with no job waiting.
Ends-empty : (handled : List Job) → Ends 1 (told testing [] handled)
unfolding thread_run thread_step own_step test_jobs take_jobs
Ends-empty handled = record {
  events = steps ∷ [];
  final = told ended [] handled;
  own = (tt, tt);
  counted = refl;
  ran = refl;
  over = refl;
  done = sym (append-nil handled);
}

-- With jobs in hand, up to the next test.
Ends-handling :
    {count : ℕ} (js jobs handled : List Job)
    → Ends count (told testing jobs (handled ++ js))
    → Ends (suc (length js) + count) (told (handling js) jobs handled)
unfolding thread_step own_step
Ends-handling {count} [] jobs handled rest =
    let next : Ends count (told testing jobs handled) =
      subst (λ hs. Ends count (told testing jobs hs)) (append-nil handled) rest in
    subst (λ k. Ends k (told (handling []) jobs handled)) (omega arith)
      (first-then steps (told (handling []) jobs handled) (told testing jobs handled) tt refl refl
        next)
Ends-handling {count} (job ∷ js) jobs handled rest =
    let next : Ends (suc (length js) + count) (told (handling js) jobs (handled ++ (job ∷ []))) =
      Ends-handling js jobs (handled ++ (job ∷ [])) (
        subst (λ hs. Ends count (told testing jobs hs)) (sym (append_assoc handled (job ∷ []) js))
          rest) in
    subst (λ k. Ends k (told (handling (job ∷ js)) jobs handled)) (omega arith)
      (first-then steps (told (handling (job ∷ js)) jobs handled)
        (told (handling js) jobs (handled ++ (job ∷ []))) tt refl
        (append_assoc handled (job ∷ []) (js ++ jobs)) next)

-- Few events bring the thread to its end.
abbrev pub EndsWithin : ℕ → LogicThread → Type 0
EndsWithin bound t = (count : ℕ) × (count ≤ bound) × Ends count t

ends_testing : (jobs handled : List Job) → EndsWithin (length jobs + 3) (told testing jobs handled)
unfolding thread_step own_step test_jobs take_jobs
ends_testing [] handled = (1, omega arith, Ends-empty handled)
ends_testing (job ∷ jobs) handled = (
  suc (suc (length (job ∷ jobs)) + 1),
  omega arith,
  first-then steps (told testing (job ∷ jobs) handled) (told (handling (job ∷ jobs)) [] handled) tt
      refl (ap (λ js. handled ++ js) (append-nil (job ∷ jobs)))
      (Ends-handling (job ∷ jobs) [] handled (Ends-empty (handled ++ (job ∷ jobs)))),
)

-- The end of the wait comes by itself, so that the thread ends even if the notification came too early.
Ends-asleep : (handled : List Job) → Ends 1 (told asleep [] handled)
unfolding thread_run thread_step time_out take_jobs
Ends-asleep handled = record {
  events = times_out ∷ [];
  final = told ended [] handled;
  own = (tt, tt);
  counted = refl;
  ran = refl;
  over = refl;
  done = sym (append-nil handled);
}

Ends-deciding : (handled : List Job) → Ends 2 (told deciding [] handled)
unfolding thread_step own_step
Ends-deciding handled =
    first-then steps (told deciding [] handled) (told asleep [] handled) tt refl refl
      (Ends-asleep handled)

ends_from :
    (p : Phase) (jobs handled : List Job)
    → IsAwakeFor p (told p jobs handled)
    → p ≢ ended
    → EndsWithin (length (in_hand p) + length jobs + 4) (told p jobs handled)
ends_from testing jobs handled awake on =
    let (count, few, ends) = ends_testing jobs handled in (count, omega (arith, few), ends)
ends_from deciding jobs handled awake on = (
  2,
  omega arith,
  subst (λ js. Ends 2 (told deciding js handled)) (sym awake) (Ends-deciding handled),
)
ends_from asleep jobs handled awake on = (
  1,
  omega arith,
  subst (λ js. Ends 1 (told asleep js handled)) (sym awake) (Ends-asleep handled),
)
ends_from (handling js) jobs handled awake on =
    let (count, few, ends) = ends_testing jobs (handled ++ js) in
    (suc (length js) + count, omega (arith, few), Ends-handling js jobs handled ends)
ends_from ended jobs handled awake on = absurd (on refl)

-- Shutdown sets m_stop without the mutex, so that its notification can come before the thread sleeps. All
-- the same, from wherever a thread is that has been told to stop and has not ended, whatever came
-- before: by itself, with no further notification, and in four events more than it has jobs, it handles
-- every job that was pushed, in the order of the pushes, and ends.
pub thread_ends :
    (es : List ThreadEvent) (t : LogicThread)
    → thread_run es new_thread ≡ some t
    → t.stop ≡ true
    → t.phase ≢ ended
    → EndsWithin (length (in_hand t.phase) + length t.jobs + 4) t × (all_jobs t ≡ pushed_all es)
unfolding new_thread
thread_ends es t e stop on =
    let (kept, awake) = thread_run-Kept es new_thread t tt e in
    let same : told t.phase t.jobs t.handled ≡ t =
      ap (λ b. record { phase = t.phase; jobs = t.jobs; stop = b; handled = t.handled })
        (sym stop) in
    (
      subst (EndsWithin (length (in_hand t.phase) + length t.jobs + 4)) same (
          ends_from t.phase t.jobs t.handled
            (subst (λ (k : LogicThread). IsAwakeFor k.phase k) (sym same) awake) on),
      kept,
    )
