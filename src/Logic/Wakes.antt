-- ===== src/Logic/Wakes.antt =====
-- A logic thread sleeps over no job, and ends after Shutdown (MMO/Server/Core/LogicManager.h).
use mmorpg_server.Base.{
  ◌≡◌, ◌≢◌, refl, sym, ap, ◌∙◌, subst, true, Option, none, some, List, [], ◌∷◌, ◌++◌, arith,
  if◌then◌else◌, append_assoc, append-nil, Bool-cases, inl, inr,
}
use mmorpg_server.Handler.{◌>>=◌}
use mmorpg_server.Logic.{Job}
use mmorpg_server.Logic.Wait.{
  Phase, testing, deciding, asleep, ended, handling, LogicThread, new_thread, take_jobs, test_jobs,
  own_step, time_out, woken, notify, push_waking, ThreadEvent, steps, times_out, stops, notifies,
  pushes, thread_step, thread_run,
}

-- The jobs that the thread has taken and not handled.
abbrev pub in_hand : Phase → List Job
in_hand (handling jobs) = jobs
in_hand _ = []

-- All jobs of the thread, in order.
abbrev pub all_jobs : LogicThread → List Job
all_jobs t = t.handled ++ (in_hand t.phase ++ t.jobs)

abbrev pub pushed_of : ThreadEvent → List Job
pushed_of (pushes job) = job ∷ []
pushed_of _ = []

abbrev pub pushed_all : List ThreadEvent → List Job
pushed_all [] = []
pushed_all (e ∷ es) = pushed_of e ++ pushed_all es

-- A thread that sleeps, or is about to, has no job to wait for it; one that has ended was told to stop.
abbrev pub IsAwakeFor : Phase → LogicThread → Type 0
IsAwakeFor asleep t = t.jobs ≡ []
IsAwakeFor deciding t = t.jobs ≡ []
IsAwakeFor ended t = t.stop ≡ true
IsAwakeFor _ t = Unit

-- What a step does to the jobs.
record Kept (added : List Job) (t t' : LogicThread) : Type 0 where
  jobs_kept : all_jobs t' ≡ all_jobs t ++ added
  awake_kept : IsAwakeFor t'.phase t'

abbrev KeptBy : List Job → LogicThread → Option LogicThread → Type 0
KeptBy added t none = Unit
KeptBy added t (some t') = Kept added t t'

none_added : (t t' : LogicThread) → all_jobs t' ≡ all_jobs t → all_jobs t' ≡ all_jobs t ++ []
none_added t t' e = e ∙ sym (append-nil (all_jobs t))

-- A thread with no job in hand.
idle_jobs : (t : LogicThread) → in_hand t.phase ≡ [] → all_jobs t ≡ t.handled ++ t.jobs
idle_jobs t idle = ap (λ js. t.handled ++ (js ++ t.jobs)) idle

take_jobs-Kept :
    (jobs : List Job) (t : LogicThread)
    → t.jobs ≡ jobs
    → in_hand t.phase ≡ []
    → Kept [] t (take_jobs jobs t)
unfolding take_jobs
take_jobs-Kept [] t same idle = elim (Bool-cases t.stop) [
  | inl told ↦ rw told record {
    jobs_kept = none_added t (record t { phase = ended }) (sym (idle_jobs t idle));
    awake_kept = refl;
  }
  | inr on ↦ rw on record {
    jobs_kept = none_added t (record t { phase = handling [] }) (sym (idle_jobs t idle));
    awake_kept = tt;
  }
]
take_jobs-Kept (job ∷ jobs) t same idle = record {
  jobs_kept =
      none_added t (record t { phase = handling (job ∷ jobs); jobs = [] })
        (ap (λ js. t.handled ++ js) (append-nil (job ∷ jobs) ∙ sym same) ∙ sym (idle_jobs t idle));
  awake_kept = tt;
}

test_jobs-Kept :
    (jobs : List Job) (t : LogicThread)
    → t.jobs ≡ jobs
    → in_hand t.phase ≡ []
    → Kept [] t (test_jobs jobs t)
unfolding test_jobs
test_jobs-Kept [] t same idle = elim (Bool-cases t.stop) [
  | inl told ↦
      subst (λ b. Kept [] t (if b then take_jobs [] t else record t { phase = deciding }))
        (sym told) (take_jobs-Kept [] t same idle)
  | inr on ↦ rw on record {
    jobs_kept = none_added t (record t { phase = deciding }) (sym (idle_jobs t idle));
    awake_kept = same;
  }
]
test_jobs-Kept (job ∷ jobs) t same idle = take_jobs-Kept (job ∷ jobs) t same idle

own_step-Kept :
    (p : Phase) (t : LogicThread) → t.phase ≡ p → IsAwakeFor p t → KeptBy [] t (own_step p t)
unfolding own_step
own_step-Kept testing t at awake = test_jobs-Kept t.jobs t refl (ap in_hand at)
own_step-Kept deciding t at awake = record {
  jobs_kept = none_added t (record t { phase = asleep }) (sym (idle_jobs t (ap in_hand at)));
  awake_kept = awake;
}
own_step-Kept asleep t at awake = tt
own_step-Kept (handling []) t at awake = record {
  jobs_kept = none_added t (record t { phase = testing }) (sym (idle_jobs t (ap in_hand at)));
  awake_kept = tt;
}
own_step-Kept (handling (job ∷ jobs)) t at awake = record {
  jobs_kept =
      none_added t (record t { phase = handling jobs; handled = t.handled ++ (job ∷ []) })
        (append_assoc t.handled (job ∷ []) (jobs ++ t.jobs)
          ∙ ap (λ js. t.handled ++ (js ++ t.jobs)) (sym (ap in_hand at)));
  awake_kept = tt;
}
own_step-Kept ended t at awake = tt

time_out-Kept : (p : Phase) (t : LogicThread) → t.phase ≡ p → KeptBy [] t (time_out p t)
unfolding time_out
time_out-Kept asleep t at = take_jobs-Kept t.jobs t refl (ap in_hand at)
time_out-Kept testing t at = tt
time_out-Kept deciding t at = tt
time_out-Kept (handling jobs) t at = tt
time_out-Kept ended t at = tt

woken-in_hand : (p : Phase) → in_hand (woken p) ≡ in_hand p
woken-in_hand testing = refl
woken-in_hand deciding = refl
woken-in_hand asleep = refl
woken-in_hand (handling jobs) = refl
woken-in_hand ended = refl

woken-awake :
    (p : Phase) (t : LogicThread)
    → IsAwakeFor p t
    → IsAwakeFor (woken p) (record t { phase = woken p })
woken-awake testing t awake = tt
woken-awake deciding t awake = awake
woken-awake asleep t awake = tt
woken-awake (handling jobs) t awake = tt
woken-awake ended t awake = awake

stopped-awake :
    (p : Phase) (t : LogicThread) → IsAwakeFor p t → IsAwakeFor p (record t { stop = true })
stopped-awake testing t awake = tt
stopped-awake deciding t awake = awake
stopped-awake asleep t awake = awake
stopped-awake (handling jobs) t awake = tt
stopped-awake ended t awake = refl

-- A push, which wakes a thread that sleeps.
pushed-awake :
    (p : Phase) (jobs : List Job) (t : LogicThread)
    → IsAwakeFor p t
    → p ≢ deciding
    → IsAwakeFor (woken p) (record t { phase = woken p; jobs = jobs })
pushed-awake testing jobs t awake free = tt
pushed-awake deciding jobs t awake free = absurd (free refl)
pushed-awake asleep jobs t awake free = tt
pushed-awake (handling js) jobs t awake free = tt
pushed-awake ended jobs t awake free = awake

push_notified :
    (job : Job) (t : LogicThread)
    → IsAwakeFor t.phase t
    → t.phase ≢ deciding
    → Kept (job ∷ []) t (notify (record t { jobs = t.jobs ++ (job ∷ []) }))
unfolding notify
push_notified job t awake free = record {
  jobs_kept =
      ap (λ js. t.handled ++ (js ++ (t.jobs ++ (job ∷ [])))) (woken-in_hand t.phase)
      ∙ ap (λ js. t.handled ++ js) (sym (append_assoc (in_hand t.phase) t.jobs (job ∷ [])))
      ∙ sym (append_assoc t.handled (in_hand t.phase ++ t.jobs) (job ∷ []));
  awake_kept = pushed-awake t.phase (t.jobs ++ (job ∷ [])) t awake free;
}

push_waking-Kept :
    (job : Job) (p : Phase) (t : LogicThread)
    → t.phase ≡ p
    → IsAwakeFor t.phase t
    → KeptBy (job ∷ []) t (push_waking job p t)
unfolding push_waking
push_waking-Kept job testing t at awake =
    push_notified job t awake (λ e. absurd (ground (arith, at, e)))
push_waking-Kept job deciding t at awake = tt
push_waking-Kept job asleep t at awake =
    push_notified job t awake (λ e. absurd (ground (arith, at, e)))
push_waking-Kept job (handling jobs) t at awake =
    push_notified job t awake (λ e. absurd (ground (arith, at, e)))
push_waking-Kept job ended t at awake =
    push_notified job t awake (λ e. absurd (ground (arith, at, e)))

thread_step-Kept :
    (e : ThreadEvent) (t : LogicThread)
    → IsAwakeFor t.phase t
    → KeptBy (pushed_of e) t (thread_step e t)
unfolding thread_step notify
thread_step-Kept steps t awake = own_step-Kept t.phase t refl awake
thread_step-Kept times_out t awake = time_out-Kept t.phase t refl
thread_step-Kept stops t awake = record {
  jobs_kept = none_added t (record t { stop = true }) refl;
  awake_kept = stopped-awake t.phase t awake;
}
thread_step-Kept notifies t awake = record {
  jobs_kept =
      none_added t (notify t) (ap (λ js. t.handled ++ (js ++ t.jobs)) (woken-in_hand t.phase));
  awake_kept = woken-awake t.phase t awake;
}
thread_step-Kept (pushes job) t awake = push_waking-Kept job t.phase t refl awake

pub thread_run-Kept :
    (es : List ThreadEvent) (t t' : LogicThread)
    → IsAwakeFor t.phase t
    → thread_run es t ≡ some t'
    → (all_jobs t' ≡ all_jobs t ++ pushed_all es) × IsAwakeFor t'.phase t'
unfolding thread_run
thread_run-Kept [] t t' awake e =
    let same : t ≡ t' = ground (arith, e) in
    (
      ap all_jobs (sym same) ∙ sym (append-nil (all_jobs t)),
      subst (λ (k : LogicThread). IsAwakeFor k.phase k) same awake,
    )
thread_run-Kept (ev ∷ es) t t' awake e =
    step_kept (thread_step ev t) (thread_step-Kept ev t awake) e (λ k a. thread_run-Kept es k t' a)
  where
    step_kept :
        (o : Option LogicThread)
        → KeptBy (pushed_of ev) t o
        → (o >>= thread_run es) ≡ some t'
        → ((k : LogicThread)
            → IsAwakeFor k.phase k
            → thread_run es k ≡ some t'
            → (all_jobs t' ≡ all_jobs k ++ pushed_all es) × IsAwakeFor t'.phase t')
        → (all_jobs t' ≡ all_jobs t ++ (pushed_of ev ++ pushed_all es)) × IsAwakeFor t'.phase t'
    step_kept none h run rest = absurd (ground (arith, run))
    step_kept (some k) h run rest =
        let (kept, awake') = rest k h.awake_kept run in
        (
          kept
              ∙ ap (λ js. js ++ pushed_all es) h.jobs_kept
              ∙ append_assoc (all_jobs t) (pushed_of ev) (pushed_all es),
          awake',
        )

-- A logic thread from its start, with pushes, wake-ups, timeouts and Shutdown at any time: the jobs that
-- it has handled, those that it has taken and those that wait are together the pushed ones, in the order
-- of the pushes. While it sleeps, or is about to, no job waits, so that no wake-up for a job is lost; and
-- it has ended only if it was told to stop.
pub thread_run_wakes :
    (es : List ThreadEvent) (t : LogicThread)
    → thread_run es new_thread ≡ some t
    → (t.handled ++ (in_hand t.phase ++ t.jobs) ≡ pushed_all es) × IsAwakeFor t.phase t
unfolding new_thread
thread_run_wakes es t e = thread_run-Kept es new_thread t tt e
