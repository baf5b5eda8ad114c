-- ===== src/Logic/Affinity.antt =====
-- Session affinity (PushJob and Update of MMO/Server/Core/LogicManager.h).
use mmorpg_server.Base.{
  ℕ, ◌≡◌, refl, sym, ap, ◌∙◌, Bool, true, false, List, [], ◌∷◌, ◌++◌, arith, ◌==◌, if◌then◌else◌,
  Bool-cases, inl, inr, append-nil, ==_iff, append_assoc,
}
use mmorpg_server.Logic.{
  Job, LogicManager, LogicEvent, pushes, rounds, thread_of, push_job, by_thread, update_round,
  logic_step, logic_run, new_manager,
}

-- The jobs of one session, in order.
abbrev pub jobs_of : ℕ → List Job → List Job
jobs_of s [] = []
jobs_of s (job ∷ js) = if job.session == s then job ∷ jobs_of s js else jobs_of s js

-- The jobs of one session that a thread has handled, in order; and those handled by another thread.
abbrev pub handled_of : ℕ → List (ℕ × Job) → List Job
handled_of s [] = []
handled_of s ((idx, job) ∷ js) = if job.session == s then job ∷ handled_of s js else handled_of s js

abbrev pub pushed : List LogicEvent → List Job
pushed [] = []
pushed (pushes job ∷ es) = job ∷ pushed es
pushed (rounds idx ∷ es) = pushed es

-- Jobs wait in their session's thread only, and were handled there.
abbrev pub AllThere : ℕ → List Job → Type 0
AllThere idx [] = Unit {0}
AllThere idx (job ∷ js) = (thread_of job.session ≡ idx) × AllThere idx js

abbrev pub HandledThere : List (ℕ × Job) → Type 0
HandledThere [] = Unit {0}
HandledThere ((idx, job) ∷ js) = (thread_of job.session ≡ idx) × HandledThere js

pub record IsAffine (m : LogicManager) : Type 0 where
  pub waiting : (idx : ℕ) → AllThere idx (m.jobs idx)
  pub done : HandledThere m.handled

jobs_of-append : (s : ℕ) (xs ys : List Job) → jobs_of s (xs ++ ys) ≡ jobs_of s xs ++ jobs_of s ys
jobs_of-append s [] ys = refl
jobs_of-append s (x ∷ xs) ys = ground (arith, jobs_of-append s xs ys)

handled_of-append :
    (s : ℕ) (xs ys : List (ℕ × Job)) → handled_of s (xs ++ ys) ≡ handled_of s xs ++ handled_of s ys
handled_of-append s [] ys = refl
handled_of-append s ((i, x) ∷ xs) ys = ground (arith, handled_of-append s xs ys)

handled_of-by_thread : (s idx : ℕ) (js : List Job) → handled_of s (by_thread idx js) ≡ jobs_of s js
handled_of-by_thread s idx [] = refl
handled_of-by_thread s idx (job ∷ js) = ground (arith, handled_of-by_thread s idx js)

-- A queue of another thread holds no job of the session.
jobs_of-elsewhere :
    (s idx : ℕ) (js : List Job) → AllThere idx js → (thread_of s == idx) ≡ false → jobs_of s js ≡ []
jobs_of-elsewhere s idx [] there ne = refl
jobs_of-elsewhere s idx (job ∷ js) there ne =
    ground (arith, there.0, jobs_of-elsewhere s idx js there.1 ne)

AllThere-append :
    (idx : ℕ) (xs : List Job) (job : Job)
    → AllThere idx xs
    → thread_of job.session ≡ idx
    → AllThere idx (xs ++ (job ∷ []))
AllThere-append idx [] job there e = (e, tt)
AllThere-append idx (x ∷ xs) job there e = (there.0, AllThere-append idx xs job there.1 e)

HandledThere-append :
    (xs : List (ℕ × Job)) (idx : ℕ) (js : List Job)
    → HandledThere xs
    → AllThere idx js
    → HandledThere (xs ++ by_thread idx js)
HandledThere-append [] idx [] hs there = tt
HandledThere-append [] idx (j ∷ js) hs there = (there.0, HandledThere-append [] idx js tt there.1)
HandledThere-append ((i, x) ∷ xs) idx js hs there = (hs.0, HandledThere-append xs idx js hs.1 there)

AllThere-if :
    (b : Bool) (idx : ℕ) (xs ys : List Job)
    → (b ≡ true → AllThere idx xs)
    → (b ≡ false → AllThere idx ys)
    → AllThere idx (if b then xs else ys)
AllThere-if true idx xs ys hx hy = hx refl
AllThere-if false idx xs ys hx hy = hy refl

jobs_of-if :
    (s : ℕ) (b : Bool) (xs ys : List Job)
    → jobs_of s (if b then xs else ys) ≡ (if b then jobs_of s xs else jobs_of s ys)
jobs_of-if s true xs ys = refl
jobs_of-if s false xs ys = refl

pub push_job-IsAffine : (job : Job) (m : LogicManager) → IsAffine m → IsAffine (push_job job m)
unfolding push_job
push_job-IsAffine job m v = record {
  waiting = λ i.
      AllThere-if (thread_of job.session == i) i (m.jobs i ++ (job ∷ [])) (m.jobs i)
        (λ e.
          AllThere-append i (m.jobs i) job (v.waiting i) ((==_iff (thread_of job.session) i).0 e))
        (λ e. v.waiting i);
  done = v.done;
}

pub update_round-IsAffine :
    (idx : ℕ) (m : LogicManager) → IsAffine m → IsAffine (update_round idx m)
unfolding update_round
update_round-IsAffine idx m v = record {
  waiting = λ i. AllThere-if (idx == i) i [] (m.jobs i) (λ e. tt) (λ e. v.waiting i);
  done = HandledThere-append m.handled idx (m.jobs idx) v.done (v.waiting idx);
}

-- What has been handled for a session, and then what waits for it in its thread.
abbrev pub history : ℕ → LogicManager → List Job
history s m = handled_of s m.handled ++ jobs_of s (m.jobs (thread_of s))

pub history-push_job :
    (s : ℕ) (job : Job) (m : LogicManager)
    → history s (push_job job m) ≡ history s m ++ jobs_of s (job ∷ [])
unfolding push_job
history-push_job s job m = elim (Bool-cases (job.session == s)) [
  | inl e ↦ ground (
    arith,
    e,
    jobs_of-append s (m.jobs (thread_of s)) (job ∷ []),
    append_assoc (handled_of s m.handled) (jobs_of s (m.jobs (thread_of s))) (jobs_of s (job ∷ [])),
  )
  | inr e ↦ ground (
    arith,
    e,
    jobs_of-if s (thread_of job.session == thread_of s) (m.jobs (thread_of s) ++ (job ∷ []))
        (m.jobs (thread_of s)),
    jobs_of-append s (m.jobs (thread_of s)) (job ∷ []),
    append-nil (jobs_of s (m.jobs (thread_of s))),
    append-nil (handled_of s m.handled ++ jobs_of s (m.jobs (thread_of s))),
  )
]

==_false_comm : (a b : ℕ) → (a == b) ≡ false → (b == a) ≡ false
==_false_comm a b e = ground arith

pub history-update_round :
    (s idx : ℕ) (m : LogicManager) → IsAffine m → history s (update_round idx m) ≡ history s m
unfolding update_round
history-update_round s idx m v = elim (Bool-cases (idx == thread_of s)) [
  | inl e ↦ rw (
    jobs_of-if s (idx == thread_of s) [] (m.jobs (thread_of s)),
    e,
    handled_of-append s m.handled (by_thread idx (m.jobs idx)),
    handled_of-by_thread s idx (m.jobs idx),
    append-nil (handled_of s m.handled ++ jobs_of s (m.jobs idx)),
    ap m.jobs ((==_iff idx (thread_of s)).0 e),
  )
  | inr e ↦ rw (
    jobs_of-if s (idx == thread_of s) [] (m.jobs (thread_of s)),
    e,
    handled_of-append s m.handled (by_thread idx (m.jobs idx)),
    handled_of-by_thread s idx (m.jobs idx),
    jobs_of-elsewhere s idx (m.jobs idx) (v.waiting idx) (==_false_comm idx (thread_of s) e),
    append-nil (handled_of s m.handled),
  )
]

pub new_manager-IsAffine : IsAffine new_manager
unfolding new_manager
new_manager-IsAffine = record { waiting = λ idx. tt; done = tt }

logic_run-IsAffine :
    (es : List LogicEvent) (m : LogicManager) → IsAffine m → IsAffine (logic_run es m)
unfolding logic_run logic_step
logic_run-IsAffine [] m v = v
logic_run-IsAffine (pushes job ∷ es) m v =
    logic_run-IsAffine es (push_job job m) (push_job-IsAffine job m v)
logic_run-IsAffine (rounds idx ∷ es) m v =
    logic_run-IsAffine es (update_round idx m) (update_round-IsAffine idx m v)

history-logic_run :
    (s : ℕ) (es : List LogicEvent) (m : LogicManager)
    → IsAffine m
    → history s (logic_run es m) ≡ history s m ++ jobs_of s (pushed es)
unfolding logic_run logic_step
history-logic_run s [] m v = sym (append-nil (history s m))
history-logic_run s (pushes job ∷ es) m v =
    history-logic_run s es (push_job job m) (push_job-IsAffine job m v)
    ∙ ground (
      arith,
      history-push_job s job m,
      append_assoc (history s m) (jobs_of s (job ∷ [])) (jobs_of s (pushed es)),
    )
history-logic_run s (rounds idx ∷ es) m v =
    history-logic_run s es (update_round idx m) (update_round-IsAffine idx m v)
    ∙ ap (λ js. js ++ jobs_of s (pushed es)) (history-update_round s idx m v)

pub history-new_manager : (s : ℕ) → history s new_manager ≡ []
unfolding new_manager
history-new_manager s = refl

-- The jobs pushed by any sequence of pushes and rounds, in any order and from an empty manager, are
-- handled session by session in the order they were pushed: those of a session that are handled,
-- followed by those that wait in its thread's queue, are all its pushed jobs, none lost and none
-- twice. A session's jobs wait in, and are handled by, its own thread only.
pub logic_run-IsFifo :
    (s : ℕ) (es : List LogicEvent)
    → IsAffine (logic_run es new_manager)
      × (history s (logic_run es new_manager) ≡ jobs_of s (pushed es))
logic_run-IsFifo s es = (
  logic_run-IsAffine es new_manager new_manager-IsAffine,
  history-logic_run s es new_manager new_manager-IsAffine
      ∙ ap (λ js. js ++ jobs_of s (pushed es)) (history-new_manager s),
)
