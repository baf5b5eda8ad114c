-- ===== src/Pipeline/Fifo.antt =====
-- A client's packets, from its bytes to the logic thread of its session.
use mmorpg_server.Base.{
  ℕ, ◌≡◌, refl, sym, ap, ◌∙◌, subst, Bool, true, false, List, [], ◌∷◌, ◌++◌, map, arith, ◌==◌,
  if◌then◌else◌, Bool-cases, inl, inr, append_assoc, append-nil, ==_iff,
}
use mmorpg_server.Ring.{RingBuffer}
use mmorpg_server.Ring.Contents.{IsValid, contents}
use mmorpg_server.Framing.{Packet, Processed, Outcome, waiting, cleared, out_of_fuel}
use mmorpg_server.Framing.Receive.{
  receive_next, receive_each, started, AllFit, concat, receive_each-encode_all,
}
use mmorpg_server.Framing.RoundTrip.{AllPackets, encode_all}
use mmorpg_server.Logic.{Job, LogicManager, push_job, update_round}
use mmorpg_server.Logic.Affinity.{
  IsAffine, jobs_of, history, history-push_job, history-update_round, push_job-IsAffine,
  update_round-IsAffine, new_manager-IsAffine, history-new_manager,
}
use mmorpg_server.Pipeline.{
  Pipeline, to_job, new_packets, receive_at, push_next, PipeEvent, receives, pushes, rounds,
  pipe_step, pipe_run, new_pipeline,
}

-- What a session receives in a run.
abbrev pub chunks_of : ℕ → List PipeEvent → List (List ℕ)
chunks_of a [] = []
chunks_of a (receives b bytes ∷ es) = if b == a then bytes ∷ chunks_of a es else chunks_of a es
chunks_of a (pushes b ∷ es) = chunks_of a es
chunks_of a (rounds idx ∷ es) = chunks_of a es

abbrev AllFrom : ℕ → List Job → Type 0
AllFrom a [] = Unit
AllFrom a (job ∷ jobs) = (job.session ≡ a) × AllFrom a jobs

-- Of every session: what was pushed and what is to be pushed are its packets, in order.
record IsInOrder (s : Pipeline) : Type 0 where
  affine : IsAffine s.manager
  own : (a : ℕ) → AllFrom a (s.pending a)
  ordered : (a : ℕ) → history a s.manager ++ s.pending a ≡ map (to_job a) (s.streams a).jobs

map-append : (f : Packet → Job) (xs ys : List Packet) → map f (xs ++ ys) ≡ map f xs ++ map f ys
map-append f [] ys = refl
map-append f (x ∷ xs) ys = ap (◌∷◌ (f x)) (map-append f xs ys)

AllFrom-append : (a : ℕ) (xs ys : List Job) → AllFrom a xs → AllFrom a ys → AllFrom a (xs ++ ys)
AllFrom-append a [] ys h k = k
AllFrom-append a (x ∷ xs) ys (e, h) k = (e, AllFrom-append a xs ys h k)

AllFrom-map : (a : ℕ) (ps : List Packet) → AllFrom a (map (to_job a) ps)
unfolding to_job
AllFrom-map a [] = tt
AllFrom-map a (p ∷ ps) = (refl, AllFrom-map a ps)

receive_next-jobs :
    (o : Outcome) (done : Processed) (bytes : List ℕ)
    → (receive_next o done bytes).jobs ≡ done.jobs ++ new_packets o done.buffer bytes
unfolding new_packets
receive_next-jobs waiting done bytes = refl
receive_next-jobs cleared done bytes = sym (append-nil done.jobs)
receive_next-jobs out_of_fuel done bytes = sym (append-nil done.jobs)

receive_at-IsInOrder :
    (b : ℕ) (bytes : List ℕ) (s : Pipeline) → IsInOrder s → IsInOrder (receive_at b bytes s)
unfolding receive_at
receive_at-IsInOrder b bytes s h =
    let done = s.streams b in
    let fresh : List Job = map (to_job b) (new_packets done.outcome done.buffer bytes) in
    record {
      affine = h.affine;
      own = λ a. elim (Bool-cases (b == a)) [
        | inl same ↦ rw same (
            subst (λ k. AllFrom k (s.pending b ++ fresh)) ((==_iff b a).0 same)
              (AllFrom-append b (s.pending b) fresh (h.own b)
                (AllFrom-map b (new_packets done.outcome done.buffer bytes))))
        | inr other ↦ rw other (h.own a)
      ];
      ordered = λ a. elim (Bool-cases (b == a)) [
        | inl same ↦ rw same (
            subst
              (λ k.
                history k s.manager ++ (s.pending b ++ fresh)
                ≡ map (to_job k) (receive_next done.outcome done bytes).jobs)
              ((==_iff b a).0 same) received_order)
        | inr other ↦ rw other (h.ordered a)
      ];
    }
  where
    received_order :
        history b s.manager
          ++ (s.pending b
              ++ map (to_job b) (new_packets (s.streams b).outcome (s.streams b).buffer bytes))
        ≡ map (to_job b) (receive_next (s.streams b).outcome (s.streams b) bytes).jobs
    received_order =
        let done = s.streams b in
        let packets : List Packet = new_packets done.outcome done.buffer bytes in
        sym (append_assoc (history b s.manager) (s.pending b) (map (to_job b) packets))
        ∙ ap (λ js. js ++ map (to_job b) packets) (h.ordered b)
        ∙ sym (map-append (to_job b) done.jobs packets)
        ∙ ap (map (to_job b)) (sym (receive_next-jobs done.outcome done bytes))

pushed_own :
    (b : ℕ) (job : Job) (jobs : List Job) (m : LogicManager)
    → job.session ≡ b
    → history b (push_job job m) ++ jobs ≡ history b m ++ (job ∷ jobs)
pushed_own b job jobs m e =
    let mine : jobs_of b (job ∷ []) ≡ job ∷ [] = ground (arith, e) in
    ap (λ js. js ++ jobs) (history-push_job b job m ∙ ap (λ js. history b m ++ js) mine)
    ∙ append_assoc (history b m) (job ∷ []) jobs

pushed_other :
    (a b : ℕ) (job : Job) (m : LogicManager)
    → job.session ≡ b
    → (b == a) ≡ false
    → history a (push_job job m) ≡ history a m
pushed_other a b job m e other =
    let no_job : jobs_of a (job ∷ []) ≡ [] = ground (arith, e, other) in
    history-push_job a job m ∙ ap (λ js. history a m ++ js) no_job ∙ append-nil (history a m)

push_next-IsInOrder :
    (b : ℕ) (jobs : List Job) (s : Pipeline)
    → s.pending b ≡ jobs
    → IsInOrder s
    → IsInOrder (push_next b jobs s)
unfolding push_next
push_next-IsInOrder b [] s e h = h
push_next-IsInOrder b (job ∷ jobs) s e h =
    let from_b : AllFrom b (job ∷ jobs) = subst (AllFrom b) e (h.own b) in
    record {
      affine = push_job-IsAffine job s.manager h.affine;
      own = λ a. elim (Bool-cases (b == a)) [
        | inl same ↦ rw same (subst (λ k. AllFrom k jobs) ((==_iff b a).0 same) from_b.1)
        | inr other ↦ rw other (h.own a)
      ];
      ordered = λ a. elim (Bool-cases (b == a)) [
        | inl same ↦ rw same (
            subst
              (λ k. history k (push_job job s.manager) ++ jobs ≡ map (to_job k) (s.streams k).jobs)
              ((==_iff b a).0 same)
              (pushed_own b job jobs s.manager from_b.0
                ∙ ap (λ js. history b s.manager ++ js) (sym e)
                ∙ h.ordered b))
        | inr other ↦ rw other (
            ap (λ js. js ++ s.pending a) (pushed_other a b job s.manager from_b.0 other)
            ∙ h.ordered a)
      ];
    }

pipe_step-IsInOrder : (e : PipeEvent) (s : Pipeline) → IsInOrder s → IsInOrder (pipe_step e s)
unfolding pipe_step
pipe_step-IsInOrder (receives b bytes) s h = receive_at-IsInOrder b bytes s h
pipe_step-IsInOrder (pushes b) s h = push_next-IsInOrder b (s.pending b) s refl h
pipe_step-IsInOrder (rounds idx) s h = record {
  affine = update_round-IsAffine idx s.manager h.affine;
  own = h.own;
  ordered = λ a.
      ap (λ js. js ++ s.pending a) (history-update_round a idx s.manager h.affine) ∙ h.ordered a;
}

pipe_run-IsInOrder : (es : List PipeEvent) (s : Pipeline) → IsInOrder s → IsInOrder (pipe_run es s)
unfolding pipe_run
pipe_run-IsInOrder [] s h = h
pipe_run-IsInOrder (e ∷ es) s h = pipe_run-IsInOrder es (pipe_step e s) (pipe_step-IsInOrder e s h)

-- What a session receives in a run does not depend on the pushes, the rounds and the other sessions.
streams-pipe_run :
    (a : ℕ) (es : List PipeEvent) (s : Pipeline)
    → (pipe_run es s).streams a ≡ receive_each (chunks_of a es) (s.streams a)
unfolding pipe_run pipe_step receive_each receive_at push_next
streams-pipe_run a [] s = refl
streams-pipe_run a (receives b bytes ∷ es) s =
    streams-pipe_run a es (receive_at b bytes s) ∙ received (b == a) refl
  where
    received :
        (t : Bool)
        → (b == a) ≡ t
        → receive_each (chunks_of a es) ((receive_at b bytes s).streams a)
          ≡ receive_each (if t then bytes ∷ chunks_of a es else chunks_of a es) (s.streams a)
    received true e = rw e (
        subst
          (λ k.
            receive_each (chunks_of a es) (receive_next (s.streams b).outcome (s.streams b) bytes)
            ≡ receive_each (chunks_of a es)
                (receive_next (s.streams k).outcome (s.streams k) bytes))
          ((==_iff b a).0 e) refl)
    received false e = rw e refl
streams-pipe_run a (pushes b ∷ es) s =
    streams-pipe_run a es (push_next b (s.pending b) s)
    ∙ ap (λ (k : Processed). receive_each (chunks_of a es) k) (pushed (s.pending b))
  where
    pushed : (jobs : List Job) → (push_next b jobs s).streams a ≡ s.streams a
    pushed [] = refl
    pushed (job ∷ jobs) = refl
streams-pipe_run a (rounds idx ∷ es) s =
    streams-pipe_run a es (record s { manager = update_round idx s.manager })

new_pipeline-IsInOrder : (buffers : ℕ → RingBuffer) → IsInOrder (new_pipeline buffers)
unfolding new_pipeline started
new_pipeline-IsInOrder buffers = record {
  affine = new_manager-IsAffine;
  own = λ a. tt;
  ordered = λ a. ap (λ js. js ++ []) (history-new_manager a);
}

-- From buffers that are empty, any sessions receive, their packets are pushed and the threads make rounds,
-- in any order. If what a session receives are a client's packets, cut anywhere, and each receive fits:
-- the packets that its own thread has handled, those that wait in that thread's queue and those that
-- are still to be pushed are together the client's packets, each once and in order, with header and
-- payload. No session's jobs are handled by a thread other than its own.
pub pipe_run-packets :
    (a : ℕ) (es : List PipeEvent) (buffers : ℕ → RingBuffer) (ps : List Packet)
    → IsValid (buffers a)
    → contents (buffers a) ≡ []
    → AllFit (chunks_of a es) (started (buffers a))
    → AllPackets ps
    → concat (chunks_of a es) ≡ encode_all ps
    → let s = pipe_run es (new_pipeline buffers) in
      (history a s.manager ++ s.pending a ≡ map (to_job a) ps) × IsAffine s.manager
unfolding new_pipeline
pipe_run-packets a es buffers ps valid empty fit packets same =
    let s = pipe_run es (new_pipeline buffers) in
    let h = pipe_run-IsInOrder es (new_pipeline buffers) (new_pipeline-IsInOrder buffers) in
    let got = receive_each-encode_all (chunks_of a es) ps valid empty fit packets same in
    let jobs : (s.streams a).jobs ≡ ps =
      ap (λ (k : Processed). k.jobs) (streams-pipe_run a es (new_pipeline buffers)) ∙ got.0 in
    (h.ordered a ∙ ap (map (to_job a)) jobs, h.affine)
