-- ===== src/Send/Drain.antt =====
-- What becomes of the packets that wait, as sends complete (OnSend and RegisterSend of
-- MMO/Server/Network/Source/Session.cpp).
use mmorpg_server.Base.{
  ℕ, zero, suc, ◌*◌, ◌≤◌, ◌≡◌, refl, sym, ap, subst, ◌∙◌, true, false, List, [], ◌∷◌, ◌++◌, map,
  arith, length, take, drop, append_assoc, append-nil, take-append-drop, length-drop, Bool-cases,
  inl, inr,
}
use mathlib.Core.List.{map-append}
use mmorpg_server.Send.{
  SendBuffer, Sender, payload, batch_size, no_buffers, release_all, take_batch, register_send,
  on_send,
}

-- The completions of so many sends, of which WSASend takes each next batch.
abbrev pub on_sends : ℕ → Sender → Sender
on_sends zero s = s
on_sends (suc n) s = on_sends n (on_send true s)

release_all-append :
    (bs cs pool : List SendBuffer)
    → release_all (bs ++ cs) pool ≡ release_all cs (release_all bs pool)
unfolding release_all
release_all-append [] cs pool = refl
release_all-append (b ∷ bs) cs pool = release_all-append bs cs _

-- A session that is drained from another.
pub record IsDrained (s done : Sender) : Type 0 where
  pub all_posted : done.posted ≡ s.posted ++ map payload s.send_queue
  pub none_waits : done.send_queue ≡ []
  pub none_held : done.sending_list ≡ []
  pub idle : done.is_sending ≡ false
  pub all_released : done.pool ≡ release_all (s.sending_list ++ s.send_queue) s.pool

no_buffers_nil : (bs : List SendBuffer) → no_buffers bs ≡ true → bs ≡ []
no_buffers_nil [] e = refl
no_buffers_nil (b ∷ bs) e = absurd (ground (arith, e))

-- The session after a completion with nothing left, and with a batch.
abbrev freed : Sender → Sender
freed s = record s {
  sending_list = [];
  is_sending = false;
  pool = release_all s.sending_list s.pool;
}

abbrev next_batch : Sender → Sender
next_batch s = record s {
  send_queue = drop batch_size s.send_queue;
  sending_list = take batch_size s.send_queue;
  pool = release_all s.sending_list s.pool;
  posted = s.posted ++ map payload (take batch_size s.send_queue);
}

on_send_empty : (s : Sender) → no_buffers s.send_queue ≡ true → on_send true s ≡ freed s
unfolding on_send
on_send_empty s e = rw e refl

on_send_batch : (s : Sender) → no_buffers s.send_queue ≡ false → on_send true s ≡ next_batch s
unfolding on_send register_send take_batch
on_send_batch s e = rw e refl

-- A session with nothing to send stays as it is.
on_sends_idle :
    (n : ℕ) (s : Sender)
    → s.send_queue ≡ []
    → s.sending_list ≡ []
    → s.is_sending ≡ false
    → on_sends n s ≡ s
unfolding release_all
on_sends_idle zero s e f g = refl
on_sends_idle (suc n) s e f g =
    ap (on_sends n) (on_send_empty s (ap no_buffers e) ∙ rw (f, g) refl) ∙ on_sends_idle n s e f g

freed-IsDrained : (s : Sender) → s.send_queue ≡ [] → IsDrained s (freed s)
freed-IsDrained s e = record {
  all_posted = rw e (sym (append-nil s.posted));
  none_waits = e;
  none_held = refl;
  idle = refl;
  all_released = rw e (ap (λ bs. release_all bs s.pool) (sym (append-nil s.sending_list)));
}

next_batch-IsDrained : (s done : Sender) → IsDrained (next_batch s) done → IsDrained s done
next_batch-IsDrained s done h =
    let first = take batch_size s.send_queue in
    let rest = drop batch_size s.send_queue in
    record {
      all_posted =
          h.all_posted
          ∙ append_assoc s.posted (map payload first) (map payload rest)
          ∙ ap (◌++◌ s.posted) (
              sym (map-append payload first rest)
              ∙ ap (map payload) (take-append-drop batch_size s.send_queue));
      none_waits = h.none_waits;
      none_held = h.none_held;
      idle = h.idle;
      all_released =
          h.all_released
          ∙ ap (λ bs. release_all bs (release_all s.sending_list s.pool))
              (take-append-drop batch_size s.send_queue)
          ∙ sym (release_all-append s.sending_list s.send_queue s.pool);
    }

empty-IsDrained :
    (n : ℕ) (s : Sender) → no_buffers s.send_queue ≡ true → IsDrained s (on_sends (suc n) s)
empty-IsDrained n s e =
    let none : s.send_queue ≡ [] = no_buffers_nil s.send_queue e in
    subst (IsDrained s)
      (sym (ap (on_sends n) (on_send_empty s e) ∙ on_sends_idle n (freed s) none refl refl))
      (freed-IsDrained s none)

none_short : (bs : List SendBuffer) → length bs ≤ 0 → no_buffers bs ≡ true
none_short [] le = refl
none_short (b ∷ bs) le = absurd (omega (arith, le))

-- A session in which at most `n` batches wait, if WSASend takes each batch: after the completion of the
-- send under way and of `n` further ones, all packets that waited were handed to WSASend, in order and once,
-- behind those before; no buffer is left in the session, each was released, and no send is under way.
pub on_sends-IsDrained :
    (n : ℕ) (s : Sender) → length s.send_queue ≤ n * batch_size → IsDrained s (on_sends (suc n) s)
on_sends-IsDrained zero s le = empty-IsDrained zero s (none_short s.send_queue (omega (arith, le)))
on_sends-IsDrained (suc n) s le = elim (Bool-cases (no_buffers s.send_queue)) [
  | inl e ↦ empty-IsDrained (suc n) s e
  | inr e ↦
      subst (λ (t : Sender). IsDrained s (on_sends (suc n) t)) (sym (on_send_batch s e))
        (next_batch-IsDrained s (on_sends (suc n) (next_batch s)) (
          on_sends-IsDrained n (next_batch s)
            (omega (arith, le, length-drop batch_size s.send_queue))))
]
