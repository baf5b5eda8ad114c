-- ===== src/Timeout/Kicks.antt =====
-- Which sessions CheckSessionTimeout (MMO/Server/Core/LogicManager.h) kicks.
use native.Mathlib.Nat.{mod-eq_of_lt}
use mmorpg_server.Base.{
  ℕ, ◌+◌, ◌-◌, ◌≤◌, ◌<◌, ◌≡◌, refl, ap, ◌∙◌, Bool, true, false, not, ◌&&◌, ◌||◌, Option, none, some,
  List, [], ◌∷◌, arith, ltb, ◌==◌, ==_iff, ==_refl, if◌then◌else◌, Bool-cases, inl, inr,
}
use mmorpg_server.Platform.{Platform, Session, PlayerState}
use mmorpg_server.Game.{Game}
use mmorpg_server.Grid.{contains}
use mmorpg_server.Handler.{is_state}
use mmorpg_server.Timeout.{elapsed, limit_of, word_size, kick, check_session, check_session_timeout}

elapsed_wrapped :
    (now last : ℕ) → now < last → last < word_size → elapsed now last ≡ now + word_size - last
unfolding elapsed
elapsed_wrapped now last later small = mod-eq_of_lt (omega arith)

limit_le : (state : PlayerState) → limit_of state ≤ 30000
limit_le state = ground arith

if_if {ℓ} :
    {A : Type ℓ} (c d : Bool) (x y : A)
    → (if c then (if d then x else y) else y) ≡ (if c && d then x else y)
if_if true d x y = refl
if_if false d x y = refl

module _ (P : Platform) where
  open P use {Float, Ext, get_last_tick}

  abbrev pub has_socket : Option ℕ → Bool
  has_socket none = false
  has_socket (some socket) = true

  -- In a state other than NONE, silent for longer than its state's limit, with a socket.
  abbrev pub is_expired : ℕ → Session Float Ext → Bool
  is_expired now s =
      not (is_state s.state PlayerState.none)
      && (ltb (limit_of s.state) (elapsed now (get_last_tick s.ext)) && has_socket s.socket)

  abbrev pub after_check : ℕ → Session Float Ext → Session Float Ext
  after_check now s = if is_expired now s then record s { state = PlayerState.none } else s

  -- The branches of one round, by its tests.
  abbrev step : ℕ → Bool → Bool → Option ℕ → Game P → Game P
  step a idle late socket g =
      if idle then g else if late then elim socket [ none ↦ g | some k ↦ kick P a k g ] else g

  at_step :
      (a : ℕ) (idle late : Bool) (socket : Option ℕ) (g : Game P)
      → (step a idle late socket g).heap a ≡ (
          if not idle && (late && has_socket socket)
          then record (g.heap a) { state = PlayerState.none }
          else g.heap a)
  unfolding kick
  at_step a true late socket g = refl
  at_step a false false socket g = refl
  at_step a false true none g = refl
  at_step a false true (some k) g = rw (==_refl a) refl

  elsewhere_step :
      (a b : ℕ) (idle late : Bool) (socket : Option ℕ) (g : Game P)
      → (a == b) ≡ false
      → (step a idle late socket g).heap b ≡ g.heap b
  unfolding kick
  elsewhere_step a b true late socket g e = refl
  elsewhere_step a b false false socket g e = refl
  elsewhere_step a b false true none g e = refl
  elsewhere_step a b false true (some k) g e = rw e refl

  check_of :
      (now : ℕ) (b : Bool) (s : Session Float Ext)
      → is_expired now s ≡ b
      → after_check now (if b then record s { state = PlayerState.none } else s)
        ≡ (if b then record s { state = PlayerState.none } else s)
  check_of now true s e = refl
  check_of now false s e = rw e refl

  -- A session that was kicked is not kicked again.
  after_check_twice :
      (now : ℕ) (s : Session Float Ext) → after_check now (after_check now s) ≡ after_check now s
  after_check_twice now s = check_of now (is_expired now s) s refl

  both_checks :
      (now : ℕ) (c d : Bool) (s : Session Float Ext)
      → (if d
          then after_check now (if c then after_check now s else s)
          else (if c then after_check now s else s))
        ≡ (if c || d then after_check now s else s)
  both_checks now true true s = after_check_twice now s
  both_checks now true false s = refl
  both_checks now false d s = refl

  at_session :
      (now a : ℕ) (g : Game P) → (check_session P now a g).heap a ≡ after_check now (g.heap a)
  unfolding check_session
  at_session now a g =
      at_step a (is_state (g.heap a).state PlayerState.none)
        (ltb (limit_of (g.heap a).state) (elapsed now (get_last_tick (g.heap a).ext)))
        (g.heap a).socket g

  elsewhere :
      (now a : ℕ) (g : Game P) (b : ℕ)
      → (a == b) ≡ false
      → (check_session P now a g).heap b ≡ g.heap b
  unfolding check_session
  elsewhere now a g b e =
      elsewhere_step a b (is_state (g.heap a).state PlayerState.none)
        (ltb (limit_of (g.heap a).state) (elapsed now (get_last_tick (g.heap a).ext)))
        (g.heap a).socket g e

  check_session_lem :
      (now a : ℕ) (g : Game P) (b : ℕ)
      → (check_session P now a g).heap b ≡ (if a == b then after_check now (g.heap b) else g.heap b)
  unfolding check_session
  check_session_lem now a g b = elim (Bool-cases (a == b)) [
    | inl e ↦ rw (e, ← (==_iff a b).0 e) (at_session now a g)
    | inr e ↦ rw e (elsewhere now a g b e)
  ]

  check_session_timeout_heap :
      (now : ℕ) (sessions : List ℕ) (g : Game P) (b : ℕ)
      → (check_session_timeout P now sessions g).heap b
        ≡ (if contains sessions b then after_check now (g.heap b) else g.heap b)
  unfolding check_session_timeout
  check_session_timeout_heap now [] g b = refl
  check_session_timeout_heap now (a ∷ sessions) g b =
      check_session_timeout_heap now sessions (check_session P now a g) b
      ∙ ap (λ s. if contains sessions b then after_check now s else s) (check_session_lem now a g b)
      ∙ both_checks now (a == b) (contains sessions b) (g.heap b)

  -- One call over a list of sessions puts into state NONE exactly those of the list that are in another
  -- state, have a socket, and were silent for longer than 10 seconds (CONNECTED) or 30 (all others); it
  -- changes nothing else of any session. The silence is the wrapped 64-bit difference of the clock read
  -- at the start and the session's last tick.
  pub check_session_timeout_lem :
      (now : ℕ) (sessions : List ℕ) (g : Game P) (b : ℕ)
      → (check_session_timeout P now sessions g).heap b ≡ (
          if contains sessions b && is_expired now (g.heap b)
          then record (g.heap b) { state = PlayerState.none }
          else g.heap b)
  check_session_timeout_lem now sessions g b =
      check_session_timeout_heap now sessions g b
      ∙ if_if (contains sessions b) (is_expired now (g.heap b)) _ (g.heap b)

  -- A session whose last tick is later than the clock that was read at the start of the call, though by
  -- one millisecond, is kicked, if it has a socket and is in a state other than NONE.
  pub check_session_timeout_race :
      (now a : ℕ) (sessions : List ℕ) (g : Game P)
      → contains sessions a ≡ true
      → is_state (g.heap a).state PlayerState.none ≡ false
      → has_socket (g.heap a).socket ≡ true
      → now < get_last_tick (g.heap a).ext
      → get_last_tick (g.heap a).ext < now + 1000
      → get_last_tick (g.heap a).ext < word_size
      → ((check_session_timeout P now sessions g).heap a).state ≡ PlayerState.none
  check_session_timeout_race now a sessions g listed active open_socket later near small =
      ap (λ s. s.state) (check_session_timeout_lem now sessions g a)
      ∙ rw (listed, active, late, open_socket) refl
    where
      late : ltb (limit_of (g.heap a).state) (elapsed now (get_last_tick (g.heap a).ext)) ≡ true
      late = ground (
        arith,
        elapsed_wrapped now (get_last_tick (g.heap a).ext) later small,
        limit_le (g.heap a).state,
      )
