-- ===== src/TimeWheel/Firing.antt =====
-- When TimeWheel (MMO/Server/Core/TimeWheel.h, TimeWheel.cpp) calls a callback.
use mmorpg_server.Base.{
  ℕ, zero, suc, ◌+◌, ◌-◌, ◌*◌, ◌/◌, ◌%◌, ◌≤◌, ◌<◌, ◌≡◌, ◌≢◌, refl, sym, ap, ap₂, ◌∙◌, List, [], ◌∷◌,
  false, ◌++◌, arith, ltb, ◌==◌, if◌then◌else◌, length, get_or, set, length-set, append-nil, lt→ltb,
}
use mmorpg_server.TimeWheel.{
  TimeWheel, wheel_tick, wheel_size, slot, target_slot, add_timer, advance, update,
}

same_slot :
    (cursor n ticks : ℕ)
    → ((cursor + ticks) % wheel_size == (cursor + suc n) % wheel_size)
      ≡ (ticks % wheel_size == suc n % wheel_size)
same_slot cursor n ticks = ground arith

module _ {A : Type 0} where
  pub record IsWheel (w : TimeWheel A) : Type 0 where
    pub slots_count : length w.slots ≡ wheel_size
    pub cursor_in : w.cursor < wheel_size

  slot-set_self :
      (xs : List (List A)) (i : ℕ) (v : List A) → i < length xs → get_or (set xs i v) i [] ≡ v
  slot-set_self [] i v h = absurd (omega arith)
  slot-set_self (x ∷ xs) zero v h = refl
  slot-set_self (x ∷ xs) (suc i) v h = slot-set_self xs i v (omega arith)

  slot-set_ne :
      (xs : List (List A)) (i j : ℕ) (v : List A)
      → i ≢ j
      → get_or (set xs i v) j [] ≡ get_or xs j []
  slot-set_ne [] i j v h = refl
  slot-set_ne (x ∷ xs) zero zero v h = absurd (h refl)
  slot-set_ne (x ∷ xs) zero (suc j) v h = refl
  slot-set_ne (x ∷ xs) (suc i) zero v h = refl
  slot-set_ne (x ∷ xs) (suc i) (suc j) v h = slot-set_ne xs i j v (λ e. h (ap suc e))

  pub advance-IsWheel : (w : TimeWheel A) → IsWheel w → IsWheel (advance w).1
  unfolding advance
  advance-IsWheel w v = record {
    slots_count = length-set w.slots ((w.cursor + 1) % wheel_size) [] ∙ v.slots_count;
    cursor_in = omega arith;
  }

  pub add_timer-IsWheel :
      (w : TimeWheel A) (delay_ms : ℕ) (c : A) → IsWheel w → IsWheel (add_timer w delay_ms c)
  unfolding add_timer
  add_timer-IsWheel w delay_ms c v = record {
    slots_count = length-set w.slots (target_slot w delay_ms) _ ∙ v.slots_count;
    cursor_in = v.cursor_in;
  }

  -- The wheel after `n` rounds, what they call, and what the round after them calls.
  abbrev pub rounds : ℕ → TimeWheel A → TimeWheel A
  rounds zero w = w
  rounds (suc n) w = rounds n (advance w).1

  abbrev pub fired : ℕ → TimeWheel A → List A
  fired zero w = []
  fired (suc n) w = (advance w).0 ++ fired n (advance w).1

  abbrev pub fired_in : ℕ → TimeWheel A → List A
  fired_in n w = (advance (rounds n w)).0

  -- Within one turn, round `n + 1` calls what stands `n + 1` slots ahead.
  pub fired_in-slot :
      (n : ℕ) (w : TimeWheel A)
      → IsWheel w
      → n < wheel_size
      → fired_in n w ≡ slot w ((w.cursor + suc n) % wheel_size)
  unfolding advance
  fired_in-slot zero w v lt = refl
  fired_in-slot (suc n) w v lt =
      fired_in-slot n (advance w).1 (advance-IsWheel w v) (omega arith)
      ∙ ap (slot (advance w).1) (omega arith)
      ∙ slot-set_ne w.slots ((w.cursor + 1) % wheel_size) ((w.cursor + suc (suc n)) % wheel_size) []
          (omega arith)

  slot-add_timer :
      (w : TimeWheel A) (delay_ms : ℕ) (c : A) (i : ℕ)
      → IsWheel w
      → slot (add_timer w delay_ms c) i
        ≡ slot w i ++ (if target_slot w delay_ms == i then c ∷ [] else [])
  unfolding add_timer
  slot-add_timer w delay_ms c i v = ground (
    arith,
    append-nil (slot w i),
    slot-set_self w.slots i (slot w i ++ (c ∷ [])),
    slot-set_ne w.slots (target_slot w delay_ms) i (slot w (target_slot w delay_ms) ++ (c ∷ [])),
  )

  -- Of the next fifty rounds of a wheel, exactly one calls a timer that is added: the one whose number
  -- agrees with the delay in ticks, up to a multiple of fifty. There it is called behind the callbacks
  -- that stood in the slot, and all other rounds call what they would have called.
  pub fired_in-add_timer :
      (w : TimeWheel A) (delay_ms : ℕ) (c : A) (n : ℕ)
      → IsWheel w
      → n < wheel_size
      → fired_in n (add_timer w delay_ms c)
        ≡ fired_in n w
          ++ (if (delay_ms / wheel_tick) % wheel_size == suc n % wheel_size then c ∷ [] else [])
  unfolding add_timer
  fired_in-add_timer w delay_ms c n v lt =
      fired_in-slot n (add_timer w delay_ms c) (add_timer-IsWheel w delay_ms c v) lt
      ∙ slot-add_timer w delay_ms c ((w.cursor + suc n) % wheel_size) v
      ∙ ap₂ (λ xs b. xs ++ (if b then c ∷ [] else [])) (sym (fired_in-slot n w v lt))
          (same_slot w.cursor n (delay_ms / wheel_tick))

  last_tick-rounds :
      (k : ℕ) (w : TimeWheel A) → (rounds k w).last_tick ≡ w.last_tick + k * wheel_tick
  unfolding advance
  last_tick-rounds zero w = omega arith
  last_tick-rounds (suc k) w = last_tick-rounds k (advance w).1 ∙ omega arith

  update-rounds :
      (fuel k now : ℕ) (w : TimeWheel A)
      → w.last_tick ≤ now
      → (now - w.last_tick) / wheel_tick ≡ k
      → k < fuel
      → update fuel now w ≡ (fired k w, rounds k w)
  unfolding update
  update-rounds zero k now w le due lt = absurd (omega arith)
  update-rounds (suc fuel) zero now w le due lt =
      rw (lt→ltb (now - w.last_tick) wheel_tick (omega arith)) refl
  update-rounds (suc fuel) (suc k) now w le due lt =
      rw (not_yet, update-rounds fuel k now (advance w).1 (omega arith) (omega arith) (omega arith))
        refl
    where
      not_yet : ltb (now - w.last_tick) wheel_tick ≡ false
      not_yet = ground arith

  -- With fuel above the rounds that are due, Update runs exactly those, calls what they call in order,
  -- and leaves less than one tick to go.
  pub update_lem :
      (fuel now : ℕ) (w : TimeWheel A)
      → w.last_tick ≤ now
      → (now - w.last_tick) / wheel_tick < fuel
      → (update fuel now w ≡ (
        fired ((now - w.last_tick) / wheel_tick) w,
        rounds ((now - w.last_tick) / wheel_tick) w,
      ))
        × (now - (update fuel now w).1.last_tick < wheel_tick)
  update_lem fuel now w le lt =
      let k = (now - w.last_tick) / wheel_tick in
      let done = update-rounds fuel k now w le refl lt in
      (done, rw done (omega (arith, last_tick-rounds k w)))
