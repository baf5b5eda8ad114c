-- ===== src/TimeWheel.antt =====
-- TimeWheel (MMO/Server/Core/TimeWheel.h, TimeWheel.cpp), over any type of callbacks. A callback is
-- not called here: `Update` returns the callbacks in the order in which it calls them, so a callback
-- that adds a timer is outside the model.
pub mod Firing
use mmorpg_server.Base.{
  ℕ, zero, suc, ◌+◌, ◌-◌, ◌/◌, ◌%◌, List, [], ◌∷◌, ◌++◌, ltb, if◌then◌else◌, get_or, set, replicate,
}

abbrev pub wheel_tick : ℕ
wheel_tick = 100

abbrev pub wheel_size : ℕ
wheel_size = 50

pub record TimeWheel (A : Type 0) : Type 0 where
  pub slots : List (List A)
  pub cursor : ℕ
  pub last_tick : ℕ

module _ {A : Type 0} where
  unfoldable pub new_wheel : ℕ → TimeWheel A
  new_wheel now = record { slots = replicate wheel_size []; cursor = 0; last_tick = now }

  abbrev pub slot : TimeWheel A → ℕ → List A
  slot w i = get_or w.slots i []

  -- The slot of a delay in milliseconds.
  abbrev pub target_slot : TimeWheel A → ℕ → ℕ
  target_slot w delay_ms = (w.cursor + delay_ms / wheel_tick) % wheel_size

  unfoldable pub add_timer : TimeWheel A → ℕ → A → TimeWheel A
  add_timer w delay_ms callback =
      let i = target_slot w delay_ms in
      record w { slots = set w.slots i (slot w i ++ (callback ∷ [])) }

  -- One round of the loop of Update: the callbacks of the next slot, which is then empty.
  unfoldable pub advance : TimeWheel A → List A × TimeWheel A
  advance w =
      let i = (w.cursor + 1) % wheel_size in
      (
        slot w i,
        record { slots = set w.slots i []; cursor = i; last_tick = w.last_tick + wheel_tick },
      )

  -- `while (now - _lastTick >= WHEEL_TICK)` on fuel. The subtraction does not wrap, since GetTickCount64
  -- does not go back.
  unfoldable pub update : ℕ → ℕ → TimeWheel A → List A × TimeWheel A
  unfolding advance
  update zero now w = ([], w)
  update (suc fuel) now w =
      let (fired, w') = advance w in
      let (more, w'') = update fuel now w' in
      if ltb (now - w.last_tick) wheel_tick then ([], w) else (fired ++ more, w'')
