-- ===== src/Timeout.antt =====
-- CheckSessionTimeout (MMO/Server/Core/LogicManager.h). The clock is an argument, and so is the list of
-- all sessions; `uint64_t` subtraction wraps.
pub mod Kicks
use mmorpg_server.Base.{
  ℕ, ◌+◌, ◌-◌, ◌%◌, ◌^◌, Bool, true, false, Option, none, some, List, [], ◌∷◌, ◌++◌, ltb,
  if◌then◌else◌,
}
use mmorpg_server.Platform.{Platform, Session, PlayerState}
use mmorpg_server.Game.{Game, set_at}
use mmorpg_server.Handler.{is_state}

abbrev pub lobby_game_timeout : ℕ
lobby_game_timeout = 30000

abbrev pub connect_timeout : ℕ
connect_timeout = 10000

abbrev pub word_size : ℕ
word_size = 2 ^ 64

-- `now - session->GetLastTick()`.
unfoldable pub elapsed : ℕ → ℕ → ℕ
elapsed now last = (now + word_size - last) % word_size

abbrev pub limit_of : PlayerState → ℕ
limit_of state =
    if is_state state PlayerState.connected then connect_timeout else lobby_game_timeout

module _ (P : Platform) where
  -- SetState(NONE) and closesocket.
  unfoldable pub kick : ℕ → ℕ → Game P → Game P
  kick a socket g = record g {
    heap = set_at g.heap a (record (g.heap a) { state = PlayerState.none });
    closed = g.closed ++ (socket ∷ []);
  }

  -- One round of the loop.
  unfoldable pub check_session : ℕ → ℕ → Game P → Game P
  unfolding elapsed kick
  check_session now a g =
      let s = g.heap a in
      if is_state s.state PlayerState.none
      then g
      else if ltb (limit_of s.state) (elapsed now (P.get_last_tick s.ext))
      then elim s.socket [ none ↦ g | some socket ↦ kick a socket g ]
      else g

  unfoldable pub check_session_timeout : ℕ → List ℕ → Game P → Game P
  check_session_timeout now [] g = g
  check_session_timeout now (a ∷ sessions) g =
      check_session_timeout now sessions (check_session now a g)
