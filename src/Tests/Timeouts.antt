-- ===== src/Tests/Timeouts.antt =====
-- Runs of CheckSessionTimeout (MMO/Server/Core/LogicManager.h).
use mmorpg_server.Base.{◌≡◌, refl, none, [], ◌∷◌, arith}
use mmorpg_server.Platform.{PlayerState}
use mmorpg_server.Game.{Game}
use mmorpg_server.Timeout.{check_session_timeout}
use mmorpg_server.Timeout.Kicks.{check_session_timeout_race}
use mmorpg_server.Tests.Machine.{machine, empty_world}

-- Every session was active at time 8.
abbrev active_world : Game machine
active_world = record empty_world {
  heap = λ a. record (Game.heap empty_world a) {
    ext = record { player = none; last_tick = 8; generation = 0 };
  };
}

check_session_timeout_race_example :
    (Game.heap (check_session_timeout machine 7 (1 ∷ []) active_world) 1).state ≡ PlayerState.none
check_session_timeout_race_example =
    check_session_timeout_race machine 7 1 (1 ∷ []) active_world refl refl refl (omega arith)
      (omega arith) (omega arith)
