-- ===== src/Tests/Rounds.antt =====
-- A round of logic thread 0 (MMO/Server/Core/LogicManager.h).
use mmorpg_server.Base.{◌≡◌, refl, false, some, [], ◌∷◌, arith, inl}
use mmorpg_server.Base.Int.{pos}
use mmorpg_server.Protocol.{to_header, c_move, id_number}
use mmorpg_server.Logic.{Job, pool_push}
use mmorpg_server.World.{handle_move}
use mmorpg_server.World.Subscribed.{IsSubscribed}
use mmorpg_server.Monitor.{ServerMonitor, add_count, logic_count}
use mmorpg_server.Round.{Moment, Tick, Served, serve_job, serve_jobs, serve_round, run_periodic}
use mmorpg_server.Round.Keeps.{AllFair, serve_round-IsSubscribed}
use mmorpg_server.Round.Closed.{serve_round-Placed}
use mmorpg_server.Handler.{on_map}
use mmorpg_server.Handler.Placed.{HoldsInts, Placed, Placed-IsClosed}
use mmorpg_server.Tests.Machine.{machine, empty_world, one_player, two_players}
use mmorpg_server.Tests.Worlds.{two_players-IsSubscribed}
use mmorpg_server.Tests.Handlers.{two_players-IsOrderly, move_bytes, walks}

abbrev quiet_monitor : ServerMonitor
quiet_monitor = record { counts = λ k. 0; last_tick = 0; rows = [] }

abbrev start : Served machine
start = record {
  world = two_players;
  pool = [];
  monitor = quiet_monitor;
  last_aoi_tick = 0;
  views = [];
}

-- A move of player 1.
abbrev pub job : Job
job = record { session = 1; header = to_header c_move; payload = move_bytes }

abbrev moment : Moment
moment = record { now = 5; rand_x = 0; rand_y = 0; empty_data = false }

abbrev tick : Tick
tick = record {
  now = 2000;
  timeout_now = 2000;
  monitor_now = 2001;
  sessions = 1 ∷ 2 ∷ [];
  others = λ k. [];
}

abbrev served : Served machine
served = record {
  world = handle_move machine 1 (pos 150) (pos 50) two_players;
  pool = pool_push job [];
  monitor = add_count logic_count quiet_monitor;
  last_aoi_tick = 0;
  views = [];
}

job-served : serve_job machine (moment, job) start ≡ some served
unfolding serve_job
job-served = rw walks refl

job-fair : AllFair machine ((moment, job) ∷ []) start
unfolding to_header id_number
job-fair = (inl (λ e. absurd (omega (arith, e)), two_players-IsOrderly), rw job-served tt)

round-served :
    serve_round machine (λ g. g) 0 tick ((moment, job) ∷ []) start
    ≡ some (run_periodic machine (λ g. g) tick served)
unfolding serve_round serve_jobs
round-served = rw job-served refl

serve_round-IsSubscribed_example :
    IsSubscribed machine (run_periodic machine (λ g. g) tick served).world
serve_round-IsSubscribed_example =
    serve_round-IsSubscribed machine (λ g. g) 0 tick ((moment, job) ∷ []) start
      (run_periodic machine (λ g. g) tick served) (λ g inv. inv) two_players-IsSubscribed job-fair
      round-served

ints_on_map : HoldsInts machine
unfolding on_map
ints_on_map m n = ground arith

two_players-Placed : Placed machine two_players
two_players-Placed =
    let closed = Placed-IsClosed machine ints_on_map in
    closed.entered 2 350 250 one_player (closed.entered 1 250 250 empty_world (λ a. inl refl))

serve_round-Placed_example : Placed machine (run_periodic machine (λ g. g) tick served).world
serve_round-Placed_example =
    serve_round-Placed machine (λ g. g) 0 tick ((moment, job) ∷ []) start
      (run_periodic machine (λ g. g) tick served) ints_on_map (λ g placed. placed)
      two_players-Placed round-served
