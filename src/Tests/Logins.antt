-- ===== src/Tests/Logins.antt =====
-- Runs of the login task (MMO/Server/Core/PacketHandler.cpp) and of the database threads
-- (MMO/Server/DB/DBManager.cpp).
use mmorpg_server.Base.{
  ℕ, zero, suc, ◌≡◌, refl, true, false, Option, none, some, List, [], ◌∷◌, ◌++◌, arith, replicate,
  if◌then◌else◌,
}
use mmorpg_server.Protocol.{to_header, s_login}
use mmorpg_server.Logic.{Job}
use mmorpg_server.Platform.{lobby}
use mmorpg_server.Game.{Game, LoginQuery, login, send}
use mmorpg_server.Handler.{handle_packet, to_int32}
use mmorpg_server.Login.{Account, Accounts, LoginReply, LoginState, same_bytes, login_task}
use mmorpg_server.Login.Reply.{IsLaidOut}
use mmorpg_server.Login.Verdict.{login_task_granted, login_task_refused}
use mmorpg_server.Login.Ids.{Attempt, Ascends, run_ids, run_ids-Ascends}
use mmorpg_server.Database.{
  Tasks, Worker, waiting, running, ended, DbManager, AllEnded, shutdown, run_schedule,
}
use mmorpg_server.Database.Load.{AllReturn}
use mmorpg_server.Database.Runs.{IsStuck}
use mmorpg_server.Database.Drain.{shutdown_drains}
use mmorpg_server.Database.Order.{one_worker_order}
use mmorpg_server.Tests.Machine.{machine, empty_world}

abbrev find_account : List ℕ → List Account → Option Account
find_account name [] = none
find_account name (account ∷ rest) =
    if same_bytes account.name name then some account else find_account name rest

-- A table in a list; no call throws.
abbrev table : Accounts
table = record {
  State = List Account;
  find = λ name st. some (find_account name st);
  touch = λ name st. (st, true);
  insert = λ name account st. (st ++ (account ∷ []), true);
}

abbrev one_account : LoginState machine table
one_account = record {
  db = record { name = 65 ∷ []; level = 7; password = 80 ∷ [] } ∷ [];
  next_id = 5;
}

abbrev pub stack : LoginReply
stack = record {
  success = 9;
  level = replicate 4 9;
  name = replicate 32 9;
  player_id = replicate 4 9;
}

pub stack-IsLaidOut : IsLaidOut stack
stack-IsLaidOut = record { level_size = refl; name_fits = refl; id_size = refl }

abbrev query : List ℕ → LoginQuery
query password = record { session = 4; expected_gen = 0; user_id = 65 ∷ []; user_pw = password }

login_task_granted_example :
    (job : Job) × (after : Game machine) × ((login_task machine table
        (query (80 ∷ []))
        stack
        empty_world
        one_account).0
      ≡ some job)
    × (job.session ≡ 4)
    × (handle_packet machine 9 0 0 job.session job.header (some job.payload) empty_world
        ≡ some after)
    × ((after.heap 4).state ≡ lobby)
    × ((after.heap 4).player_id ≡ to_int32 5)
    × ((login_task machine table (query (80 ∷ [])) stack empty_world one_account).1.next_id ≡ 6)
unfolding same_bytes
login_task_granted_example =
    login_task_granted machine table (query (80 ∷ [])) stack empty_world one_account 9 0 0
      empty_world refl refl stack-IsLaidOut (omega arith)

login_task_refused_example :
    let bytes : List ℕ = 45 ∷ 0 ∷ 2 ∷ 0 ∷ 0 ∷ replicate 40 9 in
    (login_task machine table (query (81 ∷ [])) stack empty_world one_account
      ≡ (some (record { session = 4; header = to_header s_login; payload = bytes }), one_account))
    × (handle_packet machine 9 0 0 4 (to_header s_login) (some bytes) empty_world
        ≡ some (send machine 4 (login bytes) empty_world))
unfolding same_bytes
login_task_refused_example =
    login_task_refused machine table (query (81 ∷ [])) stack empty_world one_account 9 0 0
      empty_world refl refl refl stack-IsLaidOut

-- A right password, a wrong one, and the right one again.
abbrev attempt : List ℕ → Attempt machine table
attempt password = record { query = query password; stack = stack; game = empty_world }

abbrev attempts : List (Attempt machine table)
attempts = attempt (80 ∷ []) ∷ attempt (81 ∷ []) ∷ attempt (80 ∷ []) ∷ []

run_ids-Ascends_example : Ascends 5 (run_ids machine table attempts one_account)
run_ids-Ascends_example =
    run_ids-Ascends machine table attempts one_account
      (stack-IsLaidOut, (stack-IsLaidOut, (stack-IsLaidOut, tt))) (omega arith)

-- Tasks that are numbers; a call notes its task.
abbrev notes : Tasks
notes = record {
  Task = ℕ;
  World = List ℕ;
  call = λ task world. (world ++ (task ∷ []), true);
  is_valid = λ world. true;
}

abbrev queue_of_two : DbManager notes
queue_of_two = record { tasks = some 1 ∷ some 2 ∷ []; stop = true; db_count = 0; world = [] }

abbrev after_two : DbManager notes
after_two = record { tasks = []; stop = true; db_count = 2; world = 1 ∷ 2 ∷ [] }

abbrev nothing_queued : DbManager notes
nothing_queued = record { tasks = []; stop = false; db_count = 0; world = [] }

-- Both threads take a task, both run theirs, both leave.
abbrev both : List ℕ
both = 0 ∷ 1 ∷ 0 ∷ 1 ∷ 0 ∷ 1 ∷ []

all_return : AllReturn notes
all_return task world = refl

shutdown_drains_example :
    (is : List ℕ) × (ws : List (Worker notes)) × (m : DbManager notes) × (run_schedule notes is
        (waiting ∷ waiting ∷ [])
        queue_of_two
      ≡ some (ws, m))
    × AllEnded notes ws
    × (m.tasks ≡ [])
    × (m.db_count ≡ 2)
unfolding shutdown
shutdown_drains_example =
    shutdown_drains notes (waiting ∷ waiting ∷ []) queue_of_two all_return refl

-- One thread makes three rounds.
alone-IsStuck : IsStuck notes (ended ∷ []) after_two
unfolding mmorpg_server.Database.step_at
alone-IsStuck zero = refl
alone-IsStuck (suc i) = refl

one_worker_order_example : after_two.world ≡ 1 ∷ 2 ∷ []
unfolding run_schedule shutdown mmorpg_server.Database.push_query
one_worker_order_example =
    one_worker_order notes (replicate 7 0) (ended ∷ []) (some 1 ∷ none ∷ some 2 ∷ []) nothing_queued
      after_two all_return refl alone-IsStuck
