-- ===== src/SessionPool.antt =====
-- SessionManager (MMO/Server/Network/Source/SessionManager.cpp, Include/SessionManager.h). A session is
-- named by its address; `new Session` gives the next address of a sequence. Release also calls
-- Session::Clear, which changes the session and not the manager.
pub mod Once
use mmorpg_server.Base.{
  ℕ, zero, suc, Bool, true, false, Option, none, some, List, [], ◌∷◌, ◌++◌, ◌==◌, if◌then◌else◌,
}

pub record SessionManager : Type 0 where
  pub sessions : List ℕ
  pub free_sessions : List ℕ

unfoldable pub no_sessions : SessionManager
no_sessions = record { sessions = []; free_sessions = [] }

-- Init: `count` new sessions from the address `next` on.
unfoldable pub init : ℕ → ℕ → SessionManager → SessionManager
init zero next m = m
init (suc count) next m = init count (suc next) (record {
  sessions = m.sessions ++ (next ∷ []);
  free_sessions = m.free_sessions ++ (next ∷ []);
})

-- Acquire, at the free sessions; no session is the null pointer.
unfoldable pub acquire_from : List ℕ → SessionManager → Option ℕ × SessionManager
acquire_from [] m = (none, m)
acquire_from (session ∷ rest) m = (some session, record m { free_sessions = rest })

abbrev pub acquire : SessionManager → Option ℕ × SessionManager
acquire m = acquire_from m.free_sessions m

unfoldable pub release_session : ℕ → SessionManager → SessionManager
release_session session m = record m { free_sessions = m.free_sessions ++ (session ∷ []) }

-- The manager and the sessions that its callers hold.
pub record Holding : Type 0 where
  pub manager : SessionManager
  pub held : List ℕ

pub data SessionEvent : Type 0 where
  acquires : SessionEvent
  releases : ℕ → SessionEvent

abbrev pub is_held : List ℕ → ℕ → Bool
is_held [] session = false
is_held (s ∷ held) session = if s == session then true else is_held held session

abbrev pub drop_held : List ℕ → ℕ → List ℕ
drop_held [] session = []
drop_held (s ∷ held) session = if s == session then held else s ∷ drop_held held session

abbrev pub take_held : Option ℕ × SessionManager → List ℕ → Holding
take_held (none, m) held = record { manager = m; held = held }
take_held (some session, m) held = record { manager = m; held = session ∷ held }

-- A caller releases only a session that it holds.
unfoldable pub session_step : SessionEvent → Holding → Holding
unfolding release_session
session_step acquires h = take_held (acquire h.manager) h.held
session_step (releases session) h =
    if is_held h.held session
    then record { manager = release_session session h.manager; held = drop_held h.held session }
    else h

unfoldable pub session_run : List SessionEvent → Holding → Holding
session_run [] h = h
session_run (e ∷ es) h = session_run es (session_step e h)

-- A manager of `count` sessions, none of them held.
unfoldable pub start : ℕ → ℕ → Holding
start count next = record { manager = init count next no_sessions; held = [] }
