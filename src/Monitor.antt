-- ===== src/Monitor.antt =====
-- The counters that the threads share, and the file that they are written to
-- (MMO/Server/Observability/ServerMonitor.h; AOILogger.h beside it has the same search for a name).
pub mod Totals
pub mod Names
pub mod Cpu
pub mod Lines
pub mod Columns
use mmorpg_server.Base.{
  ℕ, zero, suc, ◌+◌, ◌-◌, ◌%◌, ◌^◌, Bool, true, false, ◌&&◌, Option, none, some, List, [], ◌∷◌,
  ◌++◌, ◌==◌, ltb, leb, if◌then◌else◌,
}

-- The atomic members, by their places in this order: _recvCount, _sendCount, _logicCount, _dbCount and
-- _iocpCount.
abbrev pub recv_count : ℕ
recv_count = 0

abbrev pub send_count : ℕ
send_count = 1

abbrev pub logic_count : ℕ
logic_count = 2

abbrev pub db_count : ℕ
db_count = 3

abbrev pub iocp_count : ℕ → ℕ
iocp_count i = 4 + i

abbrev pub max_iocp_workers : ℕ
max_iocp_workers = 4

-- What Update has for a line of the file: the time, the users and what the exchange of each counter gave.
pub record Row : Type 0 where
  pub time : ℕ
  pub users : ℕ
  pub taken : ℕ → ℕ

pub record ServerMonitor : Type 0 where
  pub counts : ℕ → ℕ
  pub last_tick : ℕ
  pub rows : List Row

abbrev pub with_count : ℕ → ℕ → (ℕ → ℕ) → (ℕ → ℕ)
with_count k n counts = λ j. if j == k then n else counts j

-- `fetch_add(1)`, on 32 bits.
unfoldable pub add_count : ℕ → ServerMonitor → ServerMonitor
add_count k m = record m { counts = with_count k ((m.counts k + 1) % 2 ^ 32) m.counts }

-- AddWorkerCount.
unfoldable pub add_worker_count : ℕ → ServerMonitor → ServerMonitor
unfolding add_count
add_worker_count idx m = if ltb idx max_iocp_workers then add_count (iocp_count idx) m else m

unfoldable pub add_each : List ℕ → ServerMonitor → ServerMonitor
unfolding add_count
add_each [] m = m
add_each (k ∷ ks) m = add_each ks (add_count k m)

-- The order of the exchanges in Update.
abbrev pub exchange_order : List ℕ
exchange_order =
    recv_count
    ∷ send_count
    ∷ iocp_count 0
    ∷ iocp_count 1
    ∷ iocp_count 2
    ∷ iocp_count 3
    ∷ logic_count
    ∷ db_count
    ∷ []

-- `exchange(0)` of each counter of a list into the row; before each of them, other threads add what the
-- argument says.
unfoldable pub exchange_each : (ℕ → List ℕ) → List ℕ → Row → ServerMonitor → Row × ServerMonitor
unfolding add_each
exchange_each others [] row m = (row, m)
exchange_each others (k ∷ ks) row m =
    let added = add_each (others k) m in
    exchange_each others ks (record row { taken = with_count k (added.counts k) row.taken })
      (record added { counts = with_count k 0 added.counts })

-- Update, with what the other threads add meanwhile. The difference of the ticks is taken on 64 bits.
unfoldable pub update_monitor : ℕ → ℕ → (ℕ → List ℕ) → ServerMonitor → ServerMonitor
unfolding exchange_each
update_monitor users now others m =
    let (row, left) =
      exchange_each others exchange_order (record { time = now; users = users; taken = λ k. 0 })
        m in
    if leb 1000 ((now + 2 ^ 64 - m.last_tick) % 2 ^ 64)
    then record left { last_tick = now; rows = m.rows ++ (row ∷ []) }
    else m

-- The names that FindAvailableFilename tries, for one base name.
pub data FileName : Type 0 where
  plain overflow : FileName
  numbered : ℕ → FileName

-- `for (int i = 1; i <= 9999; i++)`, from a number on; `exists` says which files there are.
unfoldable pub find_numbered : (FileName → Bool) → ℕ → ℕ → FileName
find_numbered exists i zero = overflow
find_numbered exists i (suc tries) =
    let rest = find_numbered exists (i + 1) tries in
    if exists (numbered i) then rest else numbered i

unfoldable pub find_available_filename : (FileName → Bool) → FileName
unfolding find_numbered
find_available_filename exists = if exists plain then find_numbered exists 1 9999 else plain
