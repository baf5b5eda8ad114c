-- ===== src/Monitor/Lines.antt =====
-- The lines of the log files (Update of MMO/Server/Observability/ServerMonitor.h, and LogPlayerAOI of
-- MMO/Server/Observability/AOILogger.h). How a number, a float or a time is printed is a parameter.
use mmorpg_server.Base.{ℕ, ◌+◌, ◌-◌, ◌≡◌, false, List, [], ◌∷◌, ◌++◌, ◌==◌, if◌then◌else◌, length}
use mmorpg_server.Base.Int.{ℤ}
use mmorpg_server.Platform.{Platform}
use mmorpg_server.Monitor.{Row, recv_count, send_count, logic_count, db_count, iocp_count}

abbrev pub space : ℕ
space = 32

abbrev pub quote : ℕ
quote = 34

abbrev pub comma : ℕ
comma = 44

abbrev pub newline : ℕ
newline = 10

-- The characters of a text are numbers and the like: none of the four above.
abbrev pub IsPlain : List ℕ → Type 0
IsPlain [] = Unit
IsPlain (c ∷ cs) =
    ((c == space) ≡ false)
    × ((c == quote) ≡ false)
    × ((c == comma) ≡ false)
    × ((c == newline) ≡ false)
    × IsPlain cs

-- A text without two characters.
abbrev pub Without : ℕ → ℕ → List ℕ → Type 0
Without at stop [] = Unit
Without at stop (c ∷ cs) = ((c == at) ≡ false) × ((c == stop) ≡ false) × Without at stop cs

-- A text that can stand in a column.
abbrev pub IsCell : List ℕ → Type 0
IsCell cs = Without comma newline cs

-- operator<< and put_time. A time of the monitor has a space between the date and the hour.
pub record Printer (P : Platform) : Type 0 where
  pub show_number : ℕ → List ℕ
  pub show_int : ℤ → List ℕ
  pub show_float : ℕ → P.Float → List ℕ
  pub show_date : ℕ → List ℕ
  pub show_hour : ℕ → List ℕ
  pub number_plain : (n : ℕ) → IsPlain (show_number n)
  pub int_plain : (n : ℤ) → IsPlain (show_int n)
  pub float_plain : (digits : ℕ) (x : P.Float) → IsPlain (show_float digits x)
  pub date_cell : (t : ℕ) → IsCell (show_date t)
  pub hour_cell : (t : ℕ) → IsCell (show_hour t)

-- The columns that the first line of the monitor's file names.
pub data Column : Type 0 where
  timestamp ccu recv_pps send_pps memory_mb cpu_percent : Column
  iocp : ℕ → Column
  logic_jobs db_queries : Column

abbrev pub monitor_header : List Column
monitor_header =
    timestamp
    ∷ ccu
    ∷ recv_pps
    ∷ send_pps
    ∷ memory_mb
    ∷ cpu_percent
    ∷ iocp 0
    ∷ iocp 1
    ∷ iocp 2
    ∷ iocp 3
    ∷ logic_jobs
    ∷ db_queries
    ∷ []

infixr 55 ◌▸◌
-- `<< "," <<`.
abbrev pub ◌▸◌ : List ℕ → List ℕ → List ℕ
cell ▸ rest = cell ++ (comma ∷ rest)

module _ (P : Platform) (W : Printer P) where
  -- The line of Update, as it is written.
  unfoldable pub log_line : Row → P.Float → P.Float → List ℕ
  log_line row memory cpu =
      W.show_date row.time
      ▸ W.show_number row.users
      ▸ W.show_number (row.taken recv_count)
      ▸ W.show_number (row.taken send_count)
      ▸ W.show_float 2 memory
      ▸ W.show_float 1 cpu
      ▸ W.show_number (row.taken (iocp_count 0))
      ▸ W.show_number (row.taken (iocp_count 1))
      ▸ W.show_number (row.taken (iocp_count 2))
      ▸ W.show_number (row.taken (iocp_count 3))
      ▸ W.show_number (row.taken logic_count)
      ▸ (W.show_number (row.taken db_count) ++ (newline ∷ []))

  -- The loop over nearbyIds, from an index on.
  unfoldable pub write_ids : ℕ → ℕ → List ℤ → List ℕ
  write_ids i size [] = []
  write_ids i size (id ∷ ids) =
      W.show_int id ++ ((if i == size - 1 then [] else space ∷ []) ++ write_ids (i + 1) size ids)

  -- The column of the ids, in quotes.
  unfoldable pub quoted_ids : List ℤ → List ℕ
  unfolding write_ids
  quoted_ids ids = quote ∷ (write_ids 0 (length ids) ids ++ (quote ∷ []))

  -- LogPlayerAOI.
  unfoldable pub log_player_aoi : ℕ → ℤ → P.Float → P.Float → List ℤ → List ℕ
  unfolding quoted_ids
  log_player_aoi time my_id x y ids =
      W.show_hour time
      ▸ W.show_int my_id
      ▸ W.show_float 1 x
      ▸ W.show_float 1 y
      ▸ W.show_number (length ids)
      ▸ (quoted_ids ids ++ (newline ∷ []))
