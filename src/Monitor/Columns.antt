-- ===== src/Monitor/Columns.antt =====
-- The lines of the log files, read back (MMO/Server/Observability/ServerMonitor.h, AOILogger.h).
use mmorpg_server.Base.{
  ℕ, ◌+◌, ◌-◌, ◌≡◌, refl, ap, ◌∙◌, Bool, true, false, List, [], ◌∷◌, ◌++◌, map, arith, ◌==◌,
  if◌then◌else◌, length, append_assoc, drop, append-nil, ==_refl,
}
use mmorpg_server.Base.Int.{ℤ}
use mmorpg_server.Platform.{Platform}
use mmorpg_server.Monitor.{Row, recv_count, send_count, logic_count, db_count, iocp_count}
use mmorpg_server.Monitor.Lines.{
  space, quote, comma, newline, ◌▸◌, Without, IsPlain, IsCell, Printer, Column, timestamp, ccu,
  recv_pps, send_pps, memory_mb, cpu_percent, iocp, logic_jobs, db_queries, monitor_header,
  log_line, write_ids, quoted_ids, log_player_aoi,
}

-- A text with the first of some texts made longer by one character.
abbrev push_char : ℕ → List (List ℕ) → List (List ℕ)
push_char c [] = (c ∷ []) ∷ []
push_char c (t ∷ ts) = (c ∷ t) ∷ ts

-- A text cut at a character, up to another one.
unfoldable pub cut : ℕ → ℕ → List ℕ → List (List ℕ)
cut at stop [] = [] ∷ []
cut at stop (c ∷ cs) =
    let rest = cut at stop cs in
    if c == stop then [] ∷ [] else if c == at then [] ∷ rest else push_char c rest

-- The columns of a line.
abbrev pub columns : List ℕ → List (List ℕ)
columns line = cut comma newline line

cut-append :
    (at stop : ℕ) (t rest : List ℕ)
    → Without at stop t
    → (at == stop) ≡ false
    → cut at stop (t ++ (at ∷ rest)) ≡ t ∷ cut at stop rest
unfolding cut
cut-append at stop [] rest h apart = rw (apart, ==_refl at) refl
cut-append at stop (c ∷ t) rest (e, f, h) apart = rw (e, f, cut-append at stop t rest h apart) refl

cut_last :
    (at stop : ℕ) (t rest : List ℕ) → Without at stop t → cut at stop (t ++ (stop ∷ rest)) ≡ t ∷ []
unfolding cut
cut_last at stop [] rest h = rw (==_refl stop) refl
cut_last at stop (c ∷ t) rest (e, f, h) = rw (e, f, cut_last at stop t rest h) refl

plain_cell : (t : List ℕ) → IsPlain t → IsCell t
plain_cell [] h = tt
plain_cell (c ∷ t) (s, q, e, f, h) = (e, f, plain_cell t h)

plain_word : (t : List ℕ) → IsPlain t → Without space quote t
plain_word [] h = tt
plain_word (c ∷ t) (s, q, e, f, h) = (s, q, plain_word t h)

-- A column, and those behind it.
column-then :
    (t rest : List ℕ) {ts : List (List ℕ)}
    → IsCell t
    → columns rest ≡ ts
    → columns (t ▸ rest) ≡ t ∷ ts
column-then t rest h e = cut-append comma newline t rest h refl ∙ ap (◌∷◌ t) e

column_last : (t : List ℕ) → IsCell t → columns (t ++ (newline ∷ [])) ≡ t ∷ []
column_last t h = cut_last comma newline t [] h

Without-append :
    (at stop : ℕ) (s t : List ℕ) → Without at stop s → Without at stop t → Without at stop (s ++ t)
Without-append at stop [] t h k = k
Without-append at stop (c ∷ s) t (e, f, h) k = (e, f, Without-append at stop s t h k)

module _ (P : Platform) (W : Printer P) where
  abbrev number_cell : (n : ℕ) → IsCell (W.show_number n)
  number_cell n = plain_cell (W.show_number n) (W.number_plain n)

  abbrev float_cell : (digits : ℕ) (x : P.Float) → IsCell (W.show_float digits x)
  float_cell digits x = plain_cell (W.show_float digits x) (W.float_plain digits x)

  -- What a column stands for.
  abbrev pub cell_text : Row → P.Float → P.Float → Column → List ℕ
  cell_text row memory cpu timestamp = W.show_date row.time
  cell_text row memory cpu ccu = W.show_number row.users
  cell_text row memory cpu recv_pps = W.show_number (row.taken recv_count)
  cell_text row memory cpu send_pps = W.show_number (row.taken send_count)
  cell_text row memory cpu memory_mb = W.show_float 2 memory
  cell_text row memory cpu cpu_percent = W.show_float 1 cpu
  cell_text row memory cpu (iocp worker) = W.show_number (row.taken (iocp_count worker))
  cell_text row memory cpu logic_jobs = W.show_number (row.taken logic_count)
  cell_text row memory cpu db_queries = W.show_number (row.taken db_count)

  -- A line of the monitor's file, cut at its commas: exactly the twelve columns that the first line of the
  -- file names, in that order, each with what its name stands for.
  pub columns-log_line :
      (row : Row) (memory cpu : P.Float)
      → columns (log_line P W row memory cpu) ≡ map (cell_text row memory cpu) monitor_header
  unfolding log_line
  columns-log_line row memory cpu =
      let count = λ (k : ℕ). number_cell (row.taken k) in
      column-then _ _ (W.date_cell row.time) (
        column-then _ _ (number_cell row.users) (
          column-then _ _ (count recv_count) (
            column-then _ _ (count send_count) (
              column-then _ _ (float_cell 2 memory) (
                column-then _ _ (float_cell 1 cpu) (
                  column-then _ _ (count (iocp_count 0)) (
                    column-then _ _ (count (iocp_count 1)) (
                      column-then _ _ (count (iocp_count 2)) (
                        column-then _ _ (count (iocp_count 3)) (
                          column-then _ _ (count logic_count)
                            (column_last _ (count db_count))))))))))))

  write_ids-IsCell : (i size : ℕ) (ids : List ℤ) → IsCell (write_ids P W i size ids)
  unfolding write_ids
  write_ids-IsCell i size [] = tt
  write_ids-IsCell i size (id ∷ ids) =
      Without-append comma newline (W.show_int id) _ (plain_cell (W.show_int id) (W.int_plain id)) (
        Without-append comma newline (if i == size - 1 then [] else space ∷ []) _
          (gap-IsCell (i == size - 1)) (write_ids-IsCell (i + 1) size ids))
    where
      gap-IsCell : (last : Bool) → IsCell (if last then [] else space ∷ [])
      gap-IsCell true = tt
      gap-IsCell false = (refl, refl, tt)

  write_ids-words :
      (i size : ℕ) (id : ℤ) (ids : List ℤ)
      → i + length (id ∷ ids) ≡ size
      → cut space quote (write_ids P W i size (id ∷ ids) ++ (quote ∷ []))
        ≡ map W.show_int (id ∷ ids)
  unfolding write_ids
  write_ids-words i size id [] e =
      let last : (i == size - 1) ≡ true = ground (arith, e) in
      rw (last, append-nil (W.show_int id))
        (cut_last space quote (W.show_int id) [] (plain_word (W.show_int id) (W.int_plain id)))
  write_ids-words i size id (j ∷ ids) e =
      let more : (i == size - 1) ≡ false = ground (arith, e) in
      let rest = write_ids P W (i + 1) size (j ∷ ids) in
      rw more (
        ap (cut space quote) (append_assoc (W.show_int id) (space ∷ rest) (quote ∷ []))
        ∙ cut-append space quote (W.show_int id) (rest ++ (quote ∷ []))
            (plain_word (W.show_int id) (W.int_plain id)) refl
        ∙ ap (◌∷◌ (W.show_int id)) (write_ids-words (i + 1) size j ids (omega (arith, e))))

  quoted_ids-IsCell : (ids : List ℤ) → IsCell (quoted_ids P W ids)
  unfolding quoted_ids
  quoted_ids-IsCell ids = (
    refl,
    refl,
    Without-append comma newline (write_ids P W 0 (length ids) ids) (quote ∷ [])
        (write_ids-IsCell 0 (length ids) ids) (refl, refl, tt),
  )

  quoted_ids-words :
      (id : ℤ) (ids : List ℤ)
      → cut space quote (drop 1 (quoted_ids P W (id ∷ ids))) ≡ map W.show_int (id ∷ ids)
  unfolding quoted_ids
  quoted_ids-words id ids = write_ids-words 0 (length (id ∷ ids)) id ids (omega arith)

  -- A line of the log of views, cut at its commas: six columns, of which the fifth is the number of the ids
  -- in the sixth; and these, cut at the spaces, are the ids of the players in view, if there are any.
  pub columns-log_player_aoi :
      (time : ℕ) (my_id : ℤ) (x y : P.Float) (id : ℤ) (ids : List ℤ)
      → let seen = id ∷ ids in
        (columns (log_player_aoi P W time my_id x y seen)
          ≡ W.show_hour time
            ∷ W.show_int my_id
            ∷ W.show_float 1 x
            ∷ W.show_float 1 y
            ∷ W.show_number (length seen)
            ∷ quoted_ids P W seen
            ∷ [])
        × (cut space quote (drop 1 (quoted_ids P W seen)) ≡ map W.show_int seen)
  unfolding log_player_aoi
  columns-log_player_aoi time my_id x y id ids = (
    column-then _ _ (W.hour_cell time) (
        column-then _ _ (plain_cell (W.show_int my_id) (W.int_plain my_id)) (
          column-then _ _ (float_cell 1 x) (
            column-then _ _ (float_cell 1 y) (
              column-then _ _ (number_cell (length (id ∷ ids)))
                (column_last _ (quoted_ids-IsCell (id ∷ ids))))))),
    quoted_ids-words id ids,
  )
