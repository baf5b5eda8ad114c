-- ===== src/Monitor/Totals.antt =====
-- What the file of the monitor adds up to (MMO/Server/Observability/ServerMonitor.h).
use mmorpg_server.Base.{
  ℕ, ◌+◌, ◌-◌, ◌%◌, ◌^◌, ◌≤◌, ◌<◌, ◌≡◌, refl, ap, ◌∙◌, Bool, true, false, ◌||◌, List, [], ◌∷◌, ◌++◌,
  arith, ◌==◌, leb, if◌then◌else◌, Bool-cases, inl, inr,
}
use mmorpg_server.Monitor.{
  Row, ServerMonitor, with_count, add_count, add_each, exchange_order, exchange_each,
  update_monitor,
}

abbrev is_in : ℕ → List ℕ → Bool
is_in k [] = false
is_in k (j ∷ js) = k == j || is_in k js

-- How often a counter stands in a list.
abbrev pub times : ℕ → List ℕ → ℕ
times k [] = 0
times k (j ∷ js) = (if k == j then 1 else 0) + times k js

-- What the other threads add to a counter during the exchanges.
abbrev pub times_all : ℕ → (ℕ → List ℕ) → List ℕ → ℕ
times_all k others [] = 0
times_all k others (j ∷ js) = times k (others j) + times_all k others js

-- What the lines of the file say of a counter, altogether.
abbrev pub reported : ℕ → List Row → ℕ
reported k [] = 0
reported k (row ∷ rows) = row.taken k + reported k rows

-- No counter stands twice in the list.
abbrev AllOnce : List ℕ → Type 0
AllOnce [] = Unit
AllOnce (j ∷ js) = (is_in j js ≡ false) × AllOnce js

add_count_total :
    (k j : ℕ) (m : ServerMonitor)
    → m.counts k + 1 < 2 ^ 32
    → (add_count j m).counts k ≡ (if k == j then 1 else 0) + m.counts k
unfolding add_count
add_count_total k j m lt = elim (Bool-cases (k == j)) [
  | inl same ↦
      let eq : k ≡ j = ground (arith, same) in rw (same, eq) (omega (arith, lt, ap m.counts eq))
  | inr other ↦ rw other (omega arith)
]

add_each_total :
    (k : ℕ) (js : List ℕ) (m : ServerMonitor)
    → times k js + m.counts k < 2 ^ 32 - 1
    → (add_each js m).counts k ≡ times k js + m.counts k
unfolding add_each
add_each_total k [] m lt = omega arith
add_each_total k (j ∷ js) m lt =
    let now = add_count_total k j m (omega (arith, lt)) in
    add_each_total k js (add_count j m) (omega (arith, lt, now)) ∙ omega (arith, now)

-- One exchange moves a count from the counter to the row.
exchange_total :
    (k j : ℕ) (counts taken : ℕ → ℕ)
    → ((k == j) ≡ true → taken k ≡ 0)
    → with_count j (counts j) taken k + with_count j 0 counts k ≡ taken k + counts k
exchange_total k j counts taken fresh = elim (Bool-cases (k == j)) [
  | inl same ↦
      let eq : k ≡ j = ground (arith, same) in rw same (omega (arith, fresh same, ap counts eq))
  | inr other ↦ rw other refl
]

exchange_less : (k j : ℕ) (counts : ℕ → ℕ) → with_count j 0 counts k ≤ counts k
exchange_less k j counts = elim (Bool-cases (k == j)) [
  | inl same ↦ rw same (omega arith)
  | inr other ↦ rw other (omega arith)
]

still_fresh :
    (k j n : ℕ) (js : List ℕ) (taken : ℕ → ℕ)
    → is_in j js ≡ false
    → (is_in k (j ∷ js) ≡ true → taken k ≡ 0)
    → is_in k js ≡ true
    → with_count j n taken k ≡ 0
still_fresh k j n js taken apart fresh later = elim (Bool-cases (k == j)) [
  | inl same ↦
      let eq : k ≡ j = ground (arith, same) in
      absurd (ground (arith, ap (λ i. is_in i js) eq, later, apart))
  | inr other ↦ rw other (fresh (ground (arith, later)))
]

exchange_each_total :
    (k : ℕ) (others : ℕ → List ℕ) (js : List ℕ) (row : Row) (m : ServerMonitor)
    → AllOnce js
    → (is_in k js ≡ true → row.taken k ≡ 0)
    → times_all k others js + m.counts k < 2 ^ 32 - 1
    → let (row', left) = exchange_each others js row m in
      row'.taken k + left.counts k ≡ row.taken k + m.counts k + times_all k others js
unfolding exchange_each
exchange_each_total k others [] row m once fresh lt = omega arith
exchange_each_total k others (j ∷ js) row m (apart, once) fresh lt =
    let added : ServerMonitor = add_each (others j) m in
    let total = add_each_total k (others j) m (omega (arith, lt)) in
    let row' : Row = record row { taken = with_count j (added.counts j) row.taken } in
    let left : ServerMonitor = record added { counts = with_count j 0 added.counts } in
    exchange_each_total k others js row' left once
      (still_fresh k j (added.counts j) js row.taken apart fresh)
      (omega (arith, lt, total, exchange_less k j added.counts))
    ∙ omega (
      arith,
      total,
      exchange_total k j added.counts row.taken (λ same. fresh (ground (arith, same))),
    )

reported-append :
    (k : ℕ) (rows : List Row) (row : Row)
    → reported k (rows ++ (row ∷ [])) ≡ reported k rows + row.taken k
reported-append k [] row = omega arith
reported-append k (r ∷ rows) row = omega (arith, reported-append k rows row)

exchange_order-AllOnce : AllOnce exchange_order
exchange_order-AllOnce = (refl, (refl, (refl, (refl, (refl, (refl, (refl, (refl, tt))))))))

-- When a second has passed, whatever the other threads add between the exchanges of Update: for each
-- counter, what the file says altogether and what still stands in the counter add up to all that was
-- added, while a count stays below 2 ^ 32 - 1. So each event is in one line of the file, and in one only.
pub update_monitor_total :
    (users now : ℕ) (others : ℕ → List ℕ) (m : ServerMonitor) (k : ℕ)
    → times_all k others exchange_order + m.counts k < 2 ^ 32 - 1
    → leb 1000 ((now + 2 ^ 64 - m.last_tick) % 2 ^ 64) ≡ true
    → let m' = update_monitor users now others m in
      (reported k m'.rows + m'.counts k
        ≡ reported k m.rows + m.counts k + times_all k others exchange_order)
      × (m'.last_tick ≡ now)
unfolding update_monitor
update_monitor_total users now others m k lt due =
    let start : Row = record { time = now; users = users; taken = λ j. 0 } in
    let total =
      exchange_each_total k others exchange_order start m exchange_order-AllOnce (λ there. refl)
        lt in
    let row = (exchange_each others exchange_order start m).0 in
    rw due (omega (arith, total, reported-append k m.rows row), refl)
