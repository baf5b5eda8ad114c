-- ===== src/Grid/Cells.antt =====
-- Which positions the vision loops visit, and what a loop over cells does to each cell
-- (MMO/Server/Game/World.cpp).
use mmorpg_server.Base.{
  ℕ, zero, suc, ◌+◌, ◌≡◌, refl, sym, ap, ap₂, ◌∙◌, Bool, true, false, not, ◌&&◌, ◌||◌, List, [],
  ◌∷◌, ◌++◌, arith, ltb, ◌==◌, if◌then◌else◌, Bool-cases, inl, inr,
}
use mmorpg_server.Base.Int.{
  ℤ, pos, ◌+ℤ◌, ◌-ℤ◌, ltb_ℤ, leb_ℤ, eqb_ℤ, abs, sub_ℕ, +ℤ_parts, -ℤ_parts, one_part, eqb_ℤ_iff,
}
use mmorpg_server.Grid.{
  GridPos, same_pos, is_invalid, insert, erase, contains, Grids, set_cell, counted, offsets,
  row_cells, square_cells, vision_cells, is_outside, for_cells,
}

abbrev pub visits : List GridPos → GridPos → Bool
visits [] q = false
visits (p ∷ ps) q = same_pos p q || visits ps q

-- `d` is one of the `n` integers from `from` on.
abbrev within : ℕ → ℤ → ℤ → Bool
within n from d = leb_ℤ from d && ltb_ℤ d (from +ℤ pos n)

visits-append :
    (ps qs : List GridPos) (q : GridPos) → visits (ps ++ qs) q ≡ (visits ps q || visits qs q)
visits-append [] qs q = refl
visits-append (p ∷ ps) qs q = ground (arith, visits-append ps qs q)

abbrev among : List ℤ → ℤ → Bool
among [] z = false
among (d ∷ ds) z = eqb_ℤ d z || among ds z

shift : (c d q : ℤ) → eqb_ℤ (c +ℤ d) q ≡ eqb_ℤ d (q -ℤ c)
shift c d q = ground (arith, +ℤ_parts c d, -ℤ_parts q c)

row_visits :
    (c : GridPos) (dy : ℤ) (dxs : List ℤ) (q : GridPos)
    → visits (row_cells c dy dxs) q ≡ (eqb_ℤ dy (q.y -ℤ c.y) && among dxs (q.x -ℤ c.x))
row_visits c dy [] q = ground arith
row_visits c dy (dx ∷ dxs) q =
    ground (arith, row_visits c dy dxs q, shift c.x dx q.x, shift c.y dy q.y)

square_visits :
    (c : GridPos) (dys dxs : List ℤ) (q : GridPos)
    → visits (square_cells c dys dxs) q ≡ (among dys (q.y -ℤ c.y) && among dxs (q.x -ℤ c.x))
square_visits c [] dxs q = refl
square_visits c (dy ∷ dys) dxs q = ground (
  arith,
  visits-append (row_cells c dy dxs) (square_cells c dys dxs) q,
  row_visits c dy dxs q,
  square_visits c dys dxs q,
)

within-suc :
    (n : ℕ) (from z : ℤ) → within (suc n) from z ≡ (eqb_ℤ from z || within n (from +ℤ pos 1) z)
within-suc n from z =
    ground
      (arith, +ℤ_parts from (pos (suc n)), +ℤ_parts from (pos 1), +ℤ_parts (from +ℤ pos 1) (pos n))

among-counted : (n : ℕ) (from z : ℤ) → among (counted n from) z ≡ within n from z
among-counted zero from z = ground (arith, +ℤ_parts from (pos 0))
among-counted (suc n) from z =
    ap (λ b. eqb_ℤ from z || b) (among-counted n (from +ℤ pos 1) z) ∙ sym (within-suc n from z)

among-offsets : (r : ℕ) (z : ℤ) → among (offsets r) z ≡ not (ltb r (abs z))
among-offsets r z = among-counted (r + r + 1) (sub_ℕ 0 r) z ∙ reach
  where
    reach : within (r + r + 1) (sub_ℕ 0 r) z ≡ not (ltb r (abs z))
    reach = ground (arith, one_part z, +ℤ_parts (sub_ℕ 0 r) (pos (r + r + 1)))

-- The loops around a position visit exactly the positions in its vision range.
pub visits-vision_cells :
    (c : GridPos) (range : ℕ) (q : GridPos)
    → visits (vision_cells c range) q ≡ not (is_outside range q c)
unfolding is_outside
visits-vision_cells c range q = ground (
  arith,
  square_visits c (offsets range) (offsets range) q,
  among-offsets range (q.y -ℤ c.y),
  among-offsets range (q.x -ℤ c.x),
)

pub same_pos-eq : (p q : GridPos) → same_pos p q ≡ true → p ≡ q
same_pos-eq p q e =
    ap₂ (λ (a b : ℤ). record { x = a; y = b }) ((eqb_ℤ_iff p.x q.x).0 (ground arith))
      ((eqb_ℤ_iff p.y q.y).0 (ground arith))

pub same_pos_refl : (p : GridPos) → same_pos p p ≡ true
same_pos_refl p = ground arith

pub contains-insert : (s : List ℕ) (a b : ℕ) → contains (insert a s) b ≡ (a == b || contains s b)
unfolding insert
contains-insert [] a b = refl
contains-insert (c ∷ s) a b = ground (arith, contains-insert s a b)

pub contains-erase :
    (s : List ℕ) (a b : ℕ) → contains (erase a s) b ≡ (not (a == b) && contains s b)
unfolding erase
contains-erase [] a b = ground arith
contains-erase (c ∷ s) a b = ground (arith, contains-erase s a b)

-- The cells that a loop changes.
abbrev pub touched : (GridPos → Bool) → List GridPos → GridPos → Bool
touched test ps q = visits ps q && (not (is_invalid q) && test q)

abbrev one_cell : (GridPos → Bool) → (List ℕ → List ℕ) → GridPos → Grids → Grids
one_cell test change p g =
    if is_invalid p then g else if test p then set_cell g p (change (g p)) else g

one_cell_lem :
    (test : GridPos → Bool) (change : List ℕ → List ℕ) (p q : GridPos) (g : Grids)
    → one_cell test change p g q
      ≡ (if same_pos p q && (not (is_invalid q) && test q) then change (g q) else g q)
one_cell_lem test change p q g = elim (Bool-cases (same_pos p q)) [
  | inl e ↦ rw (same_pos-eq p q e, same_pos_refl q) (ground (arith, same_pos_refl q))
  | inr e ↦ ground arith
]

-- A loop over cells that inserts a session: it is then in the cells touched, all else is unchanged.
pub for_cells-insert :
    (test : GridPos → Bool) (a b : ℕ) (ps : List GridPos) (g : Grids) (q : GridPos)
    → contains (for_cells test (insert a) ps g q) b
      ≡ (contains (g q) b || (a == b && touched test ps q))
unfolding for_cells
for_cells-insert test a b [] g q = ground arith
for_cells-insert test a b (p ∷ ps) g q =
    for_cells-insert test a b ps (one_cell test (insert a) p g) q
    ∙ ap (λ s. contains s b || (a == b && touched test ps q)) (one_cell_lem test (insert a) p q g)
    ∙ ground (arith, contains-insert (g q) a b)

-- A loop that erases a session: it is then in none of the cells touched.
pub for_cells-erase :
    (test : GridPos → Bool) (a b : ℕ) (ps : List GridPos) (g : Grids) (q : GridPos)
    → contains (for_cells test (erase a) ps g q) b
      ≡ (contains (g q) b && not (a == b && touched test ps q))
unfolding for_cells
for_cells-erase test a b [] g q = ground arith
for_cells-erase test a b (p ∷ ps) g q =
    for_cells-erase test a b ps (one_cell test (erase a) p g) q
    ∙ ap (λ s. contains s b && not (a == b && touched test ps q))
        (one_cell_lem test (erase a) p q g)
    ∙ ground (arith, contains-erase (g q) a b)
