-- ===== src/World/Pairs.antt =====
-- The pairs of sessions that a move collects (HandleMove of MMO/Server/Game/World.cpp).
use mmorpg_server.Base.{
  ℕ, ◌≡◌, refl, ap₂, Bool, false, not, ◌&&◌, ◌||◌, List, [], ◌∷◌, ◌++◌, arith, ◌==◌,
}
use mmorpg_server.Grid.{GridPos, Grids, contains, is_invalid, is_outside}
use mmorpg_server.World.{others, both_ways, pairs_outside}
use mmorpg_server.World.Observers.{contains-others}

abbrev pub has_pair : ℕ → ℕ → List (ℕ × ℕ) → Bool
has_pair x y [] = false
has_pair x y ((v, w) ∷ ps) = (v == x && w == y) || has_pair x y ps

abbrev pub some_cell : (GridPos → Bool) → List GridPos → Bool
some_cell test [] = false
some_cell test (p ∷ ps) = test p || some_cell test ps

has_pair-append :
    (x y : ℕ) (ps qs : List (ℕ × ℕ))
    → has_pair x y (ps ++ qs) ≡ (has_pair x y ps || has_pair x y qs)
has_pair-append x y [] qs = refl
has_pair-append x y ((v, w) ∷ ps) qs = ground (arith, has_pair-append x y ps qs)

-- Each of a list, and the session, are paired both ways.
has_pair-both_ways :
    (a b : ℕ) (bs : List ℕ)
    → (a == b) ≡ false
    → (has_pair b a (both_ways a bs) ≡ contains bs b)
      × (has_pair a b (both_ways a bs) ≡ contains bs b)
unfolding both_ways
has_pair-both_ways a b [] apart = (refl, refl)
has_pair-both_ways a b (c ∷ bs) apart =
    let (one, two) = has_pair-both_ways a b bs apart in
    (ground (arith, one, apart), ground (arith, two, apart))

-- The valid cells out of sight of a position, in which a session is.
abbrev pub crossed : Grids → ℕ → GridPos → ℕ → GridPos → Bool
crossed grids range from b q =
    not (is_invalid q) && (is_outside range q from && contains (grids q) b)

pub has_pair-pairs_outside :
    (a b : ℕ) (grids : Grids) (range : ℕ) (from : GridPos) (ps : List GridPos)
    → (a == b) ≡ false
    → (has_pair b a (pairs_outside a grids range from ps)
        ≡ some_cell (crossed grids range from b) ps)
      × (has_pair a b (pairs_outside a grids range from ps)
          ≡ some_cell (crossed grids range from b) ps)
unfolding pairs_outside
has_pair-pairs_outside a b grids range from [] apart = (refl, refl)
has_pair-pairs_outside a b grids range from (p ∷ ps) apart =
    let (one, two) = has_pair-pairs_outside a b grids range from ps apart in
    let here = others a (grids p) in
    let rest = pairs_outside a grids range from ps in
    let (this, that) = has_pair-both_ways a b here apart in
    (
      ground (
        arith,
        one,
        apart,
        this,
        contains-others a (grids p) b,
        has_pair-append b a (both_ways a here) rest,
      ),
      ground (
        arith,
        two,
        apart,
        that,
        contains-others a (grids p) b,
        has_pair-append a b (both_ways a here) rest,
      ),
    )

pub some_cell_eq :
    (s t : GridPos → Bool) (ps : List GridPos)
    → ((q : GridPos) → s q ≡ t q)
    → some_cell s ps ≡ some_cell t ps
some_cell_eq s t [] same = refl
some_cell_eq s t (p ∷ ps) same = ap₂ ◌||◌ (same p) (some_cell_eq s t ps same)
