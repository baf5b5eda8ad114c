-- ===== src/Grid/Vision.antt =====
-- Who is in which cell after the three vision helpers of World (MMO/Server/Game/World.cpp).
use mmorpg_server.Base.{
  ℕ, ◌≡◌, ap, ◌∙◌, Bool, true, false, not, ◌&&◌, ◌||◌, arith, ◌==◌, if◌then◌else◌,
}
use mmorpg_server.Grid.{
  GridPos, is_invalid, contains, Grids, vision_cells, is_outside, insert_to_vision_grids,
  remove_from_vision_grids, update_vision_grids,
}
use mmorpg_server.Grid.Cells.{touched, visits-vision_cells, for_cells-insert, for_cells-erase}

-- The valid cells within the vision range of a position.
abbrev pub sees : ℕ → GridPos → GridPos → Bool
sees range center q = not (is_outside range q center) && not (is_invalid q)

-- InsertToVisionGrids adds the session to exactly the cells that its position sees.
pub insert_to_vision_grids_lem :
    (session b : ℕ) (center : GridPos) (range : ℕ) (g : Grids) (q : GridPos)
    → contains (insert_to_vision_grids session center range g q) b
      ≡ (contains (g q) b || (session == b && sees range center q))
unfolding insert_to_vision_grids
insert_to_vision_grids_lem session b center range g q =
    for_cells-insert (λ p. true) session b (vision_cells center range) g q
    ∙ ground (arith, visits-vision_cells center range q)

-- RemoveFromVisionGrids takes the session out of exactly those cells.
pub remove_from_vision_grids_lem :
    (session b : ℕ) (center : GridPos) (range : ℕ) (g : Grids) (q : GridPos)
    → contains (remove_from_vision_grids session center range g q) b
      ≡ (contains (g q) b && not (session == b && sees range center q))
unfolding remove_from_vision_grids
remove_from_vision_grids_lem session b center range g q =
    for_cells-erase (λ p. true) session b (vision_cells center range) g q
    ∙ ground (arith, visits-vision_cells center range q)

-- UpdateVisionGrids, the optimised step, leaves exactly the cells that only the old position sees and
-- joins exactly those that only the new one sees.
pub update_vision_grids_lem :
    (session b : ℕ) (old_pos new_pos : GridPos) (range : ℕ) (g : Grids) (q : GridPos)
    → contains (update_vision_grids session old_pos new_pos range g q) b ≡ (
        if session == b && (sees range old_pos q && not (sees range new_pos q))
        then false
        else if session == b && (sees range new_pos q && not (sees range old_pos q))
        then true
        else contains (g q) b)
unfolding update_vision_grids
update_vision_grids_lem session b old_pos new_pos range g q =
    for_cells-insert (λ p. is_outside range p old_pos) session b (vision_cells new_pos range) _ q
    ∙ ap
        (λ c.
          c
          || (session == b
              && touched (λ p. is_outside range p old_pos) (vision_cells new_pos range) q))
        (for_cells-erase (λ p. is_outside range p new_pos) session b (vision_cells old_pos range) g
          q)
    ∙ ground (arith, visits-vision_cells new_pos range q, visits-vision_cells old_pos range q)

-- The optimised step equals leaving the old square and entering the new one, cell by cell and
-- session by session, for a session that is in exactly the cells that its old position sees.
pub update-eq-remove_insert :
    (session b : ℕ) (old_pos new_pos : GridPos) (range : ℕ) (g : Grids) (q : GridPos)
    → contains (g q) session ≡ sees range old_pos q
    → contains (update_vision_grids session old_pos new_pos range g q) b
      ≡ contains
          (insert_to_vision_grids session new_pos range
            (remove_from_vision_grids session old_pos range g)
            q)
          b
update-eq-remove_insert session b old_pos new_pos range g q registered =
    update_vision_grids_lem session b old_pos new_pos range g q
    ∙ ground (
      arith,
      registered,
      insert_to_vision_grids_lem session b new_pos range
          (remove_from_vision_grids session old_pos range g) q,
      remove_from_vision_grids_lem session b old_pos range g q,
    )
