-- ===== src/Game/Map.antt =====
-- The laws of the map from player ids to sessions (`sessions` of MMO/Server/Game/World.h).
use mmorpg_server.Base.{ℕ, ◌≡◌, refl, none, some, List, [], ◌∷◌, arith, if◌then◌else◌}
use mmorpg_server.Base.Int.{ℤ, eqb_ℤ}
use mmorpg_server.Game.{map_find, map_set, map_erase}

pub map_find-set :
    (j k : ℤ) (a : ℕ) (m : List (ℤ × ℕ))
    → map_find j (map_set k a m) ≡ (if eqb_ℤ k j then some a else map_find j m)
unfolding map_find map_set
map_find-set j k a [] = refl
map_find-set j k a ((i, b) ∷ m) = ground (arith, map_find-set j k a m)

pub map_find-erase :
    (j k : ℤ) (m : List (ℤ × ℕ))
    → map_find j (map_erase k m) ≡ (if eqb_ℤ k j then none else map_find j m)
unfolding map_find map_erase
map_find-erase j k [] = ground arith
map_find-erase j k ((i, b) ∷ m) = ground (arith, map_find-erase j k m)
