-- ===== src/World/Observers.antt =====
-- Who a broadcast of World (MMO/Server/Game/World.cpp) reaches.
use mmorpg_server.Base.{ℕ, ◌≡◌, not, ◌&&◌, List, [], ◌∷◌, arith, ◌==◌}
use mmorpg_server.Grid.{contains}
use mmorpg_server.Platform.{Platform}
use mmorpg_server.Game.{Game}
use mmorpg_server.World.{non_null, others}

pub contains-non_null :
    (s : List ℕ) (b : ℕ) → contains (non_null s) b ≡ (not (b == 0) && contains s b)
unfolding non_null
contains-non_null [] b = ground arith
contains-non_null (a ∷ s) b = ground (arith, contains-non_null s b)

pub contains-others :
    (a : ℕ) (s : List ℕ) (b : ℕ) → contains (others a s) b ≡ (not (b == a) && contains s b)
unfolding others
contains-others a [] b = ground arith
contains-others a (c ∷ s) b = ground (arith, contains-others a s b)
