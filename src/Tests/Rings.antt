-- ===== src/Tests/Rings.antt =====
-- Runs of the ring buffer (MMO/Server/Network/Source/RingBuffer.cpp).
use mmorpg_server.Base.{◌<◌, ◌≡◌, refl, true, [], ◌∷◌, arith}
use mmorpg_server.Ring.Queue.{write_lem}
use mmorpg_server.Ring.{
  write, get_use_size, RingBuffer, new_ring, get_free_size, get_continuous_free_size,
}
use mmorpg_server.Ring.Contents.{IsValid, contents}
use mmorpg_server.Ring.Continuous.{receive, receive_all_lost}

abbrev small_ring : RingBuffer
small_ring = new_ring 7

small_ring-IsValid : IsValid small_ring
unfolding new_ring
small_ring-IsValid = record { storage = refl; read_in = omega arith; write_in = omega arith }

receive_all_lost_example :
    (contents (receive small_ring (1 ∷ 2 ∷ 3 ∷ 4 ∷ 5 ∷ 6 ∷ 7 ∷ 8 ∷ [])) ≡ []) × (0 < 8)
unfolding get_continuous_free_size new_ring
receive_all_lost_example =
    receive_all_lost (1 ∷ 2 ∷ 3 ∷ 4 ∷ 5 ∷ 6 ∷ 7 ∷ 8 ∷ []) small_ring-IsValid refl refl

-- Contents that go round the end of the array.
abbrev round_ring : RingBuffer
round_ring = record {
  buffer = 13 ∷ 0 ∷ 0 ∷ 11 ∷ 12 ∷ [];
  capacity = 5;
  read_pos = 3;
  write_pos = 1;
}

round_ring-IsValid : IsValid round_ring
round_ring-IsValid = record { storage = refl; read_in = omega arith; write_in = omega arith }

write_lem_example :
    ((write round_ring (14 ∷ [])).0 ≡ true)
    × (contents (write round_ring (14 ∷ [])).1 ≡ 11 ∷ 12 ∷ 13 ∷ 14 ∷ [])
    × IsValid (write round_ring (14 ∷ [])).1
unfolding get_free_size get_use_size
write_lem_example = write_lem (14 ∷ []) round_ring-IsValid
