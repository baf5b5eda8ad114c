-- ===== src/Send/Buffers.antt =====
-- The pool of send buffers (MMO/Server/Network/Include/SendBuffer.h): sizes and bounds.
use mmorpg_server.Base.{
  min, ltb, if◌then◌else◌, ℕ, zero, suc, ◌+◌, ◌≤◌, ◌≡◌, refl, ap, ◌∙◌, List, [], ◌∷◌, arith, length,
  set, take, length-replicate,
}
use mmorpg_server.Ring.{copy_to}
use mmorpg_server.Send.{
  SendBuffer, capacity, buffer_size, pool_limit, new_buffer, init_pool, open_buffer, release,
  release_all, fill, payload,
}

abbrev pub AllStandard : List SendBuffer → Type 0
AllStandard [] = Unit {0}
AllStandard (b ∷ bs) = (buffer_size ≤ capacity b) × AllStandard bs

-- The pool holds buffers of the standard size only, and not too many.
pub record IsPool (pool : List SendBuffer) : Type 0 where
  pub standard : AllStandard pool
  pub bounded : length pool ≤ pool_limit

pub release-IsPool :
    (b : SendBuffer) (pool : List SendBuffer) → IsPool pool → IsPool (release b pool)
unfolding release
release-IsPool b pool v = ground arith

-- Whatever buffers come back, the pool keeps only buffers of the standard size, at most 10,000.
pub release_all-IsPool : (bs pool : List SendBuffer) → IsPool pool → IsPool (release_all bs pool)
unfolding release_all
release_all-IsPool [] pool v = v
release_all-IsPool (b ∷ bs) pool v =
    release_all-IsPool bs (release b pool) (release-IsPool b pool v)

pub init_pool-IsPool :
    (count : ℕ) (pool : List SendBuffer)
    → IsPool pool
    → length pool + count ≤ pool_limit
    → IsPool (init_pool count pool)
unfolding init_pool new_buffer
init_pool-IsPool zero pool v le = v
init_pool-IsPool (suc count) pool v le =
    init_pool-IsPool count (new_buffer buffer_size ∷ pool)
      (record {
        standard = (omega (arith, length-replicate {A = ℕ} buffer_size 0), v.standard);
        bounded = omega arith;
      })
      (omega arith)

-- An opened buffer has room for any packet of at most the standard size.
pub open_buffer-fits :
    (n : ℕ) (pool : List SendBuffer)
    → IsPool pool
    → n ≤ buffer_size
    → n ≤ capacity (open_buffer n pool).0
unfolding open_buffer new_buffer
open_buffer-fits n [] v le = omega (arith, length-replicate {A = ℕ} n 0)
open_buffer-fits n (b ∷ pool) v le = omega (arith, v)

copy_to-shift :
    (b : ℕ) (buf : List ℕ) (i : ℕ) (xs : List ℕ)
    → copy_to (b ∷ buf) (suc i) xs ≡ b ∷ copy_to buf i xs
unfolding copy_to
copy_to-shift b buf i [] = refl
copy_to-shift b buf i (x ∷ xs) =
    ap (λ k. copy_to (b ∷ set buf i x) k xs) suc_out ∙ copy_to-shift b (set buf i x) (i + 1) xs
  where
    suc_out : suc i + 1 ≡ suc (i + 1)
    suc_out = omega arith

copy_to-front :
    (xs buf : List ℕ) → length xs ≤ length buf → take (length xs) (copy_to buf 0 xs) ≡ xs
unfolding copy_to
copy_to-front [] buf le = refl
copy_to-front (x ∷ xs) [] le = absurd (omega arith)
copy_to-front (x ∷ xs) (b ∷ buf) le =
    ap (take (suc (length xs))) (copy_to-shift x buf 0 xs)
    ∙ ap (◌∷◌ x) (copy_to-front xs buf (omega arith))

-- A filled buffer hands out exactly the packet.
pub payload-fill :
    (b : SendBuffer) (packet : List ℕ)
    → length packet ≤ capacity b
    → payload (fill b packet) ≡ packet
unfolding fill
payload-fill b packet le = copy_to-front packet b.storage le

-- How many of the buffers have the standard size.
abbrev pub standard_count : List SendBuffer → ℕ
standard_count [] = 0
standard_count (b ∷ bs) = (if ltb (capacity b) buffer_size then 0 else 1) + standard_count bs

length-release :
    (b : SendBuffer) (pool : List SendBuffer)
    → length pool ≤ pool_limit
    → length (release b pool)
      ≡ min pool_limit (length pool + (if ltb (capacity b) buffer_size then 0 else 1))
unfolding release
length-release b pool le = ground (arith, le)

-- Each buffer of the standard size comes back, as long as the pool has room.
pub length-release_all :
    (bs pool : List SendBuffer)
    → length pool ≤ pool_limit
    → length (release_all bs pool) ≡ min pool_limit (length pool + standard_count bs)
unfolding release_all
length-release_all [] pool le = omega (arith, le)
length-release_all (b ∷ bs) pool le =
    let one = length-release b pool le in
    let more = length-release_all bs (release b pool) (omega (arith, one)) in
    omega (arith, one, more)
