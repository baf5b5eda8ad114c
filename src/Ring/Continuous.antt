-- ===== src/Ring/Continuous.antt =====
-- The part of the free space that one receive is given (GetContinuousFreeSize of
-- MMO/Server/Network/Source/RingBuffer.cpp), and what the kernel puts there
-- (RegisterRecv and OnRecv of MMO/Server/Network/Source/Session.cpp).
use native.Mathlib.Nat.{mod_self}
use mmorpg_server.Base.{
  ℕ, ◌+◌, ◌%◌, ◌≤◌, ◌<◌, ◌≡◌, sym, ap, ◌∙◌, ◌≢◌, List, [], ◌++◌, arith, length,
}
use mmorpg_server.Ring.{
  RingBuffer, copy_to, move_write_pos, get_use_size, get_free_size, get_continuous_free_size,
}
use mmorpg_server.Ring.Bytes.{window, put_round-copy_to}
use mmorpg_server.Ring.Contents.{IsValid, contents, put-contents}
use mmorpg_server.Ring.Queue.{appended, appended-IsValid, free-add-use}

-- A completed receive: the kernel has written `bytes` at the write position, and OnRecv moves it on.
unfoldable pub receive : RingBuffer → List ℕ → RingBuffer
unfolding move_write_pos copy_to
receive r bytes =
    move_write_pos (record r { buffer = copy_to r.buffer r.write_pos bytes }) (length bytes)

-- RegisterRecv asks for this many bytes at most.
pub continuous-fits-array :
    {r : RingBuffer} → IsValid r → r.write_pos + get_continuous_free_size r ≤ r.capacity
unfolding get_continuous_free_size
continuous-fits-array v = ground arith

-- Unless the read position is 0, the continuous free space is free.
pub continuous-le-free :
    {r : RingBuffer} → IsValid r → r.read_pos ≢ 0 → get_continuous_free_size r ≤ get_free_size r
unfolding get_continuous_free_size get_free_size get_use_size
continuous-le-free v ne = ground arith

-- At read position 0 it is one byte more than the free space.
pub continuous-at_zero :
    {r : RingBuffer} → IsValid r → r.read_pos ≡ 0 → get_continuous_free_size r ≡ get_free_size r + 1
unfolding get_continuous_free_size get_free_size get_use_size
continuous-at_zero v e = ground arith

-- No continuous space is left only in a full buffer.
pub continuous-zero :
    {r : RingBuffer} → IsValid r → get_continuous_free_size r ≡ 0 → get_free_size r ≡ 0
unfolding get_continuous_free_size get_free_size get_use_size
continuous-zero v e = ground arith

pub receive-appended :
    (r : RingBuffer) (bytes : List ℕ)
    → r.write_pos + length bytes ≤ r.capacity
    → receive r bytes ≡ appended r bytes
unfolding receive
receive-appended r bytes le =
    ap
      (λ (b : List ℕ). record r {
        buffer = b;
        write_pos = (r.write_pos + length bytes) % r.capacity;
      })
      (sym (put_round-copy_to r.buffer r.capacity r.write_pos bytes le))

-- A receive of at most the posted size and of at most the free size appends the received bytes to
-- the contents, and keeps the buffer valid.
pub receive_lem :
    {r : RingBuffer} (bytes : List ℕ)
    → IsValid r
    → length bytes ≤ get_continuous_free_size r
    → length bytes ≤ get_free_size r
    → (contents (receive r bytes) ≡ contents r ++ bytes) × IsValid (receive r bytes)
receive_lem {r} bytes v fits free =
    let less : get_use_size r + length bytes < r.capacity = omega (arith, free-add-use v) in
    rw (receive-appended r bytes (omega (arith, continuous-fits-array v)))
      (put-contents bytes v less, appended-IsValid bytes v less)

-- The write position comes back to the start, where the read position is.
back_to_start :
    {r : RingBuffer} (bytes : List ℕ)
    → IsValid r
    → r.read_pos ≡ 0
    → length bytes ≡ get_continuous_free_size r
    → (get_use_size (receive r bytes) ≡ 0) × (0 < length bytes)
unfolding receive get_use_size get_continuous_free_size
back_to_start {r} bytes v at_zero all =
    let full : r.write_pos + length bytes ≡ r.capacity = ground arith in
    let wrap : (r.write_pos + length bytes) % r.capacity ≡ 0 =
      ap (λ k. k % r.capacity) full ∙ mod_self r.capacity in
    (ground (arith, wrap), ground arith)

-- With the read position at 0, a receive of all the posted bytes, of which there is at least one,
-- leaves an empty buffer: the bytes received, and those that the buffer held, are lost.
pub receive_all_lost :
    {r : RingBuffer} (bytes : List ℕ)
    → IsValid r
    → r.read_pos ≡ 0
    → length bytes ≡ get_continuous_free_size r
    → (contents (receive r bytes) ≡ []) × (0 < length bytes)
receive_all_lost {r} bytes v at_zero all =
    let (empty, some_lost) = back_to_start bytes v at_zero all in
    let r' = receive r bytes in (ap (window r'.buffer r'.capacity r'.read_pos) empty, some_lost)
