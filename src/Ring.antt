-- ===== src/Ring.antt =====
-- RingBuffer (MMO/Server/Network/Include/RingBuffer.h, Source/RingBuffer.cpp): the 8 KB receive
-- buffer of a session. Positions are `int`s between 0 and 8193, so they are kept as numbers; a byte
-- is only moved, so it is any number.
pub mod Bytes
pub mod Contents
pub mod Queue
pub mod Continuous
use mmorpg_server.Base.{
  ℕ, zero, suc, ◌+◌, ◌-◌, ◌%◌, min, Bool, true, false, Option, none, some, List, [], ◌∷◌, ◌++◌, ltb,
  leb, if◌then◌else◌, length, set, take, drop, replicate,
}

pub record RingBuffer : Type 0 where
  pub buffer : List ℕ
  pub capacity : ℕ
  pub read_pos : ℕ
  pub write_pos : ℕ

-- memcpy of `xs` to `&buf[i]`.
unfoldable pub copy_to : List ℕ → ℕ → List ℕ → List ℕ
copy_to buf i [] = buf
copy_to buf i (x ∷ xs) = copy_to (set buf i x) (i + 1) xs

-- The `n` bytes that memcpy reads from `&buf[i]`.
abbrev pub copy_from : List ℕ → ℕ → ℕ → List ℕ
copy_from buf i n = take n (drop i buf)

-- The constructor keeps one slot free, to tell a full buffer from an empty one.
unfoldable pub new_ring : ℕ → RingBuffer
new_ring capacity = record {
  buffer = replicate (capacity + 1) 0;
  capacity = capacity + 1;
  read_pos = 0;
  write_pos = 0;
}

unfoldable pub move_write_pos : RingBuffer → ℕ → RingBuffer
move_write_pos r len = record r { write_pos = (r.write_pos + len) % r.capacity }

unfoldable pub get_use_size : RingBuffer → ℕ
get_use_size r =
    if leb r.read_pos r.write_pos
    then r.write_pos - r.read_pos
    else r.capacity - r.read_pos + r.write_pos

unfoldable pub get_free_size : RingBuffer → ℕ
unfolding get_use_size
get_free_size r = r.capacity - get_use_size r - 1

unfoldable pub clear : RingBuffer → RingBuffer
clear r = record r { read_pos = 0; write_pos = 0 }

unfoldable pub get_continuous_free_size : RingBuffer → ℕ
get_continuous_free_size r =
    if leb r.read_pos r.write_pos then r.capacity - r.write_pos else r.read_pos - r.write_pos - 1

unfoldable pub get_continuous_used_size : RingBuffer → ℕ
get_continuous_used_size r =
    if ltb r.write_pos r.read_pos then r.capacity - r.read_pos else r.write_pos - r.read_pos

-- The copies of `Write`: up to the end of the array, and what is left to its front.
unfoldable pub write_bytes : RingBuffer → List ℕ → List ℕ
write_bytes r src =
    let len = length src in
    let write_len = min len (r.capacity - r.write_pos) in
    let back = copy_to r.buffer r.write_pos (take write_len src) in
    if ltb write_len len then copy_to back 0 (drop write_len src) else back

-- `len` is the length of the source bytes.
unfoldable pub write : RingBuffer → List ℕ → Bool × RingBuffer
unfolding get_free_size write_bytes
write r src = if ltb (get_free_size r) (length src) then (false, r) else (
  true,
  record r { buffer = write_bytes r src; write_pos = (r.write_pos + length src) % r.capacity },
)

-- The copies of `Peek`.
unfoldable pub peek_bytes : RingBuffer → ℕ → List ℕ
peek_bytes r len =
    let read_len = min len (r.capacity - r.read_pos) in
    let back = copy_from r.buffer r.read_pos read_len in
    if ltb read_len len then back ++ copy_from r.buffer 0 (len - read_len) else back

-- `none` is the result `false`; the list is what is copied to the destination, and `dest` says that
-- the destination is not null.
unfoldable pub peek : RingBuffer → Bool → ℕ → Option (List ℕ)
unfolding get_use_size peek_bytes
peek r dest len =
    if ltb (get_use_size r) len then none else some (if dest then peek_bytes r len else [])

unfoldable pub remove : RingBuffer → ℕ → RingBuffer
remove r len = record r { read_pos = (r.read_pos + len) % r.capacity }

unfoldable pub read : RingBuffer → Bool → ℕ → Option (List ℕ × RingBuffer)
unfolding get_use_size peek remove
read r dest len =
    if ltb (get_use_size r) len
    then none
    else elim (peek r dest len) [ none ↦ none | some out ↦ some (out, remove r len) ]
