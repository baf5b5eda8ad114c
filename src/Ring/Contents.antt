-- ===== src/Ring/Contents.antt =====
-- RingBuffer (MMO/Server/Network/Source/RingBuffer.cpp) as a bounded queue of bytes: what each
-- operation does to the bytes that the buffer holds.
use native.Mathlib.Nat.{mod-eq_of_lt, mod-eq-sub-mod}
use mmorpg_server.Base.{
  ℕ, ◌+◌, ◌-◌, ◌%◌, ◌≤◌, ◌<◌, ◌≡◌, sym, ap, ◌∙◌, List, ◌++◌, arith, dec_lt, leb, if◌then◌else◌, ◌⊎◌,
  inl, inr, length, drop, drop-append_of_length,
}
use mmorpg_server.Ring.{RingBuffer, get_use_size, remove}
use mmorpg_server.Ring.Bytes.{window, put_round, length-window, window-split, window-put_round}

pub record IsValid (r : RingBuffer) : Type 0 where
  pub storage : length r.buffer ≡ r.capacity
  pub read_in : r.read_pos < r.capacity
  pub write_in : r.write_pos < r.capacity

-- The bytes from the read position to the write position, oldest first.
abbrev pub contents : RingBuffer → List ℕ
contents r = window r.buffer r.capacity r.read_pos (get_use_size r)

pub get_use_size-lt : {r : RingBuffer} → IsValid r → get_use_size r < r.capacity
unfolding get_use_size
get_use_size-lt v = ground arith

pub length-contents : (r : RingBuffer) → length (contents r) ≡ get_use_size r
length-contents r = length-window r.buffer r.capacity r.read_pos (get_use_size r)

-- One turn round the array at most.
mod-once :
    (a size : ℕ)
    → a < size + size
    → ((a < size) × (a % size ≡ a)) ⊎ ((size ≤ a) × (a % size ≡ a - size))
mod-once a size lt = elim (dec_lt a size) [
  | yes h ↦ inl (h, mod-eq_of_lt h)
  | no h ↦
      inr
        (omega arith, mod-eq-sub-mod {n = a} {m = size} (omega arith) ∙ mod-eq_of_lt (omega arith))
]

pub write_pos-at :
    {r : RingBuffer} → IsValid r → (r.read_pos + get_use_size r) % r.capacity ≡ r.write_pos
unfolding get_use_size
write_pos-at {r} v = ground (
  arith,
  mod-once (r.read_pos + (r.write_pos - r.read_pos)) r.capacity,
  mod-once (r.read_pos + (r.capacity - r.read_pos + r.write_pos)) r.capacity,
)

-- The number of bytes between two positions, read off the positions.
distance :
    (size r n : ℕ)
    → r < size
    → n < size
    → (if leb r ((r + n) % size) then (r + n) % size - r else size - r + (r + n) % size) ≡ n
distance size r n lt less = ground (arith, mod-once (r + n) size)

-- Moving the write position on, with bytes put behind the contents.
pub advance-contents :
    {r : RingBuffer} (buf : List ℕ) (n : ℕ)
    → IsValid r
    → get_use_size r + n < r.capacity
    → let r' = record r { buffer = buf; write_pos = (r.write_pos + n) % r.capacity } in
      (get_use_size r' ≡ get_use_size r + n) × (r'.write_pos < r'.capacity)
unfolding get_use_size
advance-contents {r} buf n v less = ground (arith, mod-once (r.write_pos + n) r.capacity)

pub remove-use_size :
    {r : RingBuffer} (n : ℕ)
    → IsValid r
    → n ≤ get_use_size r
    → (get_use_size (remove r n) ≡ get_use_size r - n) × ((remove r n).read_pos < r.capacity)
unfolding remove get_use_size
remove-use_size {r} n v le = ground (arith, mod-once (r.read_pos + n) r.capacity)

-- Moving the read position on.
pub remove-contents :
    {r : RingBuffer} (n : ℕ)
    → IsValid r
    → n ≤ get_use_size r
    → contents (remove r n) ≡ drop n (contents r)
unfolding remove
remove-contents {r} n v le =
    ap (window r.buffer r.capacity ((r.read_pos + n) % r.capacity)) (remove-use_size n v le).0
    ∙ sym (
        ap (λ k. drop n (window r.buffer r.capacity r.read_pos k)) (omega arith)
        ∙ ap (drop n) (window-split r.buffer r.capacity r.read_pos n (get_use_size r - n) v.read_in)
        ∙ drop-append_of_length n (window r.buffer r.capacity r.read_pos n) _
            (length-window r.buffer r.capacity r.read_pos n))

pub remove-IsValid :
    {r : RingBuffer} (n : ℕ) → IsValid r → n ≤ get_use_size r → IsValid (remove r n)
unfolding remove
remove-IsValid n v le = record {
  storage = v.storage;
  read_in = (remove-use_size n v le).1;
  write_in = v.write_in;
}

pub put-contents :
    {r : RingBuffer} (src : List ℕ)
    → IsValid r
    → get_use_size r + length src < r.capacity
    → let r' = record r {
      buffer = put_round r.buffer r.capacity r.write_pos src;
      write_pos = (r.write_pos + length src) % r.capacity;
    } in
      contents r' ≡ contents r ++ src
put-contents {r} src v less =
    ap (window (put_round r.buffer r.capacity r.write_pos src) r.capacity r.read_pos)
      (advance-contents _ (length src) v less).0
    ∙ ap
        (λ w.
          window (put_round r.buffer r.capacity w src) r.capacity r.read_pos
            (get_use_size r + length src))
        (sym (write_pos-at v))
    ∙ window-put_round src r.buffer r.capacity r.read_pos (get_use_size r) (omega arith) v.read_in
        less
