-- ===== src/Ring/Queue.antt =====
-- RingBuffer (MMO/Server/Network/Source/RingBuffer.cpp): Write, Peek and Read against the
-- operations of a bounded queue of bytes.
use native.Mathlib.Nat.{mod_self}
use mmorpg_server.Base.{
  ℕ, ◌+◌, ◌-◌, ◌%◌, ◌≤◌, ◌<◌, min, ◌≡◌, refl, sym, ap, ap₂, ◌∙◌, Bool, true, false, Option, none,
  some, List, [], ◌∷◌, ◌++◌, arith, ltb, leb, ltb→lt, leb→le, lt→ltb, if◌then◌else◌, Bool-cases,
  inl, inr, length, set, length-set, take, drop, take_all, take-append_of_length,
}
use mmorpg_server.Ring.{
  RingBuffer, copy_to, copy_from, get_use_size, get_free_size, write_bytes, write, peek_bytes, peek,
  remove, read,
}
use mmorpg_server.Ring.Bytes.{
  window, put_round, length-window, window-split, copy_from-window, put_round-copy_to,
  copies-put_round,
}
use mmorpg_server.Ring.Contents.{
  IsValid, contents, get_use_size-lt, advance-contents, put-contents, remove-contents,
}

-- The two copies of `Write` are one write round the array.
write_bytes-put_round :
    {r : RingBuffer} (src : List ℕ)
    → IsValid r
    → length src ≤ r.capacity
    → write_bytes r src ≡ put_round r.buffer r.capacity r.write_pos src
unfolding write_bytes
write_bytes-put_round {r} src v le = elim (Bool-cases (ltb (min (length src) back) (length src))) [
  | inl wraps ↦
      rw (wraps, whole (ltb→lt _ _ wraps))
        (copies-put_round r.buffer r.capacity r.write_pos back src refl v.write_in le)
  | inr fits ↦
      rw (fits, write_bytes)
        (ap (copy_to r.buffer r.write_pos) (take_all _ src (omega (arith, short fits)))
          ∙ sym (put_round-copy_to r.buffer r.capacity r.write_pos src (omega (arith, short fits))))
]
  where
    back : ℕ
    back = r.capacity - r.write_pos

    whole : min (length src) back < length src → min (length src) back ≡ back
    whole lt = omega arith

    short : ltb (min (length src) back) (length src) ≡ false → length src ≤ min (length src) back
    short e = ground arith

-- The used and the free bytes make up the capacity, but for the slot that stays free.
pub free-add-use : {r : RingBuffer} → IsValid r → get_use_size r + get_free_size r + 1 ≡ r.capacity
unfolding get_free_size
free-add-use v = omega (arith, get_use_size-lt v)

pub length-put_round :
    (buf : List ℕ) (size i : ℕ) (xs : List ℕ) → length (put_round buf size i xs) ≡ length buf
length-put_round buf size i [] = refl
length-put_round buf size i (x ∷ xs) =
    length-put_round (set buf i x) size ((i + 1) % size) xs ∙ length-set buf i x

-- The buffer after bytes were put behind its contents.
abbrev pub appended : RingBuffer → List ℕ → RingBuffer
appended r src = record r {
  buffer = put_round r.buffer r.capacity r.write_pos src;
  write_pos = (r.write_pos + length src) % r.capacity;
}

pub appended-IsValid :
    {r : RingBuffer} (src : List ℕ)
    → IsValid r
    → get_use_size r + length src < r.capacity
    → IsValid (appended r src)
appended-IsValid {r} src v less = record {
  storage = length-put_round r.buffer r.capacity r.write_pos src ∙ v.storage;
  read_in = v.read_in;
  write_in = (advance-contents r.buffer (length src) v less).1;
}

write-appended :
    {r : RingBuffer} (src : List ℕ)
    → IsValid r
    → length src ≤ get_free_size r
    → write r src ≡ (true, appended r src)
unfolding write
write-appended {r} src v le =
    rw (write_bytes-put_round src v (omega (arith, free-add-use v))) (ground arith)

write-full :
    {r : RingBuffer} (src : List ℕ) → get_free_size r < length src → write r src ≡ (false, r)
unfolding write
write-full src lt = rw (lt→ltb _ _ lt)

-- `Write` takes the bytes exactly when they fit, and then appends them to the contents; otherwise it
-- leaves the buffer as it was. The buffer stays valid.
pub write_lem :
    {r : RingBuffer} (src : List ℕ)
    → IsValid r
    → ((write r src).0 ≡ leb (length src) (get_free_size r))
      × (contents (write r src).1
          ≡ (if leb (length src) (get_free_size r) then contents r ++ src else contents r))
      × IsValid (write r src).1
write_lem {r} src v = elim (Bool-cases (leb (length src) (get_free_size r))) [
  | inl fits ↦
      let le = leb→le _ _ fits in
      let less : get_use_size r + length src < r.capacity = omega (arith, free-add-use v) in
      rw (write-appended src v le, fits)
        (refl, put-contents src v less, appended-IsValid src v less)
  | inr full ↦ rw (write-full {r = r} src (ground arith), full) (refl, refl, v)
]

-- The two copies of `Peek` are one read round the array.
peek_bytes-window :
    {r : RingBuffer} (len : ℕ)
    → IsValid r
    → len ≤ r.capacity
    → peek_bytes r len ≡ window r.buffer r.capacity r.read_pos len
unfolding peek_bytes
peek_bytes-window {r} len v le = elim (Bool-cases (ltb (min len back) len)) [
  | inl wraps ↦
      rw (wraps, whole (ltb→lt _ _ wraps))
        (ap₂ ◌++◌ (copy_from-window r.buffer r.capacity r.read_pos back (omega arith) (omega arith))
            (copy_from-window r.buffer r.capacity 0 (len - back) (omega arith) (omega arith)
              ∙ ap (λ k. window r.buffer r.capacity k (len - back)) (sym start))
          ∙ sym (window-split r.buffer r.capacity r.read_pos back (len - back) v.read_in)
          ∙ ap (window r.buffer r.capacity r.read_pos)
              (omega (arith, ltb→lt (min len back) len wraps)))
  | inr fits ↦
      rw (fits, peek_bytes)
        (ap (copy_from r.buffer r.read_pos) (omega (arith, short fits))
          ∙ copy_from-window r.buffer r.capacity r.read_pos len (omega (arith, short fits))
              (omega arith))
]
  where
    back : ℕ
    back = r.capacity - r.read_pos

    whole : min len back < len → min len back ≡ back
    whole lt = omega arith

    short : ltb (min len back) len ≡ false → len ≤ min len back
    short e = ground arith

    start : (r.read_pos + back) % r.capacity ≡ 0
    start = ap (λ k. k % r.capacity) (omega arith) ∙ mod_self r.capacity

take-contents :
    {r : RingBuffer} (len : ℕ)
    → IsValid r
    → len ≤ get_use_size r
    → window r.buffer r.capacity r.read_pos len ≡ take len (contents r)
take-contents {r} len v le = sym (
    ap (λ k. take len (window r.buffer r.capacity r.read_pos k)) (omega arith)
    ∙ ap (take len)
        (window-split r.buffer r.capacity r.read_pos len (get_use_size r - len) v.read_in)
    ∙ take-append_of_length len (window r.buffer r.capacity r.read_pos len) _
        (length-window r.buffer r.capacity r.read_pos len))

-- What the copy puts out: nothing to a null destination.
abbrev pub copied : Bool → List ℕ → List ℕ
copied dest out = if dest then out else []

-- `Peek` fails exactly when fewer bytes are held than are asked for; else it copies the oldest.
pub peek_lem :
    {r : RingBuffer} (dest : Bool) (len : ℕ)
    → IsValid r
    → peek r dest len
      ≡ (if leb len (get_use_size r) then some (copied dest (take len (contents r))) else none)
unfolding peek
peek_lem {r} dest len v = elim (Bool-cases (leb len (get_use_size r))) [
  | inl held ↦
      rw
        (
          held,
          peek_bytes-window len v (omega (arith, leb→le _ _ held, get_use_size-lt v)),
          take-contents len v (leb→le _ _ held),
        )
        (ground arith)
  | inr short ↦ rw (short, peek) (ground arith)
]

-- What a read leaves, as bytes.
abbrev pub taken : Option (List ℕ × RingBuffer) → Option (List ℕ × List ℕ)
taken none = none
taken (some (out, r)) = some (out, contents r)

-- `Read` fails exactly when fewer bytes are held than are asked for. Else it gives the oldest bytes
-- (none of them to a null destination), and the contents are what is behind them.
pub read_lem :
    {r : RingBuffer} (dest : Bool) (len : ℕ)
    → IsValid r
    → taken (read r dest len) ≡ (
        if leb len (get_use_size r)
        then some (copied dest (take len (contents r)), drop len (contents r))
        else none)
unfolding read
read_lem {r} dest len v = elim (Bool-cases (leb len (get_use_size r))) [
  | inl held ↦
      rw (held, ← remove-contents len v (leb→le _ _ held)) (ground (arith, peek_lem dest len v))
  | inr short ↦ rw (short, read) (ground arith)
]

-- A successful read, its parts.
pub read-some :
    {r : RingBuffer} (dest : Bool) (len : ℕ)
    → IsValid r
    → len ≤ get_use_size r
    → read r dest len ≡ some (copied dest (take len (contents r)), remove r len)
unfolding read
read-some {r} dest len v le = ground (arith, peek_lem dest len v)
