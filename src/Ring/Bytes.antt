-- ===== src/Ring/Bytes.antt =====
-- The bytes of a window that goes round the end of the array, and what the two-part copies of
-- `Write` and `Peek` (MMO/Server/Network/Source/RingBuffer.cpp) do to it.
use native.Mathlib.Nat.{
  mod-add-mod, mod-eq_of_lt, mod-eq-sub-mod, zero-add, add-zero, suc-add, mod_self,
}
use mmorpg_server.Base.{
  ℕ, zero, suc, ◌+◌, ◌-◌, ◌%◌, ◌≤◌, ◌<◌, ◌≡◌, refl, sym, ap, ap₂, ◌∙◌, ◌≢◌, List, [], ◌∷◌, ◌++◌,
  arith, dec_lt, length, get_or, set, take, drop, length-set, append-nil, append_assoc,
}
use mmorpg_server.Ring.{copy_to, copy_from}

pub get_or-set_self : (xs : List ℕ) (i v : ℕ) → i < length xs → get_or (set xs i v) i 0 ≡ v
get_or-set_self [] i v h = absurd (omega arith)
get_or-set_self (x ∷ xs) zero v h = refl
get_or-set_self (x ∷ xs) (suc i) v h = get_or-set_self xs i v (omega arith)

pub get_or-set_ne : (xs : List ℕ) (i j v : ℕ) → i ≢ j → get_or (set xs i v) j 0 ≡ get_or xs j 0
get_or-set_ne [] i j v h = refl
get_or-set_ne (x ∷ xs) zero zero v h = absurd (h refl)
get_or-set_ne (x ∷ xs) zero (suc j) v h = refl
get_or-set_ne (x ∷ xs) (suc i) zero v h = refl
get_or-set_ne (x ∷ xs) (suc i) (suc j) v h = get_or-set_ne xs i j v (λ e. h (ap suc e))

pub length-copy_to : (buf : List ℕ) (i : ℕ) (xs : List ℕ) → length (copy_to buf i xs) ≡ length buf
unfolding copy_to
length-copy_to buf i [] = refl
length-copy_to buf i (x ∷ xs) = length-copy_to (set buf i x) (i + 1) xs ∙ length-set buf i x

drop-step : (buf : List ℕ) (i : ℕ) → i < length buf → drop i buf ≡ get_or buf i 0 ∷ drop (suc i) buf
drop-step [] i h = absurd (omega arith)
drop-step (x ∷ xs) zero h = refl
drop-step (x ∷ xs) (suc i) h = drop-step xs i (omega arith)

-- The `n` bytes from index `h` on, going round at `size`.
abbrev pub window : List ℕ → ℕ → ℕ → ℕ → List ℕ
window buf size h zero = []
window buf size h (suc n) = get_or buf h 0 ∷ window buf size ((h + 1) % size) n

-- Byte by byte, going round at `size`.
abbrev pub put_round : List ℕ → ℕ → ℕ → List ℕ → List ℕ
put_round buf size i [] = buf
put_round buf size i (x ∷ xs) = put_round (set buf i x) size ((i + 1) % size) xs

pub length-window : (buf : List ℕ) (size h n : ℕ) → length (window buf size h n) ≡ n
length-window buf size h zero = refl
length-window buf size h (suc n) = ap suc (length-window buf size ((h + 1) % size) n)

mod-step : (size h n : ℕ) → ((h + 1) % size + n) % size ≡ (h + suc n) % size
mod-step size h n = mod-add-mod (h + 1) size n ∙ ap (λ k. k % size) (omega arith)

mod-inside : (size h : ℕ) → h + 1 < size → (h + 1) % size ≡ h + 1
mod-inside size h lt = mod-eq_of_lt lt

mod-wrap : (size h : ℕ) → h + 1 ≡ size → (h + 1) % size ≡ 0
mod-wrap size h e = rw e (mod_self size)

pub window-split :
    (buf : List ℕ) (size h a b : ℕ)
    → h < size
    → window buf size h (a + b) ≡ window buf size h a ++ window buf size ((h + a) % size) b
window-split buf size h zero b lt = rw (zero-add b, add-zero h, mod-eq_of_lt lt)
window-split buf size h (suc a) b lt = rw (suc-add a b) (
    ap (◌∷◌ (get_or buf h 0)) (
      window-split buf size ((h + 1) % size) a b (omega arith)
      ∙ ap (λ k. window buf size ((h + 1) % size) a ++ window buf size k b) (mod-step size h a)))

-- Short of the end of the array the next index is the successor, if it is used at all.
window-next :
    (buf : List ℕ) (size h n : ℕ)
    → h + suc n ≤ size
    → window buf size ((h + 1) % size) n ≡ window buf size (suc h) n
window-next buf size h zero le = refl
window-next buf size h (suc n) le =
    ap (λ k. window buf size k (suc n)) (omega (arith, mod-inside size h (omega arith)))

-- As long as nothing goes round, a window is a plain copy.
pub copy_from-window :
    (buf : List ℕ) (size h n : ℕ)
    → h + n ≤ size
    → size ≤ length buf
    → copy_from buf h n ≡ window buf size h n
copy_from-window buf size h zero le len = refl
copy_from-window buf size h (suc n) le len =
    ap (take (suc n)) (drop-step buf h (omega arith))
    ∙ ap (◌∷◌ (get_or buf h 0))
        (copy_from-window buf size (suc h) n (omega arith) len ∙ sym (window-next buf size h n le))

put_round-next :
    (buf : List ℕ) (size i : ℕ) (xs : List ℕ)
    → i + suc (length xs) ≤ size
    → put_round buf size ((i + 1) % size) xs ≡ put_round buf size (i + 1) xs
put_round-next buf size i [] le = refl
put_round-next buf size i (x ∷ xs) le =
    ap (λ k. put_round buf size k (x ∷ xs)) (mod-inside size i (omega arith))

pub put_round-copy_to :
    (buf : List ℕ) (size i : ℕ) (xs : List ℕ)
    → i + length xs ≤ size
    → put_round buf size i xs ≡ copy_to buf i xs
unfolding copy_to
put_round-copy_to buf size i [] le = refl
put_round-copy_to buf size i (x ∷ xs) le =
    put_round-next (set buf i x) size i xs le
    ∙ put_round-copy_to (set buf i x) size (i + 1) xs (omega arith)

-- The two copies of `Write` put the bytes round the end of the array.
pub copies-put_round :
    (buf : List ℕ) (size i k : ℕ) (xs : List ℕ)
    → k ≡ size - i
    → i < size
    → length xs ≤ size
    → copy_to (copy_to buf i (take k xs)) 0 (drop k xs) ≡ put_round buf size i xs
unfolding copy_to
copies-put_round buf size i zero xs e lt le = absurd (omega arith)
copies-put_round buf size i (suc k) [] e lt le = refl
copies-put_round buf size i (suc zero) (x ∷ xs) e lt le =
    sym (put_round-copy_to (set buf i x) size 0 xs (omega arith))
    ∙ ap (λ j. put_round (set buf i x) size j xs) (sym (mod-wrap size i (omega arith)))
copies-put_round buf size i (suc (suc k)) (x ∷ xs) e lt le =
    copies-put_round (set buf i x) size (i + 1) (suc k) xs (omega arith) (omega arith) (omega arith)
    ∙ ap (λ j. put_round (set buf i x) size j xs) (sym (mod-inside size i (omega arith)))

-- Fewer than `size` steps round the array do not come back to the start.
pub round-ne : (size h k : ℕ) → h < size → suc k < size → (h + suc k) % size ≢ h
round-ne size h k lt less = elim (dec_lt (h + suc k) size) [
  | yes inside ↦ omega (arith, mod-eq_of_lt inside)
  | no outside ↦ omega (
    arith,
    mod-eq-sub-mod {n = h + suc k} {m = size} (omega arith),
    mod-eq_of_lt {n = h + suc k - size} {m = size} (omega arith),
  )
]

-- A write at the slot behind a window does not touch the window.
window-set_behind :
    (buf : List ℕ) (size x h n i : ℕ)
    → h < size
    → n < size
    → i ≡ (h + n) % size
    → window (set buf i x) size h n ≡ window buf size h n
window-set_behind buf size x h zero i lt less e = refl
window-set_behind buf size x h (suc n) i lt less e =
    ap₂ ◌∷◌ (get_or-set_ne buf i h x (rw e (round-ne size h n lt less))) (
      window-set_behind buf size x ((h + 1) % size) n i (omega arith) (omega arith)
        (e ∙ sym (mod-step size h n)))

-- Bytes put behind a window come behind it, in order.
pub window-put_round :
    (xs : List ℕ) (buf : List ℕ) (size h n : ℕ)
    → size ≤ length buf
    → h < size
    → n + length xs < size
    → window (put_round buf size ((h + n) % size) xs) size h (n + length xs)
      ≡ window buf size h n ++ xs
window-put_round [] buf size h n len lt less = rw (add-zero n, append-nil (window buf size h n))
window-put_round (x ∷ xs) buf size h n len lt less =
    ap₂ (λ k m. window (put_round buf' size k xs) size h m) next (omega arith)
    ∙ window-put_round xs buf' size h (n + 1) (rw (length-set buf i x) len) lt (omega arith)
    ∙ ap (λ ys. ys ++ xs) one
    ∙ append_assoc (window buf size h n) (x ∷ []) xs
  where
    i : ℕ
    i = (h + n) % size

    buf' : List ℕ
    buf' = set buf i x

    next : (i + 1) % size ≡ (h + (n + 1)) % size
    next = mod-add-mod (h + n) size 1 ∙ ap (λ k. k % size) (omega arith)

    one : window buf' size h (n + 1) ≡ window buf size h n ++ (x ∷ [])
    one =
        window-split buf' size h n 1 lt
        ∙ ap₂ (λ ys y. ys ++ (y ∷ [])) (window-set_behind buf size x h n i lt (omega arith) refl)
            (get_or-set_self buf i x (omega arith))
