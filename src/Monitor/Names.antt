-- ===== src/Monitor/Names.antt =====
-- The name of the log file (FindAvailableFilename of MMO/Server/Observability/ServerMonitor.h).
use mmorpg_server.Base.{
  ℕ, zero, suc, ◌+◌, ◌≤◌, ◌<◌, ◌≡◌, ◌⊎◌, refl, Bool, true, false, arith, if◌then◌else◌, Bool-cases,
  ℕ_discrete, subst, sym, inl, inr,
}
use mmorpg_server.Monitor.{
  FileName, plain, overflow, numbered, find_numbered, find_available_filename,
}

-- The first number, at least `first`, whose file does not exist, or the name for the overflow.
pub data IsFirstFree (exists : FileName → Bool) (first last : ℕ) : FileName → Type 0 where
  free :
      (i : ℕ)
      → first ≤ i
      → i < last
      → exists (numbered i) ≡ false
      → ((j : ℕ) → first ≤ j → j < i → exists (numbered j) ≡ true)
      → IsFirstFree exists first last (numbered i)
  all_exist :
      ((j : ℕ) → first ≤ j → j < last → exists (numbered j) ≡ true)
      → IsFirstFree exists first last overflow

taken_from :
    (exists : FileName → Bool) {first : ℕ}
    → exists (numbered first) ≡ true
    → (j : ℕ) → first ≤ j
    → (first + 1 ≤ j → exists (numbered j) ≡ true)
    → exists (numbered j) ≡ true
taken_from exists {first} e j low h = elim (ℕ_discrete first j) [
  | yes same ↦ subst (λ n. exists (numbered n) ≡ true) same e
  | no other ↦ h (omega (arith, low, other))
]

from_next :
    {exists : FileName → Bool} {first last : ℕ} {name : FileName}
    → exists (numbered first) ≡ true
    → IsFirstFree exists (first + 1) last name
    → IsFirstFree exists first last name
from_next {exists} {first} {last} {name} e (free i lo hi absent before) =
    free i (omega (arith, lo)) hi absent
      (λ j low high. taken_from exists e j low (λ over. before j over high))
from_next {exists} {first} {last} {name} e (all_exist every) =
    all_exist (λ j low high. taken_from exists e j low (λ over. every j over high))

find_numbered_lem :
    (exists : FileName → Bool) (first tries : ℕ)
    → IsFirstFree exists first (first + tries) (find_numbered exists first tries)
unfolding find_numbered
find_numbered_lem exists first zero = all_exist (λ j low high. absurd (omega (arith, low, high)))
find_numbered_lem exists first (suc tries) = elim (Bool-cases (exists (numbered first))) [
  | inl taken ↦
      let rest = find_numbered exists (first + 1) tries in
      let next : IsFirstFree exists (first + 1) (first + suc tries) rest =
        subst (λ last. IsFirstFree exists (first + 1) last rest) (omega arith)
          (find_numbered_lem exists (first + 1) tries) in
      subst (λ b. IsFirstFree exists first (first + suc tries) (if b then rest else numbered first))
        (sym taken) (from_next taken next)
  | inr absent ↦ rw absent (
      free first (omega arith) (omega arith) absent
        (λ j low high. absurd (omega (arith, low, high))))
]

-- Which name an answer of the first test leads to.
chosen :
    (exists : FileName → Bool) (name : FileName) (b : Bool)
    → exists plain ≡ b
    → IsFirstFree exists 1 10000 name
    → let found = if b then name else plain in
      ((exists plain ≡ false) × (found ≡ plain))
      ⊎ ((exists plain ≡ true) × IsFirstFree exists 1 10000 found)
chosen exists name true e h = inr (e, h)
chosen exists name false e h = inl (e, refl)

-- The name that is found: the plain one if no file has it; or else the first number from 1 to 9999 that
-- no file has; or, only if all of these exist, the name for the overflow, of which it is not asked
-- whether it exists.
pub find_available_filename_lem :
    (exists : FileName → Bool)
    → ((exists plain ≡ false) × (find_available_filename exists ≡ plain))
      ⊎ ((exists plain ≡ true) × IsFirstFree exists 1 10000 (find_available_filename exists))
unfolding find_available_filename
find_available_filename_lem exists =
    chosen exists (find_numbered exists 1 9999) (exists plain) refl
      (find_numbered_lem exists 1 9999)
