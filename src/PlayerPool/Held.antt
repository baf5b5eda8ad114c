-- ===== src/PlayerPool/Held.antt =====
-- Who holds a player of the pool (MMO/Server/PlayerManager.h).
use mmorpg_server.Base.{
  ℕ, zero, suc, ◌+◌, ◌≤◌, ◌≡◌, refl, sym, ap, ◌∙◌, true, false, ◌&&◌, List, [], ◌∷◌, ◌==◌, leb, ltb,
  if◌then◌else◌, arith, Bool-cases, inl, inr, ==_refl,
}
use mmorpg_server.Base.Int.{pos}
use mmorpg_server.Player.{reset}
use mmorpg_server.PlayerPool.{
  PlayerManager, fill_pool, acquire_player_from, is_empty_pool, acquire_player, release_player,
}

abbrev pub occurs : ℕ → List ℕ → ℕ
occurs p [] = 0
occurs p (q ∷ qs) = (if q == p then 1 else 0) + occurs p qs

-- How often an address is in the pool and held, if each new one, from the first on, is once in either.
abbrev pub IsOnce : ℕ → List ℕ → PlayerManager → Type 0
IsOnce first held m =
    (p : ℕ)
    → occurs p m.player_pool + occurs p held ≡ (if leb first p && ltb p m.next then 1 else 0)

fill_pool-IsOnce :
    (count first : ℕ) (held : List ℕ) (m : PlayerManager)
    → first ≤ m.next
    → IsOnce first held m
    → IsOnce first held (fill_pool count m) × (first ≤ (fill_pool count m).next)
unfolding fill_pool
fill_pool-IsOnce zero first held m le once = (once, le)
fill_pool-IsOnce (suc count) first held m le once =
    fill_pool-IsOnce count first held _ (omega (arith, le)) (λ p. ground (arith, once p, le))

filled :
    (count : ℕ) (m : PlayerManager) → is_empty_pool (fill_pool (suc count) m).player_pool ≡ false
unfolding fill_pool
filled zero m = refl
filled (suc count) m = filled count _

-- What Acquire hands out.
record IsHandedOut (session first : ℕ) (held : List ℕ) (out : ℕ × PlayerManager) : Type 0 where
  once : IsOnce first (out.0 ∷ held) out.1
  unheld : occurs out.0 held ≡ 0
  known : (leb first out.0 && ltb out.0 out.1.next) ≡ true
  whole : out.1.players out.0 ≡ record { hp = pos 100; max_hp = pos 100; session = session }

taken-IsHandedOut :
    (pool : List ℕ) (session first : ℕ) (held : List ℕ) (m : PlayerManager)
    → m.player_pool ≡ pool
    → is_empty_pool pool ≡ false
    → IsOnce first held m
    → IsHandedOut session first held (acquire_player_from pool session m)
unfolding acquire_player_from reset
taken-IsHandedOut [] session first held m e full once = absurd (ground (arith, full))
taken-IsHandedOut (player ∷ pool) session first held m e full once =
    let counts : (p : ℕ)
        → occurs p (player ∷ pool) + occurs p held
          ≡ (if leb first p && ltb p m.next then 1 else 0) =
      λ p. ap (λ ps. occurs p ps + occurs p held) (sym e) ∙ once p in
    record {
      once = λ p. omega (arith, counts p);
      unheld = ground (arith, counts player, ==_refl player);
      known = ground (arith, counts player, ==_refl player);
      whole = rw (==_refl player) refl;
    }

-- Acquire, from a pool and holders between whom each player is once: it hands out a player that nobody
-- holds, for the session and with full hit points, making new ones when the pool is empty; and each
-- player, the new ones among them, is still in one place.
pub acquire_player_held :
    (session first : ℕ) (held : List ℕ) (m : PlayerManager)
    → first ≤ m.next
    → IsOnce first held m
    → let (player, m') = acquire_player session m in
      IsOnce first (player ∷ held) m'
      × (occurs player held ≡ 0)
      × (m'.players player ≡ record { hp = pos 100; max_hp = pos 100; session = session })
unfolding acquire_player
acquire_player_held session first held m le once = elim (Bool-cases (is_empty_pool m.player_pool)) [
  | inl none_left ↦
      let full : PlayerManager = fill_pool 10 m in
      let h =
        taken-IsHandedOut full.player_pool session first held full refl (filled 9 m)
          (fill_pool-IsOnce 10 first held m le once).0 in
      rw none_left (h.once, h.unheld, h.whole)
  | inr some_left ↦
      let h = taken-IsHandedOut m.player_pool session first held m refl some_left once in
      rw some_left (h.once, h.unheld, h.whole)
]

-- Release of a player that the caller holds.
pub release_player_held :
    (player first : ℕ) (held : List ℕ) (m : PlayerManager)
    → (player == 0) ≡ false
    → IsOnce first (player ∷ held) m
    → IsOnce first held (release_player player m)
unfolding release_player
release_player_held player first held m real once p = rw real (omega (arith, once p))
