-- ===== src/Player/Life.antt =====
-- Hit points (MMO/Server/Game/Player.h, Player.cpp).
use mmorpg_server.Base.{ℕ, ◌≡◌, refl, true, false, ◌++◌, arith, ==_refl}
use mmorpg_server.Base.Int.{pos, ◌-ℤ◌, ◌≤ℤ◌, leb_ℤ, -ℤ_parts}
use mmorpg_server.TimeWheel.{add_timer}
use mmorpg_server.Platform.{Platform}
use mmorpg_server.Game.{Game, Player, die as die_message}
use mmorpg_server.Game.Sent.{outgoing, after_sending, send_all_lem}
use mmorpg_server.World.{observers}
use mmorpg_server.Player.{respawn_delay, set_hp, die, on_damaged}

module _ (P : Platform) where
  -- No player has fewer than 0 or more than its full hit points.
  pub record IsHealthy (p : Player) : Type 0 where
    pub low : pos 0 ≤ℤ p.hp
    pub high : p.hp ≤ℤ p.max_hp

  abbrev pub AllHealthy : Game P → Type 0
  AllHealthy g = (player : ℕ) → IsHealthy (g.players player)

  -- A death told to the observers, with the timer that brings the player back.
  abbrev pub after_death : ℕ → Game P → Game P
  after_death player g =
      let session = (g.players player).session in
      let dead = set_hp P player (pos 0) g in
      record (after_sending P dead
        (outgoing P (observers P session g) (die_message (g.heap session).player_id))) {
          wheel =
              add_timer g.wheel respawn_delay
                (record { session = session; expected_id = (g.heap session).player_id });
        }

  -- Die sets the hit points to 0, tells exactly the observers, and adds one timer of five seconds.
  pub die_lem : (player : ℕ) (g : Game P) → die P player g ≡ after_death player g
  unfolding die observers
  die_lem player g = rw send_all_lem

  die-AllHealthy : (player : ℕ) (g : Game P) → AllHealthy g → AllHealthy (die P player g)
  die-AllHealthy player g v q = let a = v player in let b = v q in rw die_lem (ground arith)

  -- Damage keeps the hit points of every player within bounds.
  pub on_damaged-AllHealthy :
      (player damage : ℕ) (g : Game P)
      → AllHealthy g
      → AllHealthy (on_damaged P player (pos damage) g)
  unfolding on_damaged
  on_damaged-AllHealthy player damage g v q =
      let hp = (g.players player).hp in
      let dead =
        die-AllHealthy player (set_hp P player (pos 0) g)
          (λ r. let a = v player in let b = v r in ground arith) in
      let a = v player in let b = v q in ground (arith, dead q, -ℤ_parts hp (pos damage))

  dead_stays :
      (player more : ℕ) (g : Game P)
      → (g.players player).hp ≡ pos 0
      → on_damaged P player (pos more) g ≡ g
  unfolding on_damaged
  dead_stays player more g e = rw (e, on_damaged) refl

  -- Damage of a live player beyond its hit points: they become 0, exactly the observers of its session
  -- are told, and one timer is set, for its session under its present id, five seconds on.
  pub on_damaged_lethal :
      (player damage : ℕ) (g : Game P)
      → leb_ℤ (g.players player).hp (pos 0) ≡ false
      → (g.players player).hp ≤ℤ pos damage
      → let session = (g.players player).session in
        let id = (g.heap session).player_id in
        let g' = on_damaged P player (pos damage) g in
        ((g'.players player).hp ≡ pos 0)
        × (g'.sent ≡ g.sent ++ outgoing P (observers P session g) (die_message id))
        × (g'.wheel
            ≡ add_timer g.wheel respawn_delay (record { session = session; expected_id = id }))
  unfolding on_damaged observers
  on_damaged_lethal player damage g alive enough =
      let hp = (g.players player).hp in
      let lethal : leb_ℤ (hp -ℤ pos damage) (pos 0) ≡ true =
        ground (arith, -ℤ_parts hp (pos damage)) in
      rw (alive, on_damaged)
        (rw (lethal, on_damaged)
          (rw (die_lem player (set_hp P player (pos 0) g), ==_refl player) (refl, refl, refl)))

  -- A dead player takes no damage, so it dies once until it comes back.
  pub on_damaged_once :
      (player damage more : ℕ) (g : Game P)
      → leb_ℤ (g.players player).hp (pos 0) ≡ false
      → (g.players player).hp ≤ℤ pos damage
      → on_damaged P player (pos more) (on_damaged P player (pos damage) g)
        ≡ on_damaged P player (pos damage) g
  on_damaged_once player damage more g alive enough =
      dead_stays player more (on_damaged P player (pos damage) g)
        (on_damaged_lethal player damage g alive enough).0
