-- ===== src/Handler/Frame.antt =====
-- What the attacks (MMO/Server/Core/PacketHandler.cpp) leave alone: positions, the grid and the map.
use mmorpg_server.Base.{ℕ, ◌≡◌, refl, ◌∙◌, true, List, [], ◌∷◌, arith, Option-cases, inl, inr}
use mmorpg_server.Base.Int.{ℤ, pos}
use mmorpg_server.Platform.{Platform}
use mmorpg_server.Game.{Game, Message, attack}
use mmorpg_server.World.{
  center, clamp, broadcast_packet_to_observers, broadcast_to_all, observers, others, find_session,
  map_values,
}
use mmorpg_server.World.Subscribed.{SameWorld, send_all-SameWorld}
use mmorpg_server.Player.{on_damaged, set_hp}
use mmorpg_server.Player.Life.{die_lem}
use mmorpg_server.Handler.{hit, melee, hit_each, in_radius, radial, player_id_of}

module _ (P : Platform) where
  open P use {Float}

  -- A coordinate on the map is not clamped.
  pub clamp_on_map :
      (v : Float)
      → P.le (P.of_int (pos 0)) v ≡ true
      → P.lt v (P.of_int (pos 1000)) ≡ true
      → clamp P v ≡ v
  unfolding clamp
  clamp_on_map v low high =
      ground (arith, P.le-not_lt (P.of_int (pos 0)) v low, P.lt-not_le v (P.of_int (pos 1000)) high)

  SameWorld-trans : (g h k : Game P) → SameWorld P g h → SameWorld P h k → SameWorld P g k
  SameWorld-trans g h k (a, b, c) (d, e, f) = (a ∙ d, b ∙ e, c ∙ f)

  pub broadcast-SameWorld :
      (a : ℕ) (m : Message Float) (g : Game P)
      → SameWorld P (broadcast_packet_to_observers P a m g) g
  unfolding broadcast_packet_to_observers
  broadcast-SameWorld a m g = send_all-SameWorld P (observers P a g) m g

  pub on_damaged-SameWorld :
      (player : ℕ) (damage : ℤ) (g : Game P) → SameWorld P (on_damaged P player damage g) g
  unfolding on_damaged
  on_damaged-SameWorld player damage g =
      ground (arith, die_lem P player (set_hp P player (pos 0) g))

  pub hit-SameWorld :
      (damage a attacker target : ℕ) (id : ℤ) (g : Game P)
      → SameWorld P (hit P damage a attacker target id g) g
  unfolding hit
  hit-SameWorld damage a attacker target id g =
      elim (Option-cases (P.get_player (g.heap target).ext)) [
        | inl missing ↦ rw (missing, hit) (refl, refl, refl)
        | inr (player, found) ↦
            let hurt = on_damaged P player (pos damage) g in
            rw (found, hit)
              (SameWorld-trans
                (broadcast_packet_to_observers P a (attack (player_id_of P attacker hurt) id) hurt)
                hurt g (broadcast-SameWorld a (attack (player_id_of P attacker hurt) id) hurt)
                (on_damaged-SameWorld player (pos damage) g))
      ]

  pub hit_each-SameWorld :
      (a attacker : ℕ) (bs : List ℕ) (g : Game P) → SameWorld P (hit_each P a attacker bs g) g
  unfolding hit_each
  hit_each-SameWorld a attacker [] g = (refl, refl, refl)
  hit_each-SameWorld a attacker (b ∷ bs) g =
      let next = hit P 20 a attacker b (g.heap b).player_id g in
      SameWorld-trans (hit_each P a attacker bs next) next g (hit_each-SameWorld a attacker bs next)
        (hit-SameWorld 20 a attacker b (g.heap b).player_id g)

  pub melee-SameWorld :
      (a attacker : ℕ) (id : ℤ) (g : Game P) → SameWorld P (melee P a attacker id g) g
  unfolding melee
  melee-SameWorld a attacker id g =
      ground (arith, hit-SameWorld 10 a attacker (find_session P id g) id g)

  pub radial-SameWorld : (a attacker : ℕ) (g : Game P) → SameWorld P (radial P a attacker g) g
  unfolding radial
  radial-SameWorld a attacker g =
      hit_each-SameWorld a attacker (in_radius P a g (others a (g.grids (center P g a)))) g

  pub broadcast_to_all-SameWorld :
      (m : Message Float) (g : Game P) → SameWorld P (broadcast_to_all P m g) g
  unfolding broadcast_to_all
  broadcast_to_all-SameWorld m g = send_all-SameWorld P (map_values P g.sessions) m g
