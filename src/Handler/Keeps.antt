-- ===== src/Handler/Keeps.antt =====
-- What the handlers (MMO/Server/Core/PacketHandler.cpp) do to the grid and to positions.
use mmorpg_server.Base.{
  ℕ, ◌≡◌, ◌≢◌, refl, Bool, true, false, Option, none, some, List, drop, arith, ◌==◌, ==_iff, subst,
  if◌then◌else◌, Bool-cases, Option-cases, ◌⊎◌, inl, inr,
}
use mmorpg_server.Base.Int.{ℤ, pos, eqb_ℤ}
use mmorpg_server.Platform.{Platform, lobby, game}
use mmorpg_server.Protocol.{
  PacketHeader, c_login, s_login, c_move, c_enter_game, c_attack, c_chat, c_logout, id_number,
}
use mmorpg_server.Game.{Game, chat, map_find}
use mmorpg_server.World.{broadcast_to_all}
use mmorpg_server.World.Subscribed.{
  IsSubscribed, in_game, SameWorld-IsSubscribed, enter_game-IsSubscribed, handle_move-IsSubscribed,
}
use mmorpg_server.Handler.{
  on_map, acting_player, handle_c_login, handle_c_move, handle_c_enter_game, handle_c_attack,
  handle_c_chat, handle_c_logout, handle_packet, melee, radial, touch, set_state, is_state,
  player_id_of, read_word, to_int32, copy_bytes, c_string, is_empty,
}
use mmorpg_server.Handler.Frame.{melee-SameWorld, radial-SameWorld, broadcast_to_all-SameWorld}

module _ (P : Platform) where
  open P use {Float}

  -- A session whose packet is not a login reply: it is in the game if it can act, and enters under an
  -- id that the map does not hold.
  pub record IsOrderly (a : ℕ) (g : Game P) : Type 0 where
    pub acts_in_game : acting_player P a g ≢ none → in_game P g a ≡ true
    pub enters_fresh :
        is_state (g.heap a).state lobby ≡ true → map_find (g.heap a).player_id g.sessions ≡ none

  acting-cases :
      (a : ℕ) (g : Game P)
      → (acting_player P a g ≡ none)
        ⊎ ((player : ℕ) × (acting_player P a g ≡ some player) × (acting_player P a g ≢ none))
  acting-cases a g = elim (Option-cases (acting_player P a g)) [
    | inl e ↦ inl e
    | inr (player, e) ↦ inr (player, e, λ n. cc)
  ]

  abbrev Keeps : Option (Game P) → Type 0
  Keeps none = Unit {0}
  Keeps (some g) = IsSubscribed P g

  handle_c_move-Keeps :
      (a : ℕ) (buffer : List ℕ) (g : Game P)
      → IsSubscribed P g
      → IsOrderly a g
      → Keeps (handle_c_move P a buffer g)
  unfolding handle_c_move
  handle_c_move-Keeps a buffer g inv o = elim (Option-cases (read_word buffer 0)) [
    | inl e ↦ rw (e, handle_c_move) tt
    | inr (x_bits, ex) ↦ elim (Option-cases (read_word buffer 4)) [
      | inl e ↦ rw (ex, e, handle_c_move) tt
      | inr (y_bits, ey) ↦ elim (acting-cases a g) [
        | inl still ↦ rw (ex, ey, still, handle_c_move) inv
        | inr (player, acts, can_act) ↦
            elim (Bool-cases (on_map P (P.of_bits x_bits) (P.of_bits y_bits))) [
              | inl inside ↦
                  rw (ex, ey, acts, inside, handle_c_move)
                    (handle_move-IsSubscribed P a (P.of_bits x_bits) (P.of_bits y_bits) g inv
                      (o.acts_in_game can_act))
              | inr outside ↦ rw (ex, ey, acts, outside, handle_c_move) inv
            ]
      ]
    ]
  ]

  handle_c_attack-Keeps :
      (a : ℕ) (buffer : List ℕ) (g : Game P)
      → IsSubscribed P g
      → Keeps (handle_c_attack P a buffer g)
  unfolding handle_c_attack
  handle_c_attack-Keeps a buffer g inv = elim (Option-cases (read_word buffer 0)) [
    | inl e ↦ rw (e, handle_c_attack) tt
    | inr (type_bits, et) ↦ elim (Option-cases (read_word buffer 4)) [
      | inl e ↦ rw (et, e, handle_c_attack) tt
      | inr (id_bits, ei) ↦ elim (acting-cases a g) [
        | inl still ↦ rw (et, ei, still, handle_c_attack) inv
        | inr (attacker, acts, can_act) ↦
            rw (et, ei, acts, handle_c_attack)
              (attacks-Keeps attacker (to_int32 type_bits) (to_int32 id_bits))
      ]
    ]
  ]
    where
      attacks-Keeps :
          (attacker : ℕ) (kind id : ℤ)
          → IsSubscribed P (
              if eqb_ℤ kind (pos 0)
              then melee P a attacker id g
              else if eqb_ℤ kind (pos 1)
              then radial P a attacker g
              else g)
      attacks-Keeps attacker kind id = elim (Bool-cases (eqb_ℤ kind (pos 0))) [
        | inl e ↦ rw e (
            SameWorld-IsSubscribed P (melee P a attacker id g) g (melee-SameWorld P a attacker id g)
              inv)
        | inr ne ↦ elim (Bool-cases (eqb_ℤ kind (pos 1))) [
          | inl e ↦
              rw (ne, e)
                (SameWorld-IsSubscribed P (radial P a attacker g) g
                  (radial-SameWorld P a attacker g) inv)
          | inr e ↦ rw (ne, e) inv
        ]
      ]

  touch-Keeps : (now a : ℕ) (g : Game P) → IsSubscribed P g → IsSubscribed P (touch P now a g)
  touch-Keeps now a g inv b q = ground (arith, inv b q)

  handle_c_login-Keeps :
      (now a : ℕ) (buffer : List ℕ) (g : Game P)
      → IsSubscribed P g
      → Keeps (handle_c_login P now a buffer g)
  unfolding handle_c_login
  handle_c_login-Keeps now a buffer g inv = elim (Option-cases (c_string buffer)) [
    | inl e ↦ rw (e, handle_c_login) tt
    | inr (user_id, ei) ↦ elim (Option-cases (c_string (drop 32 buffer))) [
      | inl e ↦ rw (ei, e, handle_c_login) tt
      | inr (user_pw, ep) ↦ elim (Bool-cases (is_empty user_id)) [
        | inl e ↦ rw (ei, ep, e, handle_c_login) inv
        | inr e ↦ rw (ei, ep, e, handle_c_login) (touch-Keeps now a g inv)
      ]
    ]
  ]

  handle_c_enter_game-Keeps :
      (now rand_x rand_y a : ℕ) (g : Game P)
      → IsSubscribed P g
      → IsOrderly a g
      → IsSubscribed P (handle_c_enter_game P now rand_x rand_y a g)
  unfolding handle_c_enter_game
  handle_c_enter_game-Keeps now rand_x rand_y a g inv o =
      elim (Bool-cases (is_state (g.heap a).state lobby)) [
        | inl waits ↦
            let ready = touch P now a (set_state P game a g) in
            rw (waits, handle_c_enter_game)
              (enter_game-IsSubscribed P a rand_x rand_y ready (λ b q. ground (arith, inv b q))
                (ground (arith, o.enters_fresh waits)))
        | inr busy ↦ rw (busy, handle_c_enter_game) inv
      ]

  handle_c_chat-Keeps :
      (a : ℕ) (buffer : List ℕ) (g : Game P) → IsSubscribed P g → Keeps (handle_c_chat P a buffer g)
  unfolding handle_c_chat
  handle_c_chat-Keeps a buffer g inv = elim (Option-cases (P.get_player (g.heap a).ext)) [
    | inl e ↦ rw (e, handle_c_chat) inv
    | inr (player, ep) ↦ elim (Option-cases (c_string buffer)) [
      | inl e ↦ rw (ep, e, handle_c_chat) tt
      | inr (printed, es) ↦ elim (Option-cases (copy_bytes 128 buffer)) [
        | inl e ↦ rw (ep, es, e, handle_c_chat) tt
        | inr (text, et) ↦
            let m = chat (player_id_of P player g) text in
            rw (ep, es, et, handle_c_chat)
              (SameWorld-IsSubscribed P (broadcast_to_all P m g) g
                (broadcast_to_all-SameWorld P m g) inv)
      ]
    ]
  ]

  handle_c_logout-Keeps :
      (a : ℕ) (g : Game P) → IsSubscribed P g → IsSubscribed P (handle_c_logout P a g)
  unfolding handle_c_logout
  handle_c_logout-Keeps a g inv = elim (Option-cases (P.get_player (g.heap a).ext)) [
    | inl e ↦ rw (e, handle_c_logout) inv
    | inr (player, ep) ↦ elim (Option-cases (g.heap a).socket) [
      | inl e ↦ rw (ep, e, handle_c_logout) inv
      | inr (socket, e) ↦ rw (ep, e, handle_c_logout) inv
    ]
  ]

  if-Keeps :
      (b : Bool) (x y : Option (Game P))
      → (b ≡ true → Keeps x)
      → Keeps y
      → Keeps (if b then x else y)
  if-Keeps true x y kx ky = kx refl
  if-Keeps false x y kx ky = ky

  handle_packet-Keeps :
      (now rand_x rand_y a : ℕ) (header : PacketHeader) (buffer : Option (List ℕ)) (g : Game P)
      → IsSubscribed P g
      → IsOrderly a g
      → header.id ≢ id_number s_login
      → Keeps (handle_packet P now rand_x rand_y a header buffer g)
  unfolding handle_packet
  handle_packet-Keeps now rand_x rand_y a header none g inv o ne =
      if-Keeps (header.id == id_number c_enter_game) _ _
        (λ e. handle_c_enter_game-Keeps now rand_x rand_y a g inv o) inv
  handle_packet-Keeps now rand_x rand_y a header (some buffer) g inv o ne =
      if-Keeps (header.id == id_number c_login) _ _ (λ e. handle_c_login-Keeps now a buffer g inv)
        (if-Keeps (header.id == id_number s_login) _ _
          (λ e. absurd (ne ((==_iff header.id (id_number s_login)).0 e)))
          (if-Keeps (header.id == id_number c_move) _ _ (λ e. handle_c_move-Keeps a buffer g inv o)
            (if-Keeps (header.id == id_number c_enter_game) _ _
              (λ e. handle_c_enter_game-Keeps now rand_x rand_y a g inv o)
              (if-Keeps (header.id == id_number c_attack) _ _
                (λ e. handle_c_attack-Keeps a buffer g inv)
                (if-Keeps (header.id == id_number c_chat) _ _
                  (λ e. handle_c_chat-Keeps a buffer g inv)
                  (if-Keeps (header.id == id_number c_logout) _ _
                    (λ e. handle_c_logout-Keeps a g inv) inv))))))

  -- No packet but a login reply breaks the subscription invariant, whatever its payload, if the session
  -- is orderly and the handler does not read past the payload.
  pub handle_packet-IsSubscribed :
      (now rand_x rand_y a : ℕ) (header : PacketHeader) (buffer : Option (List ℕ)) (g : Game P)
      → {g' : Game P} → IsSubscribed P g
      → IsOrderly a g
      → header.id ≢ id_number s_login
      → handle_packet P now rand_x rand_y a header buffer g ≡ some g'
      → IsSubscribed P g'
  handle_packet-IsSubscribed now rand_x rand_y a header buffer g {g'} inv o ne e =
      subst Keeps e (handle_packet-Keeps now rand_x rand_y a header buffer g inv o ne)
