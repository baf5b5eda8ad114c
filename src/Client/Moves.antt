-- ===== src/Client/Moves.antt =====
-- The moves that the client sends (the main loop of MMO/Client/Main.cpp), as the server's handler takes
-- them (Handle_C_MOVE of MMO/Server/Core/PacketHandler.cpp).
use mmorpg_server.Base.{
  ℕ, ◌*◌, ◌%◌, ◌≡◌, refl, ◌∙◌, true, false, none, some, List, [], ◌∷◌, ◌++◌, if◌then◌else◌,
  Bool-cases, Option-cases, inl, inr, drop,
}
use mmorpg_server.Base.Int.{ℤ, pos, sub_ℕ}
use mmorpg_server.Protocol.{header_size, header_bytes, to_header, id_number, struct_size}
use mmorpg_server.Grid.{map_size}
use mmorpg_server.Platform.{Platform}
use mmorpg_server.Game.{Game}
use mmorpg_server.World.{handle_move}
use mmorpg_server.Handler.{read_word, on_map, acting_player, handle_c_move}
use mmorpg_server.Login.{word_bytes}
use mmorpg_server.Client.{
  Client, Floats, send_bytes, clamp, stray, move_packet, move_step, move_range,
}
use mmorpg_server.Client.Orders.{read_word-word_bytes, second_word}

-- The order of the floats that are numbers: those that are at most themselves.
pub record FloatOrder (P : Platform) : Type 0 where
  pub total :
      (a b : P.Float) → P.le a a ≡ true → P.le b b ≡ true → P.lt a b ≡ false → P.le b a ≡ true
  pub le-lt : (a b c : P.Float) → P.le a b ≡ true → P.lt b c ≡ true → P.lt a c ≡ true
  pub int_number : (n : ℤ) → P.le (P.of_int n) (P.of_int n) ≡ true
  pub least : P.lt (P.of_int (pos 999)) (P.of_int (pos 0)) ≡ false
  pub below : P.lt (P.of_int (pos 999)) (P.of_int (pos map_size)) ≡ true
  pub zero_below : P.le (P.of_int (pos 0)) (P.of_int (pos 999)) ≡ true

module _ (P : Platform) (O : FloatOrder P) where
  abbrev zero_float : P.Float
  zero_float = P.of_int (pos 0)

  abbrev last_float : P.Float
  last_float = P.of_int (pos 999)

  abbrev InMap : P.Float → Type 0
  InMap x = (P.le zero_float x ≡ true) × (P.lt x (P.of_int (pos map_size)) ≡ true)

  low-InMap :
      (x : P.Float)
      → P.le x x ≡ true
      → P.le zero_float x ≡ true
      → InMap (if P.lt last_float x then last_float else x)
  low-InMap x number above = elim (Bool-cases (P.lt last_float x)) [
    | inl far ↦ rw far (O.zero_below, O.below)
    | inr near ↦ rw near (
      above,
      O.le-lt x last_float (P.of_int (pos map_size))
          (O.total last_float x (O.int_number (pos 999)) number near) O.below,
    )
  ]

  clamp-InMap : (x : P.Float) → P.le x x ≡ true → InMap (clamp P x)
  unfolding clamp
  clamp-InMap x number = elim (Bool-cases (P.lt x zero_float)) [
    | inl low ↦ rw low (low-InMap zero_float (O.int_number (pos 0)) (O.int_number (pos 0)))
    | inr high ↦
        rw high (low-InMap x number (O.total x zero_float number (O.int_number (pos 0)) high))
  ]

  on_map_of : (x y : P.Float) → InMap x → InMap y → on_map P x y ≡ true
  unfolding on_map
  on_map_of x y h k = rw (h.0, h.1, k.0, k.1) refl

  -- What the server does for a move that it does not refuse.
  abbrev pub moved_to : ℕ → P.Float → P.Float → Game P → Game P
  moved_to a x y g = elim (acting_player P a g) [ none ↦ g | some player ↦ handle_move P a x y g ]

  handle_c_move-on_map :
      (a : ℕ) (buffer : List ℕ) (x_bits y_bits : ℕ) (g : Game P)
      → read_word buffer 0 ≡ some x_bits
      → read_word buffer 4 ≡ some y_bits
      → on_map P (P.of_bits x_bits) (P.of_bits y_bits) ≡ true
      → handle_c_move P a buffer g ≡ some (moved_to a (P.of_bits x_bits) (P.of_bits y_bits) g)
  unfolding handle_c_move
  handle_c_move-on_map a buffer x_bits y_bits g e f on =
      rw (e, handle_c_move)
        (rw (f, handle_c_move)
          (elim (Option-cases (acting_player P a g)) [
            | inl idle ↦ rw (idle, moved_to) refl
            | inr (player, acting) ↦ rw (acting, on, moved_to) refl
          ]))

  module _ (F : Floats P) where
    -- The random step of a coordinate, before the tests against the map.
    abbrev pub astray : ℕ → P.Float → P.Float
    astray rand x = F.add x (P.of_int (sub_ℕ (rand % (move_range P * 2)) (move_range P)))

    move_packet_taken :
        (a : ℕ) (x y : P.Float) (g : Game P)
        → InMap x
        → InMap y
        → handle_c_move P a (drop header_size (move_packet P F x y)) g ≡ some (moved_to a x y g)
    unfolding move_packet header_bytes to_header id_number struct_size
    move_packet_taken a x y g h k =
        handle_c_move-on_map a (word_bytes (F.to_bits x) ++ word_bytes (F.to_bits y)) (F.to_bits x)
          (F.to_bits y) g
          (read_word-word_bytes P (F.to_bits x) (word_bytes (F.to_bits y))
            (F.to_bits_fit x h.0 h.1))
          (second_word P (F.to_bits x) (F.to_bits y) (F.to_bits_fit y k.0 k.1))
          (rw (F.of_bits-to_bits x h.0 h.1, F.of_bits-to_bits y k.0 k.1) (on_map_of x y h k))
        ∙ rw (F.of_bits-to_bits x h.0 h.1, F.of_bits-to_bits y k.0 k.1) refl

    -- A move round of the main loop, whatever rand() gives, when the sums are numbers: one packet is
    -- sent. The server takes it as a move to exactly the client's new place, which it never refuses as
    -- off the map.
    pub move_step_lem :
        (rand_x rand_y a : ℕ) (c : Client P) (g : Game P)
        → P.le (astray rand_x c.my_x) (astray rand_x c.my_x) ≡ true
        → P.le (astray rand_y c.my_y) (astray rand_y c.my_y) ≡ true
        → let moved = move_step P F rand_x rand_y c in
          (packet : List ℕ) × (moved.sent ≡ c.sent ++ (packet ∷ []))
          × (handle_c_move P a (drop header_size packet) g
              ≡ some (moved_to a moved.my_x moved.my_y g))
    unfolding move_step stray send_bytes
    move_step_lem rand_x rand_y a c g number_x number_y =
        let x : P.Float = clamp P (astray rand_x c.my_x) in
        let y : P.Float = clamp P (astray rand_y c.my_y) in
        (
          move_packet P F x y,
          refl,
          move_packet_taken a x y g (clamp-InMap _ number_x) (clamp-InMap _ number_y),
        )
