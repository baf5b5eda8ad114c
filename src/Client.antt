-- ===== src/Client.antt =====
-- The test client (MMO/Client/Main.cpp): its thread that receives, and what its other threads send.
pub mod Append
pub mod Parse
pub mod Nearby
pub mod Orders
pub mod Moves
pub mod Console
pub mod Play
pub mod Sent
pub mod Fair
pub mod Stream
use mmorpg_server.Base.{
  ℕ, zero, suc, ◌+◌, ◌-◌, ◌*◌, ◌%◌, ◌^◌, ◌<◌, ◌≡◌, Bool, true, false, not, ◌&&◌, ◌||◌, Option, none,
  some, List, [], ◌∷◌, ◌++◌, ◌==◌, ltb, if◌then◌else◌, length, take, drop, get_or, replicate,
}
use mmorpg_server.Base.Int.{ℤ, pos, sub_ℕ}
use mmorpg_server.Protocol.{
  PacketHeader, PacketId, c_login, s_login, c_move, s_move, c_enter_game, s_spawn, s_despawn, s_die,
  s_respawn, c_attack, s_attack, c_chat, s_chat, c_logout, header_size, id_number, to_header,
  header_bytes, read_header,
}
use mmorpg_server.Grid.{map_size}
use mmorpg_server.Platform.{Platform}
use mmorpg_server.Handler.{read_word, c_string, ◌>>=◌}
use mmorpg_server.Login.{word_bytes, copy_truncated}

-- Addition of floats, and the bits of one, which give it back; the map's coordinates are enough here.
pub record Floats (P : Platform) : Type 0 where
  pub add : P.Float → P.Float → P.Float
  pub to_bits : P.Float → ℕ
  pub to_bits_fit :
      (x : P.Float)
      → P.le (P.of_int (pos 0)) x ≡ true
      → P.lt x (P.of_int (pos map_size)) ≡ true
      → to_bits x < 2 ^ 32
  pub of_bits-to_bits :
      (x : P.Float)
      → P.le (P.of_int (pos 0)) x ≡ true
      → P.lt x (P.of_int (pos map_size)) ≡ true
      → P.of_bits (to_bits x) ≡ x

-- The globals of the client, player ids by their bits, and what it has sent.
pub record Client (P : Platform) : Type 0 where
  pub my_player_id : ℕ
  pub nearby_players : List ℕ
  pub my_x : P.Float
  pub my_y : P.Float
  pub sent : List (List ℕ)

-- `std::find` in nearbyPlayers.
unfoldable pub has_id : ℕ → List ℕ → Bool
has_id id [] = false
has_id id (n ∷ ns) = id == n || has_id id ns

-- `res->success`, the byte behind the header.
unfoldable pub success_byte : List ℕ → Option Bool
success_byte buffer = elim (drop header_size buffer) [ [] ↦ none | b ∷ bs ↦ some (not (b == 0)) ]

-- What the loop over the received bytes comes to: it waits for more, it has read past the bytes at
-- hand, or the model's fuel ran out.
pub data Parsed (P : Platform) : Type 0 where
  waits : List ℕ → Client P → Parsed P
  reads_past : Parsed P
  out_of_fuel : Parsed P

module _ (P : Platform) where
  unfoldable pub send_bytes : List ℕ → Client P → Client P
  send_bytes bytes c = record c { sent = c.sent ++ (bytes ∷ []) }

  unfoldable pub log_in : Bool → List ℕ → Client P → Option (Client P)
  unfolding send_bytes to_header header_bytes
  log_in false buffer c = some c
  log_in true buffer c = do
    id ← read_word buffer 41
    some (send_bytes (header_bytes (to_header c_enter_game)) (record c { my_player_id = id }))

  -- A login reply; a successful one is answered by C_ENTER_GAME.
  unfoldable pub on_login : List ℕ → Client P → Option (Client P)
  unfolding success_byte log_in
  on_login buffer c = do success ← success_byte buffer; log_in success buffer c

  -- The client's own place.
  unfoldable pub place_self : List ℕ → Client P → Option (Client P)
  place_self buffer c = do
    x_bits ← read_word buffer 8
    y_bits ← read_word buffer 12
    some (record c { my_x = P.of_bits x_bits; my_y = P.of_bits y_bits })

  -- A player nearby, who is put into the list once.
  unfoldable pub add_nearby : ℕ → Client P → Client P
  unfolding has_id
  add_nearby id c =
      if has_id id c.nearby_players
      then c
      else record c { nearby_players = c.nearby_players ++ (id ∷ []) }

  -- A spawn or a respawn.
  unfoldable pub on_spawn : List ℕ → Client P → Option (Client P)
  unfolding place_self add_nearby
  on_spawn buffer c = do
    id ← read_word buffer 4
    if id == c.my_player_id then place_self buffer c else some (add_nearby id c)

  -- A death or a chat is printed: it reads the player id, and of a chat the text.
  unfoldable pub on_die : List ℕ → Client P → Option (Client P)
  on_die buffer c = do id ← read_word buffer 4; some c

  unfoldable pub on_chat : List ℕ → Client P → Option (Client P)
  on_chat buffer c = do id ← read_word buffer 4; text ← c_string (drop 8 buffer); some c

  -- The packet at the start of the buffer; `none` where the code reads past the bytes at hand.
  unfoldable pub on_packet : List ℕ → Client P → Option (Client P)
  unfolding id_number read_header on_login on_spawn on_die on_chat
  on_packet buffer c =
      let id = (read_header buffer).id in
      if id == id_number s_login
      then on_login buffer c
      else if id == id_number s_die
      then on_die buffer c
      else if id == id_number s_spawn
      then on_spawn buffer c
      else if id == id_number s_respawn
      then on_spawn buffer c
      else if id == id_number s_chat
      then on_chat buffer c
      else some c

  abbrev pub go_on : (Client P → Parsed P) → Option (Client P) → Parsed P
  go_on rest none = reads_past
  go_on rest (some c) = rest c

  -- The inner loop of ReceiveThread, on fuel.
  unfoldable pub parse_packets : ℕ → List ℕ → Client P → Parsed P
  unfolding read_header on_packet
  parse_packets zero buffer c = out_of_fuel
  parse_packets (suc fuel) buffer c =
      let size = (read_header buffer).size in
      let next = go_on (parse_packets fuel (drop size buffer)) (on_packet buffer c) in
      if ltb (length buffer) header_size
      then waits buffer c
      else if ltb (length buffer) size
      then waits buffer c
      else next

  abbrev pub go_on_waiting : (List ℕ → Client P → Parsed P) → Parsed P → Parsed P
  go_on_waiting rest (waits buffer c) = rest buffer c
  go_on_waiting rest reads_past = reads_past
  go_on_waiting rest out_of_fuel = out_of_fuel

  -- ReceiveThread, on what each recv returns until the connection ends, beside the bytes left over.
  unfoldable pub receive_thread : List (List ℕ) → List ℕ → Client P → Parsed P
  unfolding parse_packets
  receive_thread [] buffer c = waits buffer c
  receive_thread (chunk ∷ chunks) buffer c =
      let bytes = buffer ++ chunk in
      go_on_waiting (receive_thread chunks) (parse_packets (suc (length bytes)) bytes c)

  -- The login packet: the fields are zeros before the copies.
  unfoldable pub login_packet : List ℕ → List ℕ → List ℕ
  unfolding copy_truncated to_header header_bytes
  login_packet user_id user_pw =
      header_bytes (to_header c_login)
      ++ (copy_truncated 32 user_id (replicate 32 0) ++ copy_truncated 32 user_pw (replicate 32 0))

  -- InputThread, on a line that was typed; `stack` is what the array held.
  unfoldable pub chat_packet : List ℕ → List ℕ → List ℕ
  unfolding copy_truncated to_header header_bytes
  chat_packet stack line = header_bytes (to_header c_chat) ++ copy_truncated 128 line stack

  unfoldable pub input_line : List ℕ → List ℕ → Client P → Client P
  unfolding chat_packet send_bytes
  input_line stack line c = if length line == 0 then c else send_bytes (chat_packet stack line) c

  unfoldable pub logout_packet : List ℕ
  unfolding to_header header_bytes
  logout_packet = header_bytes (to_header c_logout)

  unfoldable pub attack_packet : ℕ → ℕ → List ℕ
  unfolding to_header header_bytes
  attack_packet attack_type target_id =
      header_bytes (to_header c_attack) ++ (word_bytes attack_type ++ word_bytes target_id)

  -- The attack of one round of the main loop; `rand_*` are the values of rand().
  unfoldable pub attack_step : ℕ → ℕ → ℕ → Client P → Client P
  unfolding attack_packet send_bytes
  attack_step rand_chance rand_type rand_target c =
      let attack_type = rand_type % 2 in
      let count = length c.nearby_players in
      if not (rand_chance % 5 == 0)
      then c
      else if attack_type == 0
      then if count == 0
        then c
        else send_bytes (attack_packet 0 (get_or c.nearby_players (rand_target % count) 0)) c
      else send_bytes (attack_packet attack_type 0) c

  abbrev pub move_range : ℕ
  move_range = 30

  -- The two tests of a coordinate against the map.
  unfoldable pub clamp : P.Float → P.Float
  clamp x =
      let low = if P.lt x (P.of_int (pos 0)) then P.of_int (pos 0) else x in
      if P.lt (P.of_int (pos 999)) low then P.of_int (pos 999) else low

  module _ (F : Floats P) where
    unfoldable pub move_packet : P.Float → P.Float → List ℕ
    unfolding to_header header_bytes
    move_packet x y =
        header_bytes (to_header c_move) ++ (word_bytes (F.to_bits x) ++ word_bytes (F.to_bits y))

    -- A coordinate's random step.
    unfoldable pub stray : ℕ → P.Float → P.Float
    unfolding clamp
    stray rand x = clamp (F.add x (P.of_int (sub_ℕ (rand % (move_range * 2)) move_range)))

    -- The move of one round of the main loop.
    unfoldable pub move_step : ℕ → ℕ → Client P → Client P
    unfolding stray move_packet send_bytes
    move_step rand_x rand_y c =
        let moved = record c { my_x = stray rand_x c.my_x; my_y = stray rand_y c.my_y } in
        send_bytes (move_packet moved.my_x moved.my_y) moved
