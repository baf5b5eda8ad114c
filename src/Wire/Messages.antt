-- ===== src/Wire/Messages.antt =====
-- The server's messages as packets (MMO/Server/Game/World.cpp, Player.cpp,
-- MMO/Server/Core/PacketHandler.cpp), and what each of them means to a client.
use mmorpg_server.Base.{
  ℕ, ◌^◌, ◌<◌, ◌≡◌, refl, sym, ap, ◌∙◌, Bool, none, some, List, [], ◌∷◌, ◌++◌, arith, ◌==◌,
  if◌then◌else◌, length, append-nil,
}
use mmorpg_server.Base.Int.{ℤ, pos, negsuc}
use mmorpg_server.Protocol.{
  s_login, s_move, c_enter_game, s_spawn, s_despawn, s_die, s_respawn, s_attack, s_chat, id_number,
  struct_size, to_header, header_bytes, read_header, PacketId,
}
use mmorpg_server.Platform.{Platform}
use mmorpg_server.Game.{Message, spawn, despawn, move, die, respawn, attack, chat, login}
use mmorpg_server.Handler.{word_of, read_word, c_string, login_succeeded}
use mmorpg_server.Login.{LoginReply, reply_bytes, word_bytes}
use mmorpg_server.Login.Reply.{IsLaidOut, length-reply_bytes}
use mmorpg_server.Client.{Client, Floats, add_nearby, send_bytes}
use mmorpg_server.Client.Parse.{IsWhole}
use mmorpg_server.Wire.{
  Value, word, bytes, server_struct, int_bits, packet_bytes, place_values, spawn_bytes,
  despawn_bytes, move_bytes, die_bytes, respawn_bytes, attack_bytes, chat_bytes, message_bytes,
}
use mmorpg_server.Wire.Layout.{HasLayout, packet_bytes-header, length-packet_bytes}

pub int_bits_fit : (n : ℤ) → int_bits n < 2 ^ 32
unfolding int_bits
int_bits_fit (pos n) = omega arith
int_bits_fit (negsuc n) = omega arith

pub word_back : (n : ℕ) (rest : List ℕ) → n < 2 ^ 32 → word_of (word_bytes n ++ rest) ≡ some n
unfolding word_of
word_back n rest lt = ap some (omega (arith, lt))

module _ (P : Platform) (F : Floats P) where
  -- A float that its 32 bits give back.
  abbrev pub IsCoordinate : P.Float → Type 0
  IsCoordinate x = (F.to_bits x < 2 ^ 32) × (P.of_bits (F.to_bits x) ≡ x)

  -- A message that the structures can hold: a chat ends in its array, and a login reply is a structure.
  abbrev pub Fits : Message P.Float → Type 0
  Fits (spawn id x y) = IsCoordinate x × IsCoordinate y
  Fits (despawn id) = Unit
  Fits (move id x y) = IsCoordinate x × IsCoordinate y
  Fits (die id) = Unit
  Fits (respawn id x y) = IsCoordinate x × IsCoordinate y
  Fits (attack attacker target) = Unit
  Fits (chat id text) = (length text ≡ 128) × ((shown : List ℕ) × (c_string text ≡ some shown))
  Fits (login packet) = (r : LoginReply) × IsLaidOut r × (packet ≡ reply_bytes r)

  abbrev pub AllFit : List (Message P.Float) → Type 0
  AllFit [] = Unit
  AllFit (m ∷ ms) = Fits m × AllFit ms

  -- A player is seen at a place: the client itself moves there, another one is noted.
  abbrev pub seen : ℤ → P.Float → P.Float → Client P → Client P
  seen id x y c =
      if int_bits id == c.my_player_id
      then record c { my_x = x; my_y = y }
      else add_nearby P (int_bits id) c

  -- A login reply: the id is taken, and the game entered.
  abbrev pub logged_in : Bool → ℕ → Client P → Client P
  logged_in success id c =
      if success
      then send_bytes P (header_bytes (to_header c_enter_game)) (record c { my_player_id = id })
      else c

  -- What a message means to a client.
  abbrev pub effect : Message P.Float → Client P → Client P
  effect (spawn id x y) c = seen id x y c
  effect (respawn id x y) c = seen id x y c
  effect (login packet) c = elim (read_word packet 41) [
    | none ↦ c
    | some id ↦ logged_in (login_succeeded packet) id c
  ]
  effect _ c = c

  abbrev pub effects : List (Message P.Float) → Client P → Client P
  effects [] c = c
  effects (m ∷ ms) c = effects ms (effect m c)

  place_values-HasLayout :
      (p : PacketId) (id : ℤ) (x y : P.Float)
      → server_struct p ≡ server_struct s_spawn
      → IsCoordinate x
      → IsCoordinate y
      → HasLayout (server_struct p) (place_values P F id x y)
  unfolding server_struct place_values
  place_values-HasLayout p id x y e h k = rw e (int_bits_fit id, (h.0, (k.0, tt)))

  packet-IsWhole :
      (p : PacketId) (vs : List Value)
      → HasLayout (server_struct p) vs
      → IsWhole (packet_bytes p vs)
  unfolding to_header packet_bytes header_bytes
  packet-IsWhole p vs h =
      let head : read_header (packet_bytes p vs) ≡ to_header p =
        ap read_header (sym (append-nil (packet_bytes p vs))) ∙ packet_bytes-header p vs [] in
      (omega arith, ap (λ k. k.size) head ∙ sym (length-packet_bytes p vs h))

  reply-IsWhole : (r : LoginReply) → IsLaidOut r → IsWhole (reply_bytes r)
  unfolding reply_bytes header_bytes to_header read_header struct_size id_number
  reply-IsWhole r laid = (omega arith, sym (length-reply_bytes r laid))

  pub reply_id : (r : LoginReply) → (read_header (reply_bytes r)).id ≡ id_number s_login
  unfolding reply_bytes header_bytes to_header read_header struct_size id_number
  reply_id r = refl

  pub message-IsWhole : (m : Message P.Float) → Fits m → IsWhole (message_bytes P F m)
  unfolding message_bytes spawn_bytes despawn_bytes move_bytes die_bytes respawn_bytes attack_bytes
      chat_bytes server_struct
  message-IsWhole (spawn id x y) (h, k) =
      packet-IsWhole s_spawn (place_values P F id x y)
        (place_values-HasLayout s_spawn id x y refl h k)
  message-IsWhole (despawn id) h =
      packet-IsWhole s_despawn (word (int_bits id) ∷ []) (int_bits_fit id, tt)
  message-IsWhole (move id x y) (h, k) =
      packet-IsWhole s_move (place_values P F id x y)
        (place_values-HasLayout s_move id x y refl h k)
  message-IsWhole (die id) h = packet-IsWhole s_die (word (int_bits id) ∷ []) (int_bits_fit id, tt)
  message-IsWhole (respawn id x y) (h, k) =
      packet-IsWhole s_respawn (place_values P F id x y)
        (place_values-HasLayout s_respawn id x y refl h k)
  message-IsWhole (attack attacker target) h =
      packet-IsWhole s_attack (word (int_bits attacker) ∷ word (int_bits target) ∷ [])
        (int_bits_fit attacker, (int_bits_fit target, tt))
  message-IsWhole (chat id text) (sized, shown) =
      packet-IsWhole s_chat (word (int_bits id) ∷ bytes text ∷ []) (int_bits_fit id, (sized, tt))
  message-IsWhole (login packet) (r, laid, e) = rw e (reply-IsWhole r laid)
