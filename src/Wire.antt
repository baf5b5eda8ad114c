-- ===== src/Wire.antt =====
-- The packed structures on the wire: their members on either side (MMO/Server/Core/Protocol.h and
-- MMO/Client/Protocol.h), and the bytes that World, Player and PacketHandler fill them with.
pub mod Layout
pub mod Messages
pub mod Effects
use mmorpg_server.Base.{
  ℕ, zero, suc, ◌+◌, ◌-◌, ◌%◌, ◌^◌, ◌<◌, ◌≡◌, true, false, Option, none, some, List, [], ◌∷◌, ◌++◌,
  length, drop,
}
use mmorpg_server.Base.Int.{ℤ, pos, negsuc}
use mmorpg_server.Protocol.{
  PacketId, c_login, s_login, c_move, s_move, c_enter_game, s_spawn, s_despawn, s_die, s_respawn,
  c_attack, s_attack, c_chat, s_chat, c_logout, to_header, header_bytes,
}
use mmorpg_server.Platform.{Platform}
use mmorpg_server.Game.{Message, spawn, despawn, move, die, respawn, attack, chat, login}
use mmorpg_server.Handler.{word_of, copy_bytes, ◌>>=◌}
use mmorpg_server.Login.{word_bytes}
use mmorpg_server.Client.{Floats}

-- The types of the members; `chars n` is `char[n]`.
pub data FieldType : Type 0 where
  boolean int32 float32 : FieldType
  chars : ℕ → FieldType

-- The members behind the header, as the server declares them.
unfoldable pub server_struct : PacketId → List FieldType
server_struct c_login = chars 32 ∷ chars 32 ∷ []
server_struct s_login = boolean ∷ int32 ∷ chars 32 ∷ int32 ∷ []
server_struct c_move = float32 ∷ float32 ∷ []
server_struct s_move = int32 ∷ float32 ∷ float32 ∷ []
server_struct c_enter_game = []
server_struct s_spawn = int32 ∷ float32 ∷ float32 ∷ []
server_struct s_despawn = int32 ∷ []
server_struct s_die = int32 ∷ []
server_struct s_respawn = int32 ∷ float32 ∷ float32 ∷ []
server_struct c_attack = int32 ∷ int32 ∷ []
server_struct s_attack = int32 ∷ int32 ∷ []
server_struct c_chat = chars 128 ∷ []
server_struct s_chat = int32 ∷ chars 128 ∷ []
server_struct c_logout = []

-- The same in the client's copy of the file.
unfoldable pub client_struct : PacketId → List FieldType
client_struct c_login = chars 32 ∷ chars 32 ∷ []
client_struct s_login = boolean ∷ int32 ∷ chars 32 ∷ int32 ∷ []
client_struct c_move = float32 ∷ float32 ∷ []
client_struct s_move = int32 ∷ float32 ∷ float32 ∷ []
client_struct c_enter_game = []
client_struct s_spawn = int32 ∷ float32 ∷ float32 ∷ []
client_struct s_despawn = int32 ∷ []
client_struct s_die = int32 ∷ []
client_struct s_respawn = int32 ∷ float32 ∷ float32 ∷ []
client_struct c_attack = int32 ∷ int32 ∷ []
client_struct s_attack = int32 ∷ int32 ∷ []
client_struct c_chat = chars 128 ∷ []
client_struct s_chat = int32 ∷ chars 128 ∷ []
client_struct c_logout = []

-- The ids of the client's copy.
unfoldable pub client_id_number : PacketId → ℕ
client_id_number c_login = 1
client_id_number s_login = 2
client_id_number c_move = 3
client_id_number s_move = 4
client_id_number c_enter_game = 5
client_id_number s_spawn = 6
client_id_number s_despawn = 7
client_id_number s_die = 8
client_id_number s_respawn = 9
client_id_number c_attack = 10
client_id_number s_attack = 11
client_id_number c_chat = 12
client_id_number s_chat = 13
client_id_number c_logout = 14

-- A member's value: a `bool` by its byte, an `int32_t` or a `float` by its bits, an array by its bytes.
pub data Value : Type 0 where
  byte word : ℕ → Value
  bytes : List ℕ → Value

unfoldable pub value_bytes : Value → List ℕ
value_bytes (byte b) = b ∷ []
value_bytes (word n) = word_bytes n
value_bytes (bytes bs) = bs

-- `#pragma pack(push, 1)`: the members one behind another.
unfoldable pub encode : List Value → List ℕ
unfolding value_bytes
encode [] = []
encode (v ∷ vs) = value_bytes v ++ encode vs

abbrev pub field_size : FieldType → ℕ
field_size boolean = 1
field_size int32 = 4
field_size float32 = 4
field_size (chars n) = n

abbrev pub fields_size : List FieldType → ℕ
fields_size [] = 0
fields_size (f ∷ fs) = field_size f + fields_size fs

-- A member, read at the start of the bytes; `none` if they end before it does.
unfoldable pub read_field : FieldType → List ℕ → Option Value
read_field boolean [] = none
read_field boolean (b ∷ bs) = some (byte b)
read_field int32 bs = do n ← word_of bs; some (word n)
read_field float32 bs = do n ← word_of bs; some (word n)
read_field (chars n) bs = do text ← copy_bytes n bs; some (bytes text)

unfoldable pub decode : List FieldType → List ℕ → Option (List Value)
unfolding read_field
decode [] bs = some []
decode (f ∷ fs) bs = do v ← read_field f bs; vs ← decode fs (drop (field_size f) bs); some (v ∷ vs)

-- `int32_t`, by its bits.
unfoldable pub int_bits : ℤ → ℕ
int_bits (pos n) = n % 2 ^ 32
int_bits (negsuc n) = 2 ^ 32 - 1 - n % 2 ^ 32

-- A packet: the header of its structure, and the members.
unfoldable pub packet_bytes : PacketId → List Value → List ℕ
unfolding encode header_bytes to_header
packet_bytes p vs = header_bytes (to_header p) ++ encode vs

module _ (P : Platform) (F : Floats P) where
  -- S_SPAWN, S_RESPAWN and S_MOVE have the same members.
  unfoldable pub place_values : ℤ → P.Float → P.Float → List Value
  unfolding int_bits
  place_values id x y = word (int_bits id) ∷ word (F.to_bits x) ∷ word (F.to_bits y) ∷ []

  unfoldable pub spawn_bytes : ℤ → P.Float → P.Float → List ℕ
  unfolding place_values packet_bytes
  spawn_bytes id x y = packet_bytes s_spawn (place_values id x y)

  unfoldable pub despawn_bytes : ℤ → List ℕ
  unfolding int_bits packet_bytes
  despawn_bytes id = packet_bytes s_despawn (word (int_bits id) ∷ [])

  unfoldable pub move_bytes : ℤ → P.Float → P.Float → List ℕ
  unfolding place_values packet_bytes
  move_bytes id x y = packet_bytes s_move (place_values id x y)

  unfoldable pub die_bytes : ℤ → List ℕ
  unfolding int_bits packet_bytes
  die_bytes id = packet_bytes s_die (word (int_bits id) ∷ [])

  unfoldable pub respawn_bytes : ℤ → P.Float → P.Float → List ℕ
  unfolding place_values packet_bytes
  respawn_bytes id x y = packet_bytes s_respawn (place_values id x y)

  unfoldable pub attack_bytes : ℤ → ℤ → List ℕ
  unfolding int_bits packet_bytes
  attack_bytes attacker target =
      packet_bytes s_attack (word (int_bits attacker) ∷ word (int_bits target) ∷ [])

  unfoldable pub chat_bytes : ℤ → List ℕ → List ℕ
  unfolding int_bits packet_bytes
  chat_bytes id text = packet_bytes s_chat (word (int_bits id) ∷ bytes text ∷ [])

  -- What Session::Send is given for a message.
  unfoldable pub message_bytes : Message P.Float → List ℕ
  unfolding spawn_bytes despawn_bytes move_bytes die_bytes respawn_bytes attack_bytes chat_bytes
  message_bytes (spawn id x y) = spawn_bytes id x y
  message_bytes (despawn id) = despawn_bytes id
  message_bytes (move id x y) = move_bytes id x y
  message_bytes (die id) = die_bytes id
  message_bytes (respawn id x y) = respawn_bytes id x y
  message_bytes (attack attacker target) = attack_bytes attacker target
  message_bytes (chat id text) = chat_bytes id text
  message_bytes (login packet) = packet
