-- ===== src/Protocol.antt =====
-- MMO/Server/Core/Protocol.h (and its copy MMO/Client/Protocol.h): the packet ids, the header and the
-- sizes of the packed structures. Numbers are little-endian, as on the program's platform.
use mmorpg_server.Base.{ℕ, ◌+◌, ◌*◌, ◌/◌, ◌%◌, List, [], ◌∷◌}

pub record PacketHeader : Type 0 where
  pub size : ℕ
  pub id : ℕ

abbrev pub header_size : ℕ
header_size = 4

-- enum PacketID.
pub data PacketId : Type 0 where
  c_login s_login c_move s_move c_enter_game s_spawn s_despawn s_die s_respawn : PacketId
  c_attack s_attack c_chat s_chat c_logout : PacketId

unfoldable pub id_number : PacketId → ℕ
id_number c_login = 1
id_number s_login = 2
id_number c_move = 3
id_number s_move = 4
id_number c_enter_game = 5
id_number s_spawn = 6
id_number s_despawn = 7
id_number s_die = 8
id_number s_respawn = 9
id_number c_attack = 10
id_number s_attack = 11
id_number c_chat = 12
id_number s_chat = 13
id_number c_logout = 14

-- sizeof of the structure of each packet, its header included; a `bool` takes one byte, an `int` and
-- a `float` four. C_ENTER_GAME is a header alone.
unfoldable pub struct_size : PacketId → ℕ
struct_size c_login = header_size + 32 + 32
struct_size s_login = header_size + 1 + 4 + 32 + 4
struct_size c_move = header_size + 4 + 4
struct_size s_move = header_size + 4 + 4 + 4
struct_size c_enter_game = header_size
struct_size s_spawn = header_size + 4 + 4 + 4
struct_size s_despawn = header_size + 4
struct_size s_die = header_size + 4
struct_size s_respawn = header_size + 4 + 4 + 4
struct_size c_attack = header_size + 4 + 4
struct_size s_attack = header_size + 4 + 4
struct_size c_chat = header_size + 128
struct_size s_chat = header_size + 4 + 128
struct_size c_logout = header_size

unfoldable pub to_header : PacketId → PacketHeader
unfolding id_number struct_size
to_header p = record { size = struct_size p; id = id_number p }

-- The four bytes of a header, read as the structure. Fewer bytes stand for no header.
unfoldable pub read_header : List ℕ → PacketHeader
read_header (a ∷ b ∷ c ∷ d ∷ bytes) = record { size = a + 256 * b; id = c + 256 * d }
read_header _ = record { size = 0; id = 0 }

unfoldable pub header_bytes : PacketHeader → List ℕ
header_bytes h = h.size % 256 ∷ h.size / 256 % 256 ∷ h.id % 256 ∷ h.id / 256 % 256 ∷ []
