-- ===== src/Wire/Layout.antt =====
-- The structures of MMO/Server/Core/Protocol.h and MMO/Client/Protocol.h, one against the other.
use mmorpg_server.Base.{
  ℕ, ◌+◌, ◌^◌, ◌<◌, ◌≡◌, refl, sym, ap, ◌∙◌, true, false, some, List, [], ◌∷◌, ◌++◌, arith, length,
  drop, ltb, length-append, append_assoc, drop-append_of_length, take-append_of_length,
}
use mmorpg_server.Protocol.{
  PacketId, c_login, s_login, c_move, s_move, c_enter_game, s_spawn, s_despawn, s_die, s_respawn,
  c_attack, s_attack, c_chat, s_chat, c_logout, id_number, struct_size, read_header, header_size,
  to_header, header_bytes, read_header,
}
use mmorpg_server.Framing.RoundTrip.{header_bytes_lem, length-header_bytes}
use mmorpg_server.Handler.{word_of, copy_bytes}
use mmorpg_server.Login.{word_bytes}
use mmorpg_server.Wire.{
  FieldType, boolean, int32, float32, chars, server_struct, client_struct, client_id_number, Value,
  byte, word, bytes, value_bytes, encode, field_size, fields_size, read_field, decode, packet_bytes,
}

-- The values that a member of a type can have.
abbrev pub HasType : FieldType → Value → Type 0
HasType boolean (byte b) = b < 256
HasType int32 (word n) = n < 2 ^ 32
HasType float32 (word n) = n < 2 ^ 32
HasType (chars n) (bytes bs) = length bs ≡ n
HasType _ _ = true ≡ false

abbrev pub HasLayout : List FieldType → List Value → Type 0
HasLayout [] [] = Unit
HasLayout (f ∷ fs) (v ∷ vs) = HasType f v × HasLayout fs vs
HasLayout _ _ = true ≡ false

length-value_bytes :
    (f : FieldType) (v : Value) → HasType f v → length (value_bytes v) ≡ field_size f
unfolding value_bytes
length-value_bytes boolean (byte b) h = refl
length-value_bytes boolean (word n) h = absurd (ground (arith, h))
length-value_bytes boolean (bytes bs) h = absurd (ground (arith, h))
length-value_bytes int32 (byte b) h = absurd (ground (arith, h))
length-value_bytes int32 (word n) h = refl
length-value_bytes int32 (bytes bs) h = absurd (ground (arith, h))
length-value_bytes float32 (byte b) h = absurd (ground (arith, h))
length-value_bytes float32 (word n) h = refl
length-value_bytes float32 (bytes bs) h = absurd (ground (arith, h))
length-value_bytes (chars n) (byte b) h = absurd (ground (arith, h))
length-value_bytes (chars n) (word m) h = absurd (ground (arith, h))
length-value_bytes (chars n) (bytes bs) h = h

word_of-append : (n : ℕ) (rest : List ℕ) → n < 2 ^ 32 → word_of (word_bytes n ++ rest) ≡ some n
unfolding word_of
word_of-append n rest lt = ap some (omega (arith, lt))

copy_bytes-append : (n : ℕ) (bs rest : List ℕ) → length bs ≡ n → copy_bytes n (bs ++ rest) ≡ some bs
unfolding copy_bytes
copy_bytes-append n bs rest e =
    let enough : ltb (length (bs ++ rest)) n ≡ false = ground (arith, e, length-append bs rest) in
    rw (enough, take-append_of_length n bs rest e) refl

read_field-value_bytes :
    (f : FieldType) (v : Value) (rest : List ℕ)
    → HasType f v
    → read_field f (value_bytes v ++ rest) ≡ some v
unfolding read_field value_bytes
read_field-value_bytes boolean (byte b) rest h = refl
read_field-value_bytes boolean (word n) rest h = absurd (ground (arith, h))
read_field-value_bytes boolean (bytes bs) rest h = absurd (ground (arith, h))
read_field-value_bytes int32 (byte b) rest h = absurd (ground (arith, h))
read_field-value_bytes int32 (word n) rest h = rw (word_of-append n rest h) refl
read_field-value_bytes int32 (bytes bs) rest h = absurd (ground (arith, h))
read_field-value_bytes float32 (byte b) rest h = absurd (ground (arith, h))
read_field-value_bytes float32 (word n) rest h = rw (word_of-append n rest h) refl
read_field-value_bytes float32 (bytes bs) rest h = absurd (ground (arith, h))
read_field-value_bytes (chars n) (byte b) rest h = absurd (ground (arith, h))
read_field-value_bytes (chars n) (word m) rest h = absurd (ground (arith, h))
read_field-value_bytes (chars n) (bytes bs) rest h = rw (copy_bytes-append n bs rest h) refl

-- What is laid out by a list of members is read back by the same list.
pub decode-encode :
    (fs : List FieldType) (vs : List Value) (rest : List ℕ)
    → HasLayout fs vs
    → decode fs (encode vs ++ rest) ≡ some vs
unfolding decode encode
decode-encode [] [] rest h = refl
decode-encode [] (v ∷ vs) rest h = absurd (ground (arith, h))
decode-encode (f ∷ fs) [] rest h = absurd (ground (arith, h))
decode-encode (f ∷ fs) (v ∷ vs) rest (here, h) =
    rw
      (
        append_assoc (value_bytes v) (encode vs) rest,
        read_field-value_bytes f v (encode vs ++ rest) here,
        drop-append_of_length (field_size f) (value_bytes v) (encode vs ++ rest)
            (length-value_bytes f v here),
        decode-encode fs vs rest h,
      )
      refl

pub length-encode :
    (fs : List FieldType) (vs : List Value) → HasLayout fs vs → length (encode vs) ≡ fields_size fs
unfolding encode
length-encode [] [] h = refl
length-encode [] (v ∷ vs) h = absurd (ground (arith, h))
length-encode (f ∷ fs) [] h = absurd (ground (arith, h))
length-encode (f ∷ fs) (v ∷ vs) (here, h) = omega (
  arith,
  length-append (value_bytes v) (encode vs),
  length-value_bytes f v here,
  length-encode fs vs h,
)

same_struct : (p : PacketId) → client_struct p ≡ server_struct p
unfolding client_struct server_struct
same_struct c_login = refl
same_struct s_login = refl
same_struct c_move = refl
same_struct s_move = refl
same_struct c_enter_game = refl
same_struct s_spawn = refl
same_struct s_despawn = refl
same_struct s_die = refl
same_struct s_respawn = refl
same_struct c_attack = refl
same_struct s_attack = refl
same_struct c_chat = refl
same_struct s_chat = refl
same_struct c_logout = refl

same_id : (p : PacketId) → client_id_number p ≡ id_number p
unfolding client_id_number id_number
same_id c_login = refl
same_id s_login = refl
same_id c_move = refl
same_id s_move = refl
same_id c_enter_game = refl
same_id s_spawn = refl
same_id s_despawn = refl
same_id s_die = refl
same_id s_respawn = refl
same_id c_attack = refl
same_id s_attack = refl
same_id c_chat = refl
same_id s_chat = refl
same_id c_logout = refl

pub struct_size-server :
    (p : PacketId) → struct_size p ≡ header_size + fields_size (server_struct p)
unfolding struct_size server_struct
struct_size-server c_login = refl
struct_size-server s_login = refl
struct_size-server c_move = refl
struct_size-server s_move = refl
struct_size-server c_enter_game = refl
struct_size-server s_spawn = refl
struct_size-server s_despawn = refl
struct_size-server s_die = refl
struct_size-server s_respawn = refl
struct_size-server c_attack = refl
struct_size-server s_attack = refl
struct_size-server c_chat = refl
struct_size-server s_chat = refl
struct_size-server c_logout = refl

pub struct_small : (p : PacketId) → (struct_size p < 256) × (id_number p < 256)
unfolding struct_size id_number
struct_small c_login = (omega arith, omega arith)
struct_small s_login = (omega arith, omega arith)
struct_small c_move = (omega arith, omega arith)
struct_small s_move = (omega arith, omega arith)
struct_small c_enter_game = (omega arith, omega arith)
struct_small s_spawn = (omega arith, omega arith)
struct_small s_despawn = (omega arith, omega arith)
struct_small s_die = (omega arith, omega arith)
struct_small s_respawn = (omega arith, omega arith)
struct_small c_attack = (omega arith, omega arith)
struct_small s_attack = (omega arith, omega arith)
struct_small c_chat = (omega arith, omega arith)
struct_small s_chat = (omega arith, omega arith)
struct_small c_logout = (omega arith, omega arith)

pub packet_bytes-header :
    (p : PacketId) (vs : List Value) (rest : List ℕ)
    → read_header (packet_bytes p vs ++ rest) ≡ to_header p
unfolding packet_bytes to_header
packet_bytes-header p vs rest =
    let (size, id) = struct_small p in
    ap read_header (append_assoc (header_bytes (to_header p)) (encode vs) rest)
    ∙ header_bytes_lem (to_header p) (omega (arith, size)) (omega (arith, id)) (encode vs ++ rest)

pub length-packet_bytes :
    (p : PacketId) (vs : List Value)
    → HasLayout (server_struct p) vs
    → length (packet_bytes p vs) ≡ struct_size p
unfolding packet_bytes
length-packet_bytes p vs h = omega (
  arith,
  length-append (header_bytes (to_header p)) (encode vs),
  length-header_bytes (to_header p),
  length-encode (server_struct p) vs h,
  struct_size-server p,
)

-- Any packet, of either side, laid out by the server's file, whatever bytes follow: its header names its
-- length and the id by which the client's file knows it, and the client's structure reads back every
-- member. The two files are one protocol.
pub client_struct_reads :
    (p : PacketId) (vs : List Value) (rest : List ℕ)
    → HasLayout (server_struct p) vs
    → let stream = packet_bytes p vs ++ rest in
      ((read_header stream).size ≡ length (packet_bytes p vs))
      × ((read_header stream).id ≡ client_id_number p)
      × (decode (client_struct p) (drop header_size stream) ≡ some vs)
unfolding packet_bytes to_header
client_struct_reads p vs rest h =
    let head = packet_bytes-header p vs rest in
    let behind = append_assoc (header_bytes (to_header p)) (encode vs) rest in
    (
      ap (λ k. k.size) head ∙ sym (length-packet_bytes p vs h),
      ap (λ k. k.id) head ∙ sym (same_id p),
      ap (λ fs. decode fs (drop header_size (packet_bytes p vs ++ rest))) (same_struct p)
          ∙ ap (λ bs. decode (server_struct p) (drop header_size bs)) behind
          ∙ ap (decode (server_struct p)) (
              drop-append_of_length header_size (header_bytes (to_header p)) (encode vs ++ rest)
                (length-header_bytes (to_header p)))
          ∙ decode-encode (server_struct p) vs rest h,
    )
