-- ===== src/Handler/Reads.antt =====
-- Which packets make a handler read past the end of the payload (MMO/Server/Core/PacketHandler.cpp,
-- MMO/Server/Core/PacketHandler.h).
use mmorpg_server.Base.{
  ℕ, ◌+◌, ◌≡◌, refl, ◌∙◌, Bool, true, false, not, ◌&&◌, ◌||◌, Option, none, some, List, [], ◌∷◌,
  arith, ltb, ◌==◌, if◌then◌else◌, length, drop, length-take, length-drop, Option-cases, inl, inr,
}
use mmorpg_server.Protocol.{
  PacketHeader, c_login, s_login, c_move, c_attack, c_chat, id_number, struct_size,
}
use mmorpg_server.Platform.{Platform}
use mmorpg_server.Game.{Game}
use mmorpg_server.World.{has_player}
use mmorpg_server.Handler.{
  word_of, read_word, c_string, copy_bytes, handle_c_login, handle_c_move, handle_s_login,
  handle_c_attack, handle_c_chat, handle_packet, ◌>>=◌,
}

abbrev pub is_none {ℓ} : {A : Type ℓ} → Option A → Bool
is_none none = true
is_none (some a) = false

-- No zero byte ends the string.
abbrev pub unended : List ℕ → Bool
unended [] = true
unended (b ∷ bs) = not (b == 0) && unended bs

c_string_none : (bytes : List ℕ) → is_none (c_string bytes) ≡ unended bytes
unfolding c_string
c_string_none [] = refl
c_string_none (b ∷ bs) = ground (arith, c_string_none bs)

word_of_none : (bytes : List ℕ) → is_none (word_of bytes) ≡ ltb (length bytes) 4
unfolding word_of
word_of_none [] = refl
word_of_none (a ∷ []) = refl
word_of_none (a ∷ b ∷ []) = refl
word_of_none (a ∷ b ∷ c ∷ []) = refl
word_of_none (a ∷ b ∷ c ∷ d ∷ rest) = ground arith

read_word_none :
    (bytes : List ℕ) (offset : ℕ)
    → is_none (read_word bytes offset) ≡ ltb (length bytes) (offset + 4)
unfolding read_word
read_word_none bytes offset =
    word_of_none (drop offset bytes) ∙ ground (arith, length-drop offset bytes)

copy_bytes_none : (n : ℕ) (bytes : List ℕ) → is_none (copy_bytes n bytes) ≡ ltb (length bytes) n
unfolding copy_bytes
copy_bytes_none n bytes = ground arith

copied_length :
    (n : ℕ) (bytes packet : List ℕ) → copy_bytes n bytes ≡ some packet → length packet ≡ n
unfolding copy_bytes
copied_length n bytes packet e = ground (arith, length-take n bytes)

-- A chain of options fails at its first step or behind it.
bind_none {ℓ κ} :
    {A : Type ℓ} {B : Type κ} (o : Option A) (f : A → Option B) (b : Bool)
    → ((a : A) → o ≡ some a → is_none (f a) ≡ b)
    → is_none (o >>= f) ≡ (is_none o || b)
bind_none none f b h = refl
bind_none (some a) f b h = h a refl

module _ (P : Platform) where
  -- The payloads that are too short for the fields that the handler reads, or that hold a string with
  -- no end.
  abbrev pub reads_past : ℕ → ℕ → List ℕ → Game P → Bool
  reads_past a id bytes g =
      if id == id_number c_login
      then unended bytes || unended (drop 32 bytes)
      else if id == id_number s_login
      then ltb (length bytes) (struct_size s_login)
      else if id == id_number c_move || id == id_number c_attack
      then ltb (length bytes) 8
      else if id == id_number c_chat
      then has_player P g a && (unended bytes || ltb (length bytes) 128)
      else false

  handle_c_move_none :
      (a : ℕ) (bytes : List ℕ) (g : Game P)
      → is_none (handle_c_move P a bytes g) ≡ ltb (length bytes) 8
  unfolding handle_c_move
  handle_c_move_none a bytes g =
      bind_none (read_word bytes 0) _ (is_none (read_word bytes 4) || false)
        (λ x ex. bind_none (read_word bytes 4) _ false (λ y ey. refl))
      ∙ ground (arith, read_word_none bytes 0, read_word_none bytes 4)

  handle_c_attack_none :
      (a : ℕ) (bytes : List ℕ) (g : Game P)
      → is_none (handle_c_attack P a bytes g) ≡ ltb (length bytes) 8
  unfolding handle_c_attack
  handle_c_attack_none a bytes g =
      bind_none (read_word bytes 0) _ (is_none (read_word bytes 4) || false)
        (λ x ex. bind_none (read_word bytes 4) _ false (λ y ey. refl))
      ∙ ground (arith, read_word_none bytes 0, read_word_none bytes 4)

  handle_c_login_none :
      (now a : ℕ) (bytes : List ℕ) (g : Game P)
      → is_none (handle_c_login P now a bytes g) ≡ (unended bytes || unended (drop 32 bytes))
  unfolding handle_c_login
  handle_c_login_none now a bytes g =
      bind_none (c_string bytes) _ (is_none (c_string (drop 32 bytes)) || false)
        (λ x ex. bind_none (c_string (drop 32 bytes)) _ false (λ y ey. refl))
      ∙ ground (arith, c_string_none bytes, c_string_none (drop 32 bytes))

  handle_s_login_none :
      (now a : ℕ) (bytes : List ℕ) (g : Game P)
      → is_none (handle_s_login P now a bytes g) ≡ ltb (length bytes) (struct_size s_login)
  unfolding handle_s_login struct_size
  handle_s_login_none now a bytes g =
      bind_none (copy_bytes (struct_size s_login) bytes) _ false (λ packet copied.
        bind_none (read_word packet 41) _ false (λ y ey. refl)
        ∙ ground (
          arith,
          read_word_none packet 41,
          copied_length (struct_size s_login) bytes packet copied,
        ))
      ∙ ground (arith, copy_bytes_none (struct_size s_login) bytes)

  handle_c_chat_none :
      (a : ℕ) (bytes : List ℕ) (g : Game P)
      → is_none (handle_c_chat P a bytes g)
        ≡ (has_player P g a && (unended bytes || ltb (length bytes) 128))
  unfolding handle_c_chat
  handle_c_chat_none a bytes g = elim (Option-cases (P.get_player (g.heap a).ext)) [
    | inl e ↦ rw (e, is_none, has_player) refl
    | inr (player, e) ↦
        rw (e, is_none, has_player)
          (bind_none (c_string bytes) _ (is_none (copy_bytes 128 bytes) || false)
              (λ x ex. bind_none (copy_bytes 128 bytes) _ false (λ y ey. refl))
            ∙ ground (arith, c_string_none bytes, copy_bytes_none 128 bytes))
  ]

  -- Exactly the packets of `reads_past` make a handler read past the payload; on every other packet, of
  -- any id, HandlePacket produces a result. No size but the header's own is checked before.
  pub handle_packet_reads :
      (now rand_x rand_y a : ℕ) (header : PacketHeader) (bytes : List ℕ) (g : Game P)
      → is_none (handle_packet P now rand_x rand_y a header (some bytes) g)
        ≡ reads_past a header.id bytes g
  unfolding handle_packet id_number
  handle_packet_reads now rand_x rand_y a header bytes g = ground (
    arith,
    handle_c_login_none now a bytes g,
    handle_s_login_none now a bytes g,
    handle_c_move_none a bytes g,
    handle_c_attack_none a bytes g,
    handle_c_chat_none a bytes g,
  )
