-- ===== src/Wire/Effects.antt =====
-- What the server's messages (MMO/Server/Game/World.cpp, Player.cpp, MMO/Server/Core/PacketHandler.cpp)
-- come to at the client (ReceiveThread of MMO/Client/Main.cpp).
use mmorpg_server.Base.{
  ℕ, ◌^◌, ◌<◌, ◌≡◌, refl, sym, ap, ◌∙◌, Bool, true, false, Option, some, List, [], ◌∷◌, ◌==◌,
  Bool-cases, inl, inr, map, append-nil,
}
use mmorpg_server.Base.Int.{ℤ}
use mmorpg_server.Protocol.{
  c_login, s_login, c_move, s_move, c_enter_game, s_spawn, s_despawn, s_die, s_respawn, c_attack,
  s_attack, c_chat, s_chat, c_logout, id_number, to_header, header_bytes, read_header, PacketId,
}
use mmorpg_server.Platform.{Platform}
use mmorpg_server.Game.{Message, spawn, despawn, move, die, respawn, attack, chat, login}
use mmorpg_server.Handler.{read_word, c_string, login_succeeded}
use mmorpg_server.Login.{LoginReply, reply_bytes}
use mmorpg_server.Login.Reply.{IsLaidOut, id_of-reply_bytes}
use mmorpg_server.Client.{
  Client, Floats, waits, success_byte, log_in, on_login, place_self, on_spawn, on_die, on_chat,
  on_packet, receive_thread,
}
use mmorpg_server.Client.Parse.{AllWhole, join, run_packets, receive_thread-packets}
use mmorpg_server.Wire.{
  Value, word, bytes, encode, value_bytes, int_bits, packet_bytes, place_values, spawn_bytes,
  despawn_bytes, move_bytes, die_bytes, respawn_bytes, attack_bytes, chat_bytes, message_bytes,
}
use mmorpg_server.Wire.Layout.{packet_bytes-header}
use mmorpg_server.Wire.Messages.{
  int_bits_fit, word_back, Fits, AllFit, seen, logged_in, effect, effects, IsCoordinate,
  message-IsWhole, reply_id,
}

module _ (P : Platform) (F : Floats P) where
  -- The words of a place are read back.
  first_word :
      (p : PacketId) (n : ℕ) (vs : List Value)
      → n < 2 ^ 32
      → read_word (packet_bytes p (word n ∷ vs)) 4 ≡ some n
  unfolding packet_bytes header_bytes encode value_bytes read_word
  first_word p n vs lt = word_back n (encode vs) lt

  second_word :
      (p : PacketId) (m n : ℕ) (vs : List Value)
      → n < 2 ^ 32
      → read_word (packet_bytes p (word m ∷ word n ∷ vs)) 8 ≡ some n
  unfolding packet_bytes header_bytes encode value_bytes read_word
  second_word p m n vs lt = word_back n (encode vs) lt

  third_word :
      (p : PacketId) (l m n : ℕ) (vs : List Value)
      → n < 2 ^ 32
      → read_word (packet_bytes p (word l ∷ word m ∷ word n ∷ vs)) 12 ≡ some n
  unfolding packet_bytes header_bytes encode value_bytes read_word
  third_word p l m n vs lt = word_back n (encode vs) lt

  place_self-place :
      (p : PacketId) (id : ℤ) (x y : P.Float) (c : Client P)
      → IsCoordinate P F x
      → IsCoordinate P F y
      → place_self P (packet_bytes p (place_values P F id x y)) c
        ≡ some (record c { my_x = x; my_y = y })
  unfolding place_self place_values
  place_self-place p id x y c (xf, xe) (yf, ye) =
      rw (second_word p (int_bits id) (F.to_bits x) (word (F.to_bits y) ∷ []) xf, place_self)
        (rw (third_word p (int_bits id) (F.to_bits x) (F.to_bits y) [] yf, place_self)
          (rw (xe, ye) refl))

  -- The client's own place, or a player nearby.
  on_spawn-place :
      (p : PacketId) (id : ℤ) (x y : P.Float) (c : Client P)
      → IsCoordinate P F x
      → IsCoordinate P F y
      → on_spawn P (packet_bytes p (place_values P F id x y)) c ≡ some (seen P F id x y c)
  unfolding on_spawn place_values
  on_spawn-place p id x y c h k =
      rw
        (
          first_word p (int_bits id) (word (F.to_bits x) ∷ word (F.to_bits y) ∷ [])
              (int_bits_fit id),
          on_spawn,
        )
        (elim (Bool-cases (int_bits id == c.my_player_id)) [
          | inl mine ↦ rw mine (place_self-place p id x y c h k)
          | inr other ↦ rw other refl
        ])

  on_die-packet :
      (p : PacketId) (n : ℕ) (vs : List Value) (c : Client P)
      → n < 2 ^ 32
      → on_die P (packet_bytes p (word n ∷ vs)) c ≡ some c
  unfolding on_die
  on_die-packet p n vs c lt = rw (first_word p n vs lt, on_die) refl

  on_chat-packet :
      (id : ℤ) (text shown : List ℕ) (c : Client P)
      → c_string text ≡ some shown
      → on_chat P (packet_bytes s_chat (word (int_bits id) ∷ bytes text ∷ [])) c ≡ some c
  unfolding on_chat packet_bytes header_bytes encode value_bytes
  on_chat-packet id text shown c e =
      rw (first_word s_chat (int_bits id) (bytes text ∷ []) (int_bits_fit id), on_chat)
        (rw (append-nil text, e, on_chat) refl)

  log_in-id :
      (success : Bool) (buffer : List ℕ) (id : ℕ) (c : Client P)
      → read_word buffer 41 ≡ some id
      → log_in P success buffer c ≡ some (logged_in P F success id c)
  unfolding log_in
  log_in-id false buffer id c e = refl
  log_in-id true buffer id c e = rw (e, log_in) refl

  success-reply_bytes :
      (r : LoginReply) → success_byte (reply_bytes r) ≡ some (login_succeeded (reply_bytes r))
  unfolding success_byte login_succeeded reply_bytes header_bytes
  success-reply_bytes r = refl

  on_login-packet :
      (r : LoginReply) (c : Client P)
      → IsLaidOut r
      → on_login P (reply_bytes r) c ≡ some (effect P F (login (reply_bytes r)) c)
  unfolding on_login
  on_login-packet r c laid =
      let (id, e) = id_of-reply_bytes r laid in
      rw (success-reply_bytes r, on_login)
        (rw (e, effect) (log_in-id (login_succeeded (reply_bytes r)) (reply_bytes r) id c e))

  -- The handler that the id of a packet leads to.
  abbrev handled : PacketId → List ℕ → Client P → Option (Client P)
  handled s_login = on_login P
  handled s_spawn = on_spawn P
  handled s_respawn = on_spawn P
  handled s_die = on_die P
  handled s_chat = on_chat P
  handled _ = λ buffer c. some c

  on_packet-handled :
      (p : PacketId) (buffer : List ℕ) (c : Client P)
      → (read_header buffer).id ≡ id_number p
      → on_packet P buffer c ≡ handled p buffer c
  unfolding on_packet id_number
  on_packet-handled c_login buffer c e = rw (e, on_packet) refl
  on_packet-handled s_login buffer c e = rw (e, on_packet) refl
  on_packet-handled c_move buffer c e = rw (e, on_packet) refl
  on_packet-handled s_move buffer c e = rw (e, on_packet) refl
  on_packet-handled c_enter_game buffer c e = rw (e, on_packet) refl
  on_packet-handled s_spawn buffer c e = rw (e, on_packet) refl
  on_packet-handled s_despawn buffer c e = rw (e, on_packet) refl
  on_packet-handled s_die buffer c e = rw (e, on_packet) refl
  on_packet-handled s_respawn buffer c e = rw (e, on_packet) refl
  on_packet-handled c_attack buffer c e = rw (e, on_packet) refl
  on_packet-handled s_attack buffer c e = rw (e, on_packet) refl
  on_packet-handled c_chat buffer c e = rw (e, on_packet) refl
  on_packet-handled s_chat buffer c e = rw (e, on_packet) refl
  on_packet-handled c_logout buffer c e = rw (e, on_packet) refl

  packet-handled :
      (p : PacketId) (vs : List Value) (c : Client P)
      → on_packet P (packet_bytes p vs) c ≡ handled p (packet_bytes p vs) c
  unfolding to_header
  packet-handled p vs c = on_packet-handled p (packet_bytes p vs) c (
      ap (λ bs. (read_header bs).id) (sym (append-nil (packet_bytes p vs)))
      ∙ ap (λ k. k.id) (packet_bytes-header p vs []))

  on_packet-message_bytes :
      (m : Message P.Float) (c : Client P)
      → Fits P F m
      → on_packet P (message_bytes P F m) c ≡ some (effect P F m c)
  unfolding message_bytes spawn_bytes despawn_bytes move_bytes die_bytes respawn_bytes attack_bytes
      chat_bytes
  on_packet-message_bytes (spawn id x y) c (h, k) =
      packet-handled s_spawn (place_values P F id x y) c ∙ on_spawn-place s_spawn id x y c h k
  on_packet-message_bytes (despawn id) c h = packet-handled s_despawn (word (int_bits id) ∷ []) c
  on_packet-message_bytes (move id x y) c h = packet-handled s_move (place_values P F id x y) c
  on_packet-message_bytes (die id) c h =
      packet-handled s_die (word (int_bits id) ∷ []) c
      ∙ on_die-packet s_die (int_bits id) [] c (int_bits_fit id)
  on_packet-message_bytes (respawn id x y) c (h, k) =
      packet-handled s_respawn (place_values P F id x y) c ∙ on_spawn-place s_respawn id x y c h k
  on_packet-message_bytes (attack attacker target) c h =
      packet-handled s_attack (word (int_bits attacker) ∷ word (int_bits target) ∷ []) c
  on_packet-message_bytes (chat id text) c (sized, (shown, e)) =
      packet-handled s_chat (word (int_bits id) ∷ bytes text ∷ []) c
      ∙ on_chat-packet id text shown c e
  on_packet-message_bytes (login packet) c (r, laid, e) =
      rw e (on_packet-handled s_login (reply_bytes r) c (reply_id P F r) ∙ on_login-packet r c laid)

  all-AllWhole :
      (ms : List (Message P.Float)) → AllFit P F ms → AllWhole (map (message_bytes P F) ms)
  all-AllWhole [] h = tt
  all-AllWhole (m ∷ ms) (here, h) = (message-IsWhole P F m here, all-AllWhole ms h)

  run_packets-effects :
      (ms : List (Message P.Float)) (c : Client P)
      → AllFit P F ms
      → run_packets P (map (message_bytes P F) ms) c ≡ some (effects P F ms c)
  run_packets-effects [] c h = refl
  run_packets-effects (m ∷ ms) c (here, h) =
      rw (on_packet-message_bytes m c here) (run_packets-effects ms (effect P F m c) h)

  -- The server's messages to a session, as the bytes that it sends for them, one behind another, and cut
  -- by the network anywhere, if each message fits its structure: the client that receives them ends in
  -- the state to which the messages themselves lead, one after another. It reads past no packet, and no
  -- byte is left.
  pub receive_thread-message_bytes :
      (ms : List (Message P.Float)) (chunks : List (List ℕ)) (c : Client P)
      → AllFit P F ms
      → join chunks ≡ join (map (message_bytes P F) ms)
      → receive_thread P chunks [] c ≡ waits [] (effects P F ms c)
  receive_thread-message_bytes ms chunks c h e =
      receive_thread-packets P chunks (map (message_bytes P F) ms) c (effects P F ms c)
        (all-AllWhole ms h) e (run_packets-effects ms c h)
