-- ===== src/Client/Sent.antt =====
-- What the client has sent (MMO/Client/Main.cpp): whole structures of the client's ids.
use mmorpg_server.Base.{
  replicate, length-append, ℕ, ◌+◌, ◌≡◌, refl, Bool, true, false, List, [], ◌∷◌, ◌++◌, length,
  arith,
}
use mmorpg_server.Protocol.{
  PacketId, c_login, c_move, c_enter_game, c_attack, c_chat, c_logout, header_size, struct_size,
  to_header, header_bytes,
}
use mmorpg_server.Platform.{Platform}
use mmorpg_server.Login.{word_bytes, copy_truncated}
use mmorpg_server.Login.Reply.{length-copy_truncated}
use mmorpg_server.Client.{
  Client, send_bytes, login_packet, chat_packet, attack_packet, logout_packet,
}

-- The ids of a client's packets.
abbrev pub is_request : PacketId → Bool
is_request c_login = true
is_request c_move = true
is_request c_enter_game = true
is_request c_attack = true
is_request c_chat = true
is_request c_logout = true
is_request _ = false

-- The bytes of a whole structure with a client's id.
pub record IsSent (bytes : List ℕ) : Type 0 where
  pub id : PacketId
  pub payload : List ℕ
  pub request : is_request id ≡ true
  pub sized : header_size + length payload ≡ struct_size id
  pub laid_out : header_bytes (to_header id) ++ payload ≡ bytes

abbrev pub AllSent : List (List ℕ) → Type 0
AllSent [] = Unit
AllSent (b ∷ bs) = IsSent b × AllSent bs

pub append-AllSent :
    (bs : List (List ℕ)) (b : List ℕ) → AllSent bs → IsSent b → AllSent (bs ++ (b ∷ []))
append-AllSent [] b h k = (k, tt)
append-AllSent (x ∷ xs) b (h, hs) k = (h, append-AllSent xs b hs k)

module _ (P : Platform) where
  pub enter-IsSent : IsSent (header_bytes (to_header c_enter_game))
  unfolding struct_size header_bytes
  enter-IsSent = record {
    id = c_enter_game;
    payload = [];
    request = refl;
    sized = refl;
    laid_out = refl;
  }

  pub login_packet-IsSent : (input_id input_pw : List ℕ) → IsSent (login_packet P input_id input_pw)
  unfolding login_packet struct_size
  login_packet-IsSent input_id input_pw =
      let shown_id = copy_truncated 32 input_id (replicate 32 0) in
      let shown_pw = copy_truncated 32 input_pw (replicate 32 0) in
      record {
        id = c_login;
        payload = shown_id ++ shown_pw;
        request = refl;
        sized = omega (
          arith,
          length-append shown_id shown_pw,
          length-copy_truncated 32 input_id (replicate 32 0) (omega arith) refl,
          length-copy_truncated 32 input_pw (replicate 32 0) (omega arith) refl,
        );
        laid_out = refl;
      }

  pub chat_packet-IsSent :
      (stack line : List ℕ) → length stack ≡ 128 → IsSent (chat_packet P stack line)
  unfolding chat_packet struct_size
  chat_packet-IsSent stack line e = record {
    id = c_chat;
    payload = copy_truncated 128 line stack;
    request = refl;
    sized = omega (arith, length-copy_truncated 128 line stack (omega arith) e);
    laid_out = refl;
  }

  pub attack_packet-IsSent : (kind target : ℕ) → IsSent (attack_packet P kind target)
  unfolding attack_packet struct_size
  attack_packet-IsSent kind target = record {
    id = c_attack;
    payload = word_bytes kind ++ word_bytes target;
    request = refl;
    sized = refl;
    laid_out = refl;
  }

  pub logout_packet-IsSent : IsSent (logout_packet P)
  unfolding logout_packet struct_size
  logout_packet-IsSent = record {
    id = c_logout;
    payload = [];
    request = refl;
    sized = refl;
    laid_out = refl;
  }

  pub send_bytes-AllSent :
      (b : List ℕ) (c : Client P) → IsSent b → AllSent c.sent → AllSent (send_bytes P b c).sent
  unfolding send_bytes
  send_bytes-AllSent b c sent h = append-AllSent c.sent b h sent
