-- ===== src/Client/Fair.antt =====
-- What every step of the client sends (MMO/Client/Main.cpp).
use mmorpg_server.Base.{
  Bool-cases, inl, ℕ, ◌%◌, ◌≡◌, refl, Bool, true, false, not, Option, none, some, List, ◌++◌, ◌==◌,
  if◌then◌else◌, length, drop, inr, get_or,
}
use mmorpg_server.Protocol.{
  s_login, c_move, s_spawn, s_die, s_respawn, s_chat, id_number, struct_size, read_header,
}
use mmorpg_server.Platform.{Platform}
use mmorpg_server.Handler.{read_word, c_string, ◌>>=◌}
use mmorpg_server.Login.{word_bytes}
use mmorpg_server.Client.{
  has_id, Client, Floats, success_byte, send_bytes, log_in, on_login, place_self, add_nearby,
  on_spawn, on_die, on_chat, on_packet, input_line, attack_packet, attack_step, stray, move_packet,
  move_step,
}
use mmorpg_server.Client.Console.{console_handler}
use mmorpg_server.Client.Sent.{
  AllSent, enter-IsSent, chat_packet-IsSent, attack_packet-IsSent, logout_packet-IsSent,
  send_bytes-AllSent,
}

module _ (P : Platform) where
  abbrev pub OnClient : Option (Client P) → Type 0
  OnClient none = Unit
  OnClient (some c) = AllSent c.sent

  on_bind :
      {A : Type 0} (o : Option A) (f : A → Option (Client P))
      → ((x : A) → OnClient (f x))
      → OnClient (o >>= f)
  on_bind none f h = tt
  on_bind (some x) f h = h x

  on_if :
      (t : Bool) (a b : Option (Client P)) → OnClient a → OnClient b → OnClient (if t then a else b)
  on_if true a b h k = h
  on_if false a b h k = k

  log_in-AllSent :
      (done : Bool) (b : List ℕ) (c : Client P) → AllSent c.sent → OnClient (log_in P done b c)
  unfolding log_in
  log_in-AllSent false b c h = h
  log_in-AllSent true b c h =
      on_bind (read_word b 41) _
        (λ id. send_bytes-AllSent P _ (record c { my_player_id = id }) (enter-IsSent P) h)

  add_nearby-AllSent : (i : ℕ) (c : Client P) → AllSent c.sent → AllSent (add_nearby P i c).sent
  unfolding add_nearby
  add_nearby-AllSent i c h = elim (Bool-cases (has_id i c.nearby_players)) [
    | inl e ↦ rw e h
    | inr e ↦ rw e h
  ]

  on_spawn-AllSent : (b : List ℕ) (c : Client P) → AllSent c.sent → OnClient (on_spawn P b c)
  unfolding on_spawn place_self
  on_spawn-AllSent b c h = on_bind (read_word b 4) _ (λ id.
      on_if (id == c.my_player_id) _ _
        (on_bind (read_word b 8) _ (λ x. on_bind (read_word b 12) _ (λ y. h)))
        (add_nearby-AllSent id c h))

  pub on_packet-AllSent : (b : List ℕ) (c : Client P) → AllSent c.sent → OnClient (on_packet P b c)
  unfolding on_packet on_login on_die on_chat
  on_packet-AllSent b c h =
      let id = (read_header b).id in
      on_if (id == id_number s_login) _ _
        (on_bind (success_byte b) _ (λ done. log_in-AllSent done b c h))
        (on_if (id == id_number s_die) _ _ (on_bind (read_word b 4) _ (λ i. h)) (
          on_if (id == id_number s_spawn) _ _ (on_spawn-AllSent b c h) (
            on_if (id == id_number s_respawn) _ _ (on_spawn-AllSent b c h) (
              on_if (id == id_number s_chat) _ _
                (on_bind (read_word b 4) _ (λ i. on_bind (c_string (drop 8 b)) _ (λ text. h))) h))))

  sent_if :
      (t : Bool) (c d : Client P)
      → AllSent c.sent
      → AllSent d.sent
      → AllSent (if t then c else d).sent
  sent_if true c d h k = h
  sent_if false c d h k = k

  pub input_line-AllSent :
      (stack line : List ℕ) (c : Client P)
      → length stack ≡ 128
      → AllSent c.sent
      → AllSent (input_line P stack line c).sent
  unfolding input_line
  input_line-AllSent stack line c e h =
      sent_if (length line == 0) c _ h
        (send_bytes-AllSent P _ c (chat_packet-IsSent P stack line e) h)

  pub attack_step-AllSent :
      (r0 r1 r2 : ℕ) (c : Client P) → AllSent c.sent → AllSent (attack_step P r0 r1 r2 c).sent
  unfolding attack_step
  attack_step-AllSent r0 r1 r2 c h =
      let count = length c.nearby_players in
      sent_if (not (r0 % 5 == 0)) c _ h (
        sent_if (r1 % 2 == 0) _ _
          (sent_if (count == 0) c _ h (attacked 0 (get_or c.nearby_players (r2 % count) 0)))
          (attacked (r1 % 2) 0))
    where
      attacked : (kind target : ℕ) → AllSent (send_bytes P (attack_packet P kind target) c).sent
      attacked kind target = send_bytes-AllSent P _ c (attack_packet-IsSent P kind target) h

  pub console_handler-AllSent :
      (c : Client P) → AllSent c.sent → AllSent (console_handler P true (some 1) c).1.sent
  unfolding console_handler
  console_handler-AllSent c h = send_bytes-AllSent P _ c (logout_packet-IsSent P) h

  module _ (F : Floats P) where
    pub move_step-AllSent :
        (r0 r1 : ℕ) (c : Client P) → AllSent c.sent → AllSent (move_step P F r0 r1 c).sent
    unfolding move_step move_packet struct_size
    move_step-AllSent r0 r1 c h =
        let moved = record c { my_x = stray P F r0 c.my_x; my_y = stray P F r1 c.my_y } in
        send_bytes-AllSent P (move_packet P F moved.my_x moved.my_y) moved
          (record {
            id = c_move;
            payload = word_bytes (F.to_bits moved.my_x) ++ word_bytes (F.to_bits moved.my_y);
            request = refl;
            sized = refl;
            laid_out = refl;
          })
          h
