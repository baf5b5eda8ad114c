-- ===== src/Client/Console.antt =====
-- The client that logs in by itself, and its end by a console event (main and ConsoleHandler of
-- MMO/Client/Main.cpp), with what the server makes of their packets.
use mmorpg_server.Base.{
  ℕ, ◌≤◌, ◌≡◌, refl, ap, ◌∙◌, Bool, true, false, Option, none, some, List, [], ◌∷◌, ◌++◌, arith,
  length, take, drop, take_all,
}
use mmorpg_server.Protocol.{header_size, read_header}
use mmorpg_server.Platform.{Platform}
use mmorpg_server.Game.{Game}
use mmorpg_server.Handler.{handle_packet, touch, is_empty}
use mmorpg_server.Login.{until_zero}
use mmorpg_server.Client.{Client, send_bytes, login_packet, logout_packet}
use mmorpg_server.Client.Orders.{shown, login_query, AllNonzero, handle_packet-login_packet}

-- `snprintf(inputId, 32, "Test_%s", argv[1])`.
unfoldable pub auto_login_id : List ℕ → List ℕ
auto_login_id argument = take 31 (84 ∷ 101 ∷ 115 ∷ 116 ∷ 95 ∷ argument)

-- "test123".
abbrev pub auto_login_pw : List ℕ
auto_login_pw = 116 ∷ 101 ∷ 115 ∷ 116 ∷ 49 ∷ 50 ∷ 51 ∷ []

until_zero_all : (text : List ℕ) → AllNonzero text → until_zero text ≡ text
unfolding until_zero
until_zero_all [] h = refl
until_zero_all (b ∷ bs) (e, h) = rw (e, until_zero_all bs h) refl

shown_all : (text : List ℕ) → AllNonzero text → length text ≤ 31 → shown 32 text ≡ text
shown_all text h le = ap (take 31) (until_zero_all text h) ∙ take_all 31 text le

auto_id_shown :
    (argument : List ℕ)
    → AllNonzero argument
    → length argument ≤ 26
    → shown 32 (auto_login_id argument) ≡ 84 ∷ 101 ∷ 115 ∷ 116 ∷ 95 ∷ argument
unfolding auto_login_id
auto_id_shown argument h le =
    let user_id : List ℕ = 84 ∷ 101 ∷ 115 ∷ 116 ∷ 95 ∷ argument in
    ap (shown 32) (take_all 31 user_id (omega (arith, le)))
    ∙ shown_all user_id (refl, (refl, (refl, (refl, (refl, h))))) (omega (arith, le))

auto_pw_shown : shown 32 auto_login_pw ≡ auto_login_pw
unfolding until_zero
auto_pw_shown = refl

module _ (P : Platform) where
  unfoldable pub auto_login_packet : List ℕ → List ℕ
  unfolding auto_login_id
  auto_login_packet argument = login_packet P (auto_login_id argument) auto_login_pw

  -- A console event, of which Ctrl+C and the closing of the window count: the sockets closed, and the
  -- client.
  unfoldable pub console_handler : Bool → Option ℕ → Client P → List ℕ × Client P
  console_handler false socket c = ([], c)
  console_handler true none c = ([], c)
  console_handler true (some socket) c = (socket ∷ [], send_bytes P (logout_packet P) c)

  -- The server's query for a client that was started with a number of at most 26 characters: it asks for
  -- the user `Test_` with that number, whole, so that different numbers are different users.
  pub auto_login_query :
      (now rand_x rand_y a : ℕ) (argument : List ℕ) (g : Game P)
      → AllNonzero argument
      → length argument ≤ 26
      → let packet = auto_login_packet argument in
        let user_id : List ℕ = 84 ∷ 101 ∷ 115 ∷ 116 ∷ 95 ∷ argument in
        handle_packet P now rand_x rand_y a (read_header packet) (some (drop header_size packet)) g
        ≡ some (record (touch P now a g) {
          queries = g.queries ++ (login_query P now a user_id auto_login_pw g ∷ []);
        })
  unfolding auto_login_packet
  auto_login_query now rand_x rand_y a argument g h le =
      let user_id : List ℕ = 84 ∷ 101 ∷ 115 ∷ 116 ∷ 95 ∷ argument in
      let whole : shown 32 (auto_login_id argument) ≡ user_id = auto_id_shown argument h le in
      handle_packet-login_packet P now rand_x rand_y a (auto_login_id argument) auto_login_pw g
        (ap is_empty whole)
      ∙ ap
          (λ (u : List ℕ). some (record (touch P now a g) {
            queries = g.queries ++ (login_query P now a u (shown 32 auto_login_pw) g ∷ []);
          }))
          whole
      ∙ ap
          (λ (w : List ℕ). some (record (touch P now a g) {
            queries = g.queries ++ (login_query P now a user_id w g ∷ []);
          }))
          auto_pw_shown
