-- ===== src/Login/Reply.antt =====
-- The bytes of a login reply, as Handle_S_LOGIN (MMO/Server/Core/PacketHandler.cpp) reads them.
use mmorpg_server.Base.{
  ℕ, suc, ◌-◌, ◌^◌, ◌<◌, ◌≡◌, refl, sym, ap, ◌∙◌, some, List, [], ◌∷◌, ◌++◌, arith, ◌==◌, length,
  take, drop, length-append, length-drop, length-take, take_all, append_assoc,
  drop-append_of_length, not,
}
use mmorpg_server.Protocol.{s_login, to_header, header_bytes, struct_size}
use mmorpg_server.Handler.{word_of, read_word, copy_bytes, login_succeeded, to_int32}
use mmorpg_server.Handler.Relogin.{IsReply}
use mmorpg_server.Login.{
  LoginReply, reply_bytes, word_bytes, name_size, until_zero, copy_truncated, granted,
}

-- The sizes of the members.
pub record IsLaidOut (r : LoginReply) : Type 0 where
  pub level_size : length r.level ≡ 4
  pub name_fits : length r.name ≡ name_size
  pub id_size : length r.player_id ≡ 4

pub length-reply_bytes :
    (r : LoginReply) → IsLaidOut r → length (reply_bytes r) ≡ struct_size s_login
unfolding reply_bytes header_bytes struct_size
length-reply_bytes r w =
    omega
      (arith, w, length-append r.level (r.name ++ r.player_id), length-append r.name r.player_id)

pub length-copy_truncated :
    (size : ℕ) (text old : List ℕ)
    → 0 < size
    → length old ≡ size
    → length (copy_truncated size text old) ≡ size
unfolding copy_truncated
length-copy_truncated size text old some_room e =
    let kept = take (size - 1) (until_zero text) in
    omega (
      arith,
      length-append kept (0 ∷ drop (suc (length kept)) old),
      length-drop (suc (length kept)) old,
      length-take (size - 1) (until_zero text),
    )

pub granted-IsLaidOut :
    (stack : LoginReply) (id level : ℕ) (name : List ℕ)
    → IsLaidOut stack
    → IsLaidOut (granted stack id level name)
unfolding granted
granted-IsLaidOut stack id level name w = record {
  level_size = refl;
  name_fits = length-copy_truncated name_size name stack.name (omega arith) w.name_fits;
  id_size = refl;
}

pub word_of-word_bytes : (n : ℕ) → n < 2 ^ 32 → word_of (word_bytes n) ≡ some n
unfolding word_of
word_of-word_bytes n lt = ap some (omega arith)

-- What stands before the player id.
abbrev before_id : LoginReply → List ℕ
before_id r = header_bytes (to_header s_login) ++ ((r.success ∷ []) ++ (r.level ++ r.name))

length-before_id : (r : LoginReply) → IsLaidOut r → length (before_id r) ≡ 41
unfolding header_bytes
length-before_id r w = omega (arith, w, length-append r.level r.name)

reply_bytes_split : (r : LoginReply) → reply_bytes r ≡ before_id r ++ r.player_id
unfolding reply_bytes
reply_bytes_split r =
    ap (λ bytes. header_bytes (to_header s_login) ++ ((r.success ∷ []) ++ bytes))
      (sym (append_assoc r.level r.name r.player_id))

player_id_at : (r : LoginReply) → IsLaidOut r → drop 41 (reply_bytes r) ≡ r.player_id
player_id_at r w =
    ap (drop 41) (reply_bytes_split r)
    ∙ drop-append_of_length 41 (before_id r) r.player_id (length-before_id r w)

pub copy-reply_bytes :
    (r : LoginReply)
    → IsLaidOut r
    → copy_bytes (struct_size s_login) (reply_bytes r) ≡ some (reply_bytes r)
unfolding copy_bytes struct_size
copy-reply_bytes r w = rw (length-reply_bytes r w) (
    ap some
      (take_all (struct_size s_login) (reply_bytes r) (omega (arith, length-reply_bytes r w))))

word_of_four : (bytes : List ℕ) → length bytes ≡ 4 → (n : ℕ) × (word_of bytes ≡ some n)
unfolding word_of
word_of_four [] e = absurd (omega (arith, e))
word_of_four (a ∷ []) e = absurd (omega (arith, e))
word_of_four (a ∷ b ∷ []) e = absurd (omega (arith, e))
word_of_four (a ∷ b ∷ c ∷ []) e = absurd (omega (arith, e))
word_of_four (a ∷ b ∷ c ∷ d ∷ rest) e = (_, refl)

-- A reply that is laid out has a player id to read.
pub id_of-reply_bytes :
    (r : LoginReply) → IsLaidOut r → (n : ℕ) × (read_word (reply_bytes r) 41 ≡ some n)
unfolding read_word
id_of-reply_bytes r w =
    let (n, e) = word_of_four r.player_id w.id_size in (n, ap word_of (player_id_at r w) ∙ e)

pub login_succeeded-reply_bytes :
    (r : LoginReply) → login_succeeded (reply_bytes r) ≡ not (r.success == 0)
unfolding login_succeeded reply_bytes header_bytes
login_succeeded-reply_bytes r = refl

-- The player id that a granted reply holds.
pub granted-read_word :
    (stack : LoginReply) (id level : ℕ) (name : List ℕ)
    → IsLaidOut stack
    → id < 2 ^ 32
    → read_word (reply_bytes (granted stack id level name)) 41 ≡ some id
unfolding granted read_word
granted-read_word stack id level name w lt =
    ap word_of
      (player_id_at (granted stack id level name) (granted-IsLaidOut stack id level name w))
    ∙ word_of-word_bytes id lt

-- A granted reply reads as a successful one for the player id that it was given.
pub granted-IsReply :
    (stack : LoginReply) (id level : ℕ) (name : List ℕ)
    → IsLaidOut stack
    → id < 2 ^ 32
    → let packet = reply_bytes (granted stack id level name) in IsReply packet packet (to_int32 id)
unfolding granted
granted-IsReply stack id level name w lt =
    let r = granted stack id level name in
    let laid = granted-IsLaidOut stack id level name w in
    record {
      bits = id;
      copied = copy-reply_bytes r laid;
      success = login_succeeded-reply_bytes r;
      id_bits = granted-read_word stack id level name w lt;
      id_value = refl;
    }
