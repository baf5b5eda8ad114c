-- ===== src/Login.antt =====
-- The database task of Handle_C_LOGIN (MMO/Server/Core/PacketHandler.cpp). The tables of accounts, which
-- a third-party connector holds, are the parameter `Accounts`; a call of it may throw SQLException.
pub mod Reply
pub mod Verdict
pub mod Ids
use mmorpg_server.Base.{
  ℕ, zero, suc, ◌+◌, ◌-◌, ◌/◌, ◌%◌, ◌^◌, Bool, true, false, ◌&&◌, Option, none, some, List, [], ◌∷◌,
  ◌++◌, ◌==◌, not, if◌then◌else◌, length, take, drop,
}
use mmorpg_server.Protocol.{PacketHeader, s_login, to_header, header_bytes}
use mmorpg_server.Logic.{Job}
use mmorpg_server.Platform.{Platform}
use mmorpg_server.Game.{Game, LoginQuery}

-- A row of the table: `user_name`, `level` (by its bits) and `password`.
pub record Account : Type 0 where
  pub name : List ℕ
  pub level : ℕ
  pub password : List ℕ

-- SELECT, UPDATE of the last login, and INSERT with commit. `none`, and `false` beside the state that
-- is left, say that the call threw.
pub record Accounts : Type 1 where
  pub State : Type 0
  pub find : List ℕ → State → Option (Option Account)
  pub touch : List ℕ → State → State × Bool
  pub insert : List ℕ → Account → State → State × Bool

-- struct S_LOGIN behind its header: the byte of `success`, and the bytes of the other members.
pub record LoginReply : Type 0 where
  pub success : ℕ
  pub level : List ℕ
  pub name : List ℕ
  pub player_id : List ℕ

unfoldable pub reply_bytes : LoginReply → List ℕ
unfolding to_header header_bytes
reply_bytes r =
    header_bytes (to_header s_login) ++ ((r.success ∷ []) ++ (r.level ++ (r.name ++ r.player_id)))

-- The four bytes of a number, the lowest first.
abbrev pub word_bytes : ℕ → List ℕ
word_bytes n = n % 256 ∷ n / 256 % 256 ∷ n / 65536 % 256 ∷ n / 16777216 % 256 ∷ []

abbrev pub name_size : ℕ
name_size = 32

-- The bytes before the first zero.
unfoldable pub until_zero : List ℕ → List ℕ
until_zero [] = []
until_zero (b ∷ bs) = if b == 0 then [] else b ∷ until_zero bs

-- `strncpy_s(old, text, _TRUNCATE)` into an array of `size` bytes.
unfoldable pub copy_truncated : ℕ → List ℕ → List ℕ → List ℕ
unfolding until_zero
copy_truncated size text old =
    let kept = take (size - 1) (until_zero text) in kept ++ (0 ∷ drop (suc (length kept)) old)

-- `dbPw == userPw`.
unfoldable pub same_bytes : List ℕ → List ℕ → Bool
same_bytes [] [] = true
same_bytes [] (y ∷ ys) = false
same_bytes (x ∷ xs) [] = false
same_bytes (x ∷ xs) (y ∷ ys) = x == y && same_bytes xs ys

-- `g_IdCounter++`, by the bits of the counter.
abbrev pub next_bits : ℕ → ℕ
next_bits n = (n + 1) % 2 ^ 32

-- The job that hands the reply to the session's logic thread.
unfoldable pub reply_job : ℕ → LoginReply → Job
unfolding reply_bytes to_header
reply_job session r = record {
  session = session;
  header = to_header s_login;
  payload = reply_bytes r;
}

-- A successful reply, put into what the stack held.
unfoldable pub granted : LoginReply → ℕ → ℕ → List ℕ → LoginReply
unfolding copy_truncated
granted stack id level name = record {
  success = 1;
  level = word_bytes level;
  name = copy_truncated name_size name stack.name;
  player_id = word_bytes id;
}

abbrev pub first_level : ℕ
first_level = 1

module _ (P : Platform) (D : Accounts) where
  -- The table, and g_IdCounter.
  pub record LoginState : Type 0 where
    pub db : D.State
    pub next_id : ℕ

  -- A user of the table. `stack` is what the reply's memory held.
  unfoldable pub login_known :
      LoginQuery → LoginReply → Account → LoginState → Option Job × LoginState
  unfolding same_bytes granted reply_job
  login_known q stack account st =
      let (db, done) = D.touch q.user_id st.db in
      let st' : LoginState = record { db = db; next_id = next_bits st.next_id } in
      if same_bytes account.password q.user_pw
      then if done
        then (some (reply_job q.session (granted stack st.next_id account.level account.name)), st')
        else (none, st')
      else (some (reply_job q.session (record stack { success = 0 })), st)

  -- A user who is not in the table is put into it.
  unfoldable pub login_new : LoginQuery → LoginReply → LoginState → Option Job × LoginState
  unfolding granted reply_job
  login_new q stack st =
      let (db, done) =
        D.insert q.user_id (record { name = q.user_id; level = first_level; password = q.user_pw })
          st.db in
      if done
      then (
        some (reply_job q.session (granted stack st.next_id first_level q.user_id)),
        record { db = db; next_id = next_bits st.next_id },
      )
      else (none, record st { db = db })

  -- What the SELECT found decides.
  unfoldable pub login_found :
      Option (Option Account) → LoginQuery → LoginReply → LoginState → Option Job × LoginState
  unfolding login_known login_new
  login_found none q stack st = (none, st)
  login_found (some none) q stack st = login_new q stack st
  login_found (some (some account)) q stack st = login_known q stack account st

  -- The task, when a database thread runs it; `g` is the game at that time.
  unfoldable pub login_task :
      LoginQuery → LoginReply → Game P → LoginState → Option Job × LoginState
  unfolding login_found
  login_task q stack g st =
      if not (P.get_generation (g.heap q.session).ext == q.expected_gen)
      then (none, st)
      else login_found (D.find q.user_id st.db) q stack st
