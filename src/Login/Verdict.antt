-- ===== src/Login/Verdict.antt =====
-- What a login comes to (the database task of Handle_C_LOGIN and Handle_S_LOGIN,
-- MMO/Server/Core/PacketHandler.cpp).
use mmorpg_server.Base.{
  ℕ, ◌^◌, ◌<◌, ◌≡◌, refl, Bool, true, false, ◌&&◌, Option, none, some, List, ◌∷◌, ◌++◌, arith, ◌==◌,
}
use mmorpg_server.Protocol.{s_login, to_header, id_number, struct_size}
use mmorpg_server.Logic.{Job}
use mmorpg_server.Platform.{Platform, lobby}
use mmorpg_server.Game.{Game, LoginQuery, login, send}
use mmorpg_server.Handler.{
  handle_packet, handle_s_login, copy_bytes, read_word, login_succeeded, to_int32,
}
use mmorpg_server.Handler.Relogin.{handle_packet_reply}
use mmorpg_server.Login.{
  Account, Accounts, LoginReply, reply_job, same_bytes, next_bits, granted, first_level, LoginState,
  login_found, login_known, login_new, login_task,
}
use mmorpg_server.Login.Reply.{
  IsLaidOut, granted-IsReply, copy-reply_bytes, id_of-reply_bytes, login_succeeded-reply_bytes,
}

s_login_header : (to_header s_login).id ≡ id_number s_login
unfolding to_header
s_login_header = refl

module _ (P : Platform) (D : Accounts) where
  -- The session is still the one that asked.
  abbrev pub is_current : LoginQuery → Game P → Bool
  is_current q g = P.get_generation (g.heap q.session).ext == q.expected_gen

  -- The row that a new user gets.
  abbrev pub new_account : LoginQuery → Account
  new_account q = record { name = q.user_id; level = first_level; password = q.user_pw }

  abbrev grants_found : Option (Option Account) → LoginQuery → LoginState P D → Bool
  grants_found none q st = false
  grants_found (some none) q st = (D.insert q.user_id (new_account q) st.db).1
  grants_found (some (some account)) q st =
      same_bytes account.password q.user_pw && (D.touch q.user_id st.db).1

  -- Whether the table grants a login: a new user's row is put in, or the password is that of the row, and
  -- no call throws.
  abbrev pub grants : LoginQuery → LoginState P D → Bool
  grants q st = grants_found (D.find q.user_id st.db) q st

  -- A job with a granted reply, and the next player id.
  record IsGranted (q : LoginQuery) (stack : LoginReply) (st : LoginState P D)
      (r : Option Job × LoginState P D) : Type 0 where
    level : ℕ
    name : List ℕ
    replies : r.0 ≡ some (reply_job q.session (granted stack st.next_id level name))
    counts : r.1.next_id ≡ next_bits st.next_id

  found-IsGranted :
      (found : Option (Option Account)) (q : LoginQuery) (stack : LoginReply) (st : LoginState P D)
      → grants_found found q st ≡ true
      → IsGranted q stack st (login_found P D found q stack st)
  unfolding login_found login_known login_new
  found-IsGranted none q stack st e = absurd (ground (arith, e))
  found-IsGranted (some none) q stack st e = record {
    level = first_level;
    name = q.user_id;
    replies = rw e refl;
    counts = rw e refl;
  }
  found-IsGranted (some (some account)) q stack st e =
      let same : same_bytes account.password q.user_pw ≡ true = ground (arith, e) in
      let done : (D.touch q.user_id st.db).1 ≡ true = ground (arith, e) in
      record {
        level = account.level;
        name = account.name;
        replies = rw (same, done) refl;
        counts = rw (same, done) refl;
      }

  -- A login that is granted ends in the game's lobby: if the session is still the one that asked, the
  -- task pushes a job for the session; whenever that job is handled, in whatever state the game is then,
  -- the session is in the lobby under the id that the counter held, and the counter has moved on.
  pub login_task_granted :
      (q : LoginQuery) (stack : LoginReply) (g : Game P) (st : LoginState P D)
      (now rand_x rand_y : ℕ) (later : Game P)
      → is_current q g ≡ true
      → grants q st ≡ true
      → IsLaidOut stack
      → st.next_id < 2 ^ 32
      → (job : Job) × (after : Game P) × ((login_task P D q stack g st).0 ≡ some job)
        × (job.session ≡ q.session)
        × (handle_packet P now rand_x rand_y job.session job.header (some job.payload) later
            ≡ some after)
        × ((after.heap q.session).state ≡ lobby)
        × ((after.heap q.session).player_id ≡ to_int32 st.next_id)
        × ((login_task P D q stack g st).1.next_id ≡ next_bits st.next_id)
  unfolding login_task reply_job
  login_task_granted q stack g st now rand_x rand_y later current e laid lt =
      let r = found-IsGranted (D.find q.user_id st.db) q stack st e in
      let reply = granted stack st.next_id r.level r.name in
      let (after, handled, in_lobby, named) =
        handle_packet_reply P now rand_x rand_y q.session (to_header s_login) later s_login_header
          (granted-IsReply stack st.next_id r.level r.name laid lt) in
      rw current
        (reply_job q.session reply, after, r.replies, refl, handled, in_lobby, named, r.counts)

  -- A reply that is no success is sent, and that is all.
  refusal_sent :
      (now rand_x rand_y a : ℕ) {packet : List ℕ} {bits : ℕ} (g : Game P)
      → copy_bytes (struct_size s_login) packet ≡ some packet
      → read_word packet 41 ≡ some bits
      → login_succeeded packet ≡ false
      → handle_packet P now rand_x rand_y a (to_header s_login) (some packet) g
        ≡ some (send P a (login packet) g)
  unfolding handle_packet id_number handle_s_login to_header
  refusal_sent now rand_x rand_y a g copied id_read failed =
      rw (copied, handle_s_login) (rw (id_read, handle_s_login) (rw (failed, handle_s_login) refl))

  -- A wrong password: the counter and the table stay, and what is sent for the job, which changes nothing
  -- else of the game, is a refusal. But for its first five bytes it is what the stack held.
  pub login_task_refused :
      (q : LoginQuery) (stack : LoginReply) (g : Game P) (st : LoginState P D) {account : Account}
      (now rand_x rand_y : ℕ) (later : Game P)
      → is_current q g ≡ true
      → D.find q.user_id st.db ≡ some (some account)
      → same_bytes account.password q.user_pw ≡ false
      → IsLaidOut stack
      → let bytes = 45 ∷ 0 ∷ 2 ∷ 0 ∷ 0 ∷ (stack.level ++ (stack.name ++ stack.player_id)) in
        (login_task P D q stack g st ≡ (
          some (record { session = q.session; header = to_header s_login; payload = bytes }),
          st,
        ))
        × (handle_packet P now rand_x rand_y q.session (to_header s_login) (some bytes) later
            ≡ some (send P q.session (login bytes) later))
  unfolding login_task login_found login_known
  login_task_refused q stack g st {account} now rand_x rand_y later current found wrong laid =
      let refusal = record stack { success = 0 } in
      let refused_laid : IsLaidOut refusal = record {
        level_size = laid.level_size;
        name_fits = laid.name_fits;
        id_size = laid.id_size;
      } in
      let (bits, id_read) = id_of-reply_bytes refusal refused_laid in
      (
        rw (current, found, wrong) refl,
        refusal_sent now rand_x rand_y q.session later (copy-reply_bytes refusal refused_laid)
            id_read (login_succeeded-reply_bytes refusal),
      )
