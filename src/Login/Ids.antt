-- ===== src/Login/Ids.antt =====
-- The player ids that a run of login tasks gives away (g_IdCounter, MMO/Server/Core/PacketHandler.cpp).
use mmorpg_server.Base.{
  ℕ, suc, ◌+◌, ◌^◌, ◌≤◌, ◌<◌, ◌≡◌, ◌++◌, Bool, true, false, Option, none, some, List, [], ◌∷◌,
  arith, ◌==◌, Bool-cases, inl, inr, length,
}
use mmorpg_server.Logic.{Job}
use mmorpg_server.Platform.{Platform}
use mmorpg_server.Game.{Game, LoginQuery}
use mmorpg_server.Handler.{read_word, login_succeeded}
use mmorpg_server.Login.{
  Account, Accounts, LoginReply, reply_job, same_bytes, next_bits, granted, first_level, LoginState,
  login_found, login_known, login_new, login_task,
}
use mmorpg_server.Login.Reply.{IsLaidOut, granted-read_word, login_succeeded-reply_bytes}

-- The bits of the player id in a reply that grants a login.
abbrev pub ids_of_reply : Bool → Option ℕ → List ℕ
ids_of_reply true (some id) = id ∷ []
ids_of_reply true none = []
ids_of_reply false word = []

abbrev pub granted_ids : Option Job → List ℕ
granted_ids none = []
granted_ids (some job) = ids_of_reply (login_succeeded job.payload) (read_word job.payload 41)

-- Every number is above the one before it, and the first is at least n.
abbrev pub Ascends : ℕ → List ℕ → Type 0
Ascends n [] = Unit
Ascends n (x ∷ xs) = (n ≤ x) × Ascends (suc x) xs

Ascends-from_less : {n m : ℕ} (xs : List ℕ) → n ≤ m → Ascends m xs → Ascends n xs
Ascends-from_less [] le h = tt
Ascends-from_less (x ∷ xs) le (lo, h) = (omega (arith, le, lo), h)

-- What one task does to the counter.
data Outcome (n m : ℕ) : List ℕ → Type 0 where
  silent : n ≤ m → m ≤ suc n → Outcome n m []
  gave : m ≡ suc n → Outcome n m (n ∷ [])

module _ (P : Platform) (D : Accounts) where
  -- What a task works with: the query, the stack's old bytes, and the game at that time.
  pub record Attempt : Type 0 where
    pub query : LoginQuery
    pub stack : LoginReply
    pub game : Game P

  abbrev pub AllLaidOut : List Attempt → Type 0
  AllLaidOut [] = Unit
  AllLaidOut (t ∷ ts) = IsLaidOut t.stack × AllLaidOut ts

  -- The ids that a run of tasks gives away, one task after another on the table and the counter.
  abbrev pub run_ids : List Attempt → LoginState P D → List ℕ
  run_ids [] st = []
  run_ids (t ∷ ts) st =
      let (job, st') = login_task P D t.query t.stack t.game st in granted_ids job ++ run_ids ts st'

  granted_outcome :
      (session id level : ℕ) (stack : LoginReply) (name : List ℕ)
      → IsLaidOut stack
      → suc id < 2 ^ 32
      → Outcome id
          (next_bits id)
          (granted_ids (some (reply_job session (granted stack id level name))))
  unfolding reply_job granted
  granted_outcome session id level stack name laid lt =
      rw
        (
          login_succeeded-reply_bytes (granted stack id level name),
          granted-read_word stack id level name laid (omega (arith, lt)),
        )
        (gave (omega (arith, lt)))

  found_outcome :
      (found : Option (Option Account)) (q : LoginQuery) (stack : LoginReply) (st : LoginState P D)
      → IsLaidOut stack
      → suc st.next_id < 2 ^ 32
      → let r = login_found P D found q stack st in Outcome st.next_id r.1.next_id (granted_ids r.0)
  unfolding login_found login_known login_new login_succeeded
  found_outcome none q stack st laid lt = silent (omega arith) (omega arith)
  found_outcome (some none) q stack st laid lt =
      elim (Bool-cases
        (D.insert q.user_id (record { name = q.user_id; level = first_level; password = q.user_pw })
          st.db).1) [
            | inl e ↦
                rw e (granted_outcome q.session st.next_id first_level stack q.user_id laid lt)
            | inr e ↦ rw e (silent (omega arith) (omega arith))
          ]
  found_outcome (some (some account)) q stack st laid lt =
      elim (Bool-cases (same_bytes account.password q.user_pw)) [
        | inl e ↦ elim (Bool-cases (D.touch q.user_id st.db).1) [
          | inl f ↦
              rw (e, f)
                (granted_outcome q.session st.next_id account.level stack account.name laid lt)
          | inr f ↦ rw (e, f) (silent (omega (arith, lt)) (omega (arith, lt)))
        ]
        | inr e ↦ rw e (silent (omega arith) (omega arith))
      ]

  task_outcome :
      (t : Attempt) (st : LoginState P D)
      → IsLaidOut t.stack
      → suc st.next_id < 2 ^ 32
      → let r = login_task P D t.query t.stack t.game st in
        Outcome st.next_id r.1.next_id (granted_ids r.0)
  unfolding login_task
  task_outcome t st laid lt =
      elim (Bool-cases
        (P.get_generation (t.game.heap t.query.session).ext == t.query.expected_gen)) [
          | inl e ↦ rw e (found_outcome (D.find t.query.user_id st.db) t.query t.stack st laid lt)
          | inr e ↦ rw e (silent (omega arith) (omega arith))
        ]

  -- Whatever an outcome gave stands below what comes behind it.
  outcome-Ascends :
      {n m : ℕ} {ids : List ℕ} (rest : List ℕ)
      → Outcome n m ids
      → Ascends m rest
      → Ascends n (ids ++ rest)
  outcome-Ascends rest (silent lo hi) h = Ascends-from_less rest lo h
  outcome-Ascends rest (gave e) h = (omega arith, Ascends-from_less rest (omega (arith, e)) h)

  outcome_bound : {n m : ℕ} {ids : List ℕ} → Outcome n m ids → m ≤ suc n
  outcome_bound (silent lo hi) = hi
  outcome_bound (gave e) = omega (arith, e)

  -- While the counter stays below 2 ^ 32, a run of login tasks, of any sessions, at any times and with
  -- any outcomes, gives away player ids that ascend from the counter: no two logins get the same id.
  pub run_ids-Ascends :
      (ts : List Attempt) (st : LoginState P D)
      → AllLaidOut ts
      → st.next_id + length ts < 2 ^ 32
      → Ascends st.next_id (run_ids ts st)
  run_ids-Ascends [] st laid lt = tt
  run_ids-Ascends (t ∷ ts) st (here, laid) lt =
      let o = task_outcome t st here (omega (arith, lt)) in
      let st' = (login_task P D t.query t.stack t.game st).1 in
      outcome-Ascends (run_ids ts st') o
        (run_ids-Ascends ts st' laid (omega (arith, lt, outcome_bound o)))
