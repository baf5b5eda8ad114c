-- ===== src/Client/Append.antt =====
-- What the client reads of a packet, when more bytes stand behind it (MMO/Client/Main.cpp).
use mmorpg_server.Base.{
  ℕ, zero, suc, ◌≤◌, ◌≡◌, refl, Bool, true, false, Option, none, some, List, [], ◌∷◌, ◌++◌, arith,
  ◌==◌, if◌then◌else◌, Bool-cases, Option-cases, inl, inr, length, drop,
}
use mmorpg_server.Protocol.{
  header_size, read_header, id_number, s_login, s_die, s_spawn, s_respawn, s_chat,
}
use mmorpg_server.Framing.Chunks.{read_header-append}
use mmorpg_server.Platform.{Platform}
use mmorpg_server.Handler.{word_of, read_word, c_string, ◌>>=◌}
use mmorpg_server.Client.{
  Client, success_byte, log_in, on_login, place_self, on_spawn, on_die, on_chat, on_packet,
}

-- What is read without reading past the bytes at hand is read as well when more bytes follow.
abbrev pub Extends {ℓ} : {A : Type ℓ} → Option A → Option A → Type ℓ
Extends {A = A} before after = (x : A) → before ≡ some x → after ≡ some x

bind-Extends {ℓ κ} :
    {A : Type ℓ} {B : Type κ} (a b : Option A) (f g : A → Option B)
    → Extends a b
    → ((x : A) → Extends (f x) (g x))
    → Extends (a >>= f) (b >>= g)
bind-Extends none b f g h k y e = absurd (ground (arith, e))
bind-Extends (some x) b f g h k y e = rw (h x refl) (k x y e)

if-Extends {ℓ} :
    {A : Type ℓ} (t : Bool) (a a' b b' : Option A)
    → Extends a a'
    → Extends b b'
    → Extends (if t then a else b) (if t then a' else b')
if-Extends true a a' b b' h k = h
if-Extends false a a' b b' h k = k

same-Extends {ℓ} : {A : Type ℓ} (a : Option A) → Extends a a
same-Extends a x e = e

word_of-append : (a b : List ℕ) → Extends (word_of a) (word_of (a ++ b))
unfolding word_of
word_of-append [] b x e = absurd (ground (arith, e))
word_of-append (i ∷ []) b x e = absurd (ground (arith, e))
word_of-append (i ∷ j ∷ []) b x e = absurd (ground (arith, e))
word_of-append (i ∷ j ∷ k ∷ []) b x e = absurd (ground (arith, e))
word_of-append (i ∷ j ∷ k ∷ l ∷ a) b x e = e

read_word-append : (n : ℕ) (a b : List ℕ) → Extends (read_word a n) (read_word (a ++ b) n)
unfolding read_word word_of
read_word-append zero a b = word_of-append a b
read_word-append (suc n) [] b = λ x e. absurd (ground (arith, e))
read_word-append (suc n) (i ∷ a) b = read_word-append n a b

c_string-append : (a b : List ℕ) → Extends (c_string a) (c_string (a ++ b))
unfolding c_string
c_string-append [] b x e = absurd (ground (arith, e))
c_string-append (i ∷ a) b x e = elim (Bool-cases (i == 0)) [
  | inl z ↦ ground (arith, e)
  | inr nz ↦ elim (Option-cases (c_string a)) [
    | inl f ↦ ground (arith, e)
    | inr (s, f) ↦ ground (arith, e, c_string-append a b s f)
  ]
]

drop-c_string-append :
    (n : ℕ) (a b : List ℕ) → Extends (c_string (drop n a)) (c_string (drop n (a ++ b)))
unfolding c_string
drop-c_string-append zero a b = c_string-append a b
drop-c_string-append (suc n) [] b = λ x e. absurd (ground (arith, e))
drop-c_string-append (suc n) (i ∷ a) b = drop-c_string-append n a b

success_byte-append : (a b : List ℕ) → Extends (success_byte a) (success_byte (a ++ b))
unfolding success_byte
success_byte-append [] b x e = absurd (ground (arith, e))
success_byte-append (i ∷ []) b x e = absurd (ground (arith, e))
success_byte-append (i ∷ j ∷ []) b x e = absurd (ground (arith, e))
success_byte-append (i ∷ j ∷ k ∷ []) b x e = absurd (ground (arith, e))
success_byte-append (i ∷ j ∷ k ∷ l ∷ []) b x e = absurd (ground (arith, e))
success_byte-append (i ∷ j ∷ k ∷ l ∷ m ∷ a) b x e = e

module _ (P : Platform) where
  log_in-append :
      (done : Bool) (a b : List ℕ) (c : Client P)
      → Extends (log_in P done a c) (log_in P done (a ++ b) c)
  unfolding log_in
  log_in-append false a b c = same-Extends (some c)
  log_in-append true a b c =
      bind-Extends (read_word a 41) (read_word (a ++ b) 41) _ _ (read_word-append 41 a b)
        (λ id. same-Extends _)

  place_self-append :
      (a b : List ℕ) (c : Client P) → Extends (place_self P a c) (place_self P (a ++ b) c)
  unfolding place_self
  place_self-append a b c =
      bind-Extends (read_word a 8) (read_word (a ++ b) 8) _ _ (read_word-append 8 a b) (λ x.
        bind-Extends (read_word a 12) (read_word (a ++ b) 12) _ _ (read_word-append 12 a b)
          (λ y. same-Extends _))

  on_spawn-append : (a b : List ℕ) (c : Client P) → Extends (on_spawn P a c) (on_spawn P (a ++ b) c)
  unfolding on_spawn
  on_spawn-append a b c =
      bind-Extends (read_word a 4) (read_word (a ++ b) 4) _ _ (read_word-append 4 a b) (λ id.
        elim (Bool-cases (id == c.my_player_id)) [
          | inl e ↦ rw e (place_self-append a b c)
          | inr e ↦ rw e (same-Extends _)
        ])

  on_die-append : (a b : List ℕ) (c : Client P) → Extends (on_die P a c) (on_die P (a ++ b) c)
  unfolding on_die
  on_die-append a b c =
      bind-Extends (read_word a 4) (read_word (a ++ b) 4) _ _ (read_word-append 4 a b)
        (λ id. same-Extends _)

  on_chat-append : (a b : List ℕ) (c : Client P) → Extends (on_chat P a c) (on_chat P (a ++ b) c)
  unfolding on_chat
  on_chat-append a b c =
      bind-Extends (read_word a 4) (read_word (a ++ b) 4) _ _ (read_word-append 4 a b) (λ id.
        bind-Extends (c_string (drop 8 a)) (c_string (drop 8 (a ++ b))) _ _
          (drop-c_string-append 8 a b) (λ text. same-Extends _))

  on_login-append : (a b : List ℕ) (c : Client P) → Extends (on_login P a c) (on_login P (a ++ b) c)
  unfolding on_login
  on_login-append a b c =
      bind-Extends (success_byte a) (success_byte (a ++ b)) _ _ (success_byte-append a b)
        (λ done. log_in-append done a b c)

  pub on_packet-append :
      (a b : List ℕ) (c : Client P)
      → header_size ≤ length a
      → Extends (on_packet P a c) (on_packet P (a ++ b) c)
  unfolding on_packet
  on_packet-append a b c le =
      let id = (read_header a).id in
      rw (read_header-append a b le) (
        if-Extends (id == id_number s_login) _ _ _ _ (on_login-append a b c) (
          if-Extends (id == id_number s_die) _ _ _ _ (on_die-append a b c) (
            if-Extends (id == id_number s_spawn) _ _ _ _ (on_spawn-append a b c) (
              if-Extends (id == id_number s_respawn) _ _ _ _ (on_spawn-append a b c) (
                if-Extends (id == id_number s_chat) _ _ _ _ (on_chat-append a b c)
                  (same-Extends (some c)))))))
