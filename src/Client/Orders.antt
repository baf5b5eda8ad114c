-- ===== src/Client/Orders.antt =====
-- What the client sends (MMO/Client/Main.cpp), as the server's handlers read it
-- (MMO/Server/Core/PacketHandler.cpp).
use mmorpg_server.Base.{
  ==_refl, subst, ℕ, zero, suc, ◌-◌, ◌%◌, ◌^◌, ◌<◌, ◌≡◌, ◌⊎◌, refl, sym, ap, ◌∙◌, true, false, none,
  some, List, [], ◌∷◌, ◌++◌, arith, ◌==◌, Bool-cases, inl, inr, length, take, drop, append_assoc,
  append-nil, get_or, replicate, drop-append_of_length,
}
use mmorpg_server.Protocol.{
  header_size, read_header, header_bytes, to_header, id_number, c_enter_game, c_attack, struct_size,
}
use mmorpg_server.Platform.{Platform, lobby, game}
use mmorpg_server.World.Entered.{enter_game_lem}
use mmorpg_server.World.Subscribed.{in_game}
use mmorpg_server.Game.{Game, LoginQuery}
use mmorpg_server.World.{enter_game}
use mmorpg_server.Handler.{
  set_state, is_state, word_of, read_word, c_string, handle_c_login, handle_packet,
  handle_c_enter_game, is_empty, touch,
}
use mmorpg_server.Login.{LoginReply, reply_bytes, granted, word_bytes, copy_truncated, until_zero}
use mmorpg_server.Login.Reply.{IsLaidOut, granted-read_word, length-copy_truncated}
use mmorpg_server.Client.{
  Client, has_id, success_byte, log_in, on_login, on_packet, send_bytes, login_packet,
  attack_packet, attack_step,
}

-- What an array of `size` bytes holds of a text.
abbrev pub shown : ℕ → List ℕ → List ℕ
shown size text = take (size - 1) (until_zero text)

abbrev pub AllNonzero : List ℕ → Type 0
AllNonzero [] = Unit
AllNonzero (b ∷ bs) = ((b == 0) ≡ false) × AllNonzero bs

until_zero-AllNonzero : (text : List ℕ) → AllNonzero (until_zero text)
unfolding until_zero
until_zero-AllNonzero [] = tt
until_zero-AllNonzero (b ∷ bs) = elim (Bool-cases (b == 0)) [
  | inl e ↦ rw e tt
  | inr e ↦ rw e (e, until_zero-AllNonzero bs)
]

take-AllNonzero : (n : ℕ) (bs : List ℕ) → AllNonzero bs → AllNonzero (take n bs)
take-AllNonzero zero bs h = tt
take-AllNonzero (suc n) [] h = tt
take-AllNonzero (suc n) (b ∷ bs) (e, h) = (e, take-AllNonzero n bs h)

c_string-append_zero : (bs rest : List ℕ) → AllNonzero bs → c_string (bs ++ (0 ∷ rest)) ≡ some bs
unfolding c_string
c_string-append_zero [] rest h = refl
c_string-append_zero (b ∷ bs) rest (e, h) = rw (e, c_string-append_zero bs rest h) refl

-- A text that was copied into an array is read back, as much of it as fits.
c_string-copy_truncated :
    (size : ℕ) (text old more : List ℕ)
    → c_string (copy_truncated size text old ++ more) ≡ some (shown size text)
unfolding copy_truncated
c_string-copy_truncated size text old more =
    let kept = shown size text in
    ap c_string (append_assoc kept (0 ∷ drop (suc (length kept)) old) more)
    ∙ c_string-append_zero kept (drop (suc (length kept)) old ++ more)
        (take-AllNonzero (size - 1) (until_zero text) (until_zero-AllNonzero text))

module _ (P : Platform) where
  abbrev pub login_query : ℕ → ℕ → List ℕ → List ℕ → Game P → LoginQuery
  login_query now a user_id user_pw g = record {
    session = a;
    expected_gen = P.get_generation ((touch P now a g).heap a).ext;
    user_id = user_id;
    user_pw = user_pw;
  }

  handle_c_login_reads :
      (now a : ℕ) (buffer user_id user_pw : List ℕ) (g : Game P)
      → c_string buffer ≡ some user_id
      → c_string (drop 32 buffer) ≡ some user_pw
      → is_empty user_id ≡ false
      → handle_c_login P now a buffer g
        ≡ some (record (touch P now a g) {
          queries = g.queries ++ (login_query now a user_id user_pw g ∷ []);
        })
  unfolding handle_c_login
  handle_c_login_reads now a buffer user_id user_pw g e f named =
      rw (e, handle_c_login) (rw (f, handle_c_login) (rw named refl))

  -- The server's handler takes from the client's login packet the user's name and password, as much of
  -- them as their fields hold; with a name that is not empty, it pushes the query for them.
  pub handle_packet-login_packet :
      (now rand_x rand_y a : ℕ) (user_id user_pw : List ℕ) (g : Game P)
      → is_empty (shown 32 user_id) ≡ false
      → let packet = login_packet P user_id user_pw in
        handle_packet P now rand_x rand_y a (read_header packet) (some (drop header_size packet)) g
        ≡ some (record (touch P now a g) {
          queries = g.queries ++ (login_query now a (shown 32 user_id) (shown 32 user_pw) g ∷ []);
        })
  unfolding handle_packet login_packet read_header header_bytes to_header id_number struct_size
  handle_packet-login_packet now rand_x rand_y a user_id user_pw g named =
      let id_bytes : List ℕ = copy_truncated 32 user_id (replicate 32 0) in
      let pw_bytes : List ℕ = copy_truncated 32 user_pw (replicate 32 0) in
      handle_c_login_reads now a (id_bytes ++ pw_bytes) (shown 32 user_id) (shown 32 user_pw) g
        (c_string-copy_truncated 32 user_id (replicate 32 0) pw_bytes)
        (ap c_string (
            drop-append_of_length 32 id_bytes pw_bytes
              (length-copy_truncated 32 user_id (replicate 32 0) (omega arith) refl)
            ∙ sym (append-nil pw_bytes))
          ∙ c_string-copy_truncated 32 user_pw (replicate 32 0) [])
        named

  entering :
      (now rand_x rand_y a : ℕ) (g : Game P)
      → (g.heap a).state ≡ lobby
      → let g' = handle_c_enter_game P now rand_x rand_y a g in
        ((g'.heap a).state ≡ game) × (in_game P g' a ≡ true)
  unfolding handle_c_enter_game
  entering now rand_x rand_y a g e =
      let ready : Game P = touch P now a (set_state P game a g) in
      let waits : is_state (g.heap a).state lobby ≡ true = ap (λ s. is_state s lobby) e in
      let enters : handle_c_enter_game P now rand_x rand_y a g
          ≡ enter_game P a rand_x rand_y ready =
        rw (waits, handle_c_enter_game) refl in
      let (state, inside) = enter_game_lem P a rand_x rand_y ready in
      let ready_state : (ready.heap a).state ≡ game = rw (==_refl a) refl in
      subst (λ (g' : Game P). ((g'.heap a).state ≡ game) × (in_game P g' a ≡ true)) (sym enters)
        (state ∙ ready_state, inside)

  -- A reply that grants a login with a player id: the client takes the id and answers with a packet. When
  -- the server handles it, for a session in the lobby, the session is then in the state of the game, and the
  -- map of sessions holds it under its player id.
  pub on_packet-granted :
      (stack : LoginReply) (id level : ℕ) (name : List ℕ) (c : Client P) (now rand_x rand_y a : ℕ)
      (g : Game P)
      → IsLaidOut stack
      → id < 2 ^ 32
      → (g.heap a).state ≡ lobby
      → let answer = header_bytes (to_header c_enter_game) in
        (on_packet P (reply_bytes (granted stack id level name)) c
          ≡ some (send_bytes P answer (record c { my_player_id = id })))
        × ((g' : Game P) × (handle_packet P now rand_x rand_y a (read_header answer) none g
              ≡ some g')
            × ((g'.heap a).state ≡ game)
            × (in_game P g' a ≡ true))
  unfolding on_packet on_login log_in read_header header_bytes to_header id_number success_byte
      reply_bytes handle_packet struct_size granted
  on_packet-granted stack id level name c now rand_x rand_y a g laid lt waits =
      let (state, inside) = entering now rand_x rand_y a g waits in
      (
        rw (granted-read_word stack id level name laid lt) refl,
        (handle_c_enter_game P now rand_x rand_y a g, refl, state, inside),
      )

  pub read_word-word_bytes :
      (n : ℕ) (rest : List ℕ) → n < 2 ^ 32 → read_word (word_bytes n ++ rest) 0 ≡ some n
  unfolding read_word word_of
  read_word-word_bytes n rest lt = ap some (omega (arith, lt))

  pub second_word : (m n : ℕ) → n < 2 ^ 32 → read_word (word_bytes m ++ word_bytes n) 4 ≡ some n
  unfolding read_word word_of
  second_word m n lt = ap some (omega (arith, lt))

  -- Ids in the range of 32 bits.
  abbrev pub AllBits : List ℕ → Type 0
  AllBits [] = Unit
  AllBits (n ∷ ns) = (n < 2 ^ 32) × AllBits ns

  get_or_known :
      (i : ℕ) (ns : List ℕ)
      → i < length ns
      → AllBits ns
      → (has_id (get_or ns i 0) ns ≡ true) × (get_or ns i 0 < 2 ^ 32)
  unfolding has_id
  get_or_known i [] lt h = absurd (omega (arith, lt))
  get_or_known zero (n ∷ ns) lt (fits, h) = (ground arith, fits)
  get_or_known (suc i) (n ∷ ns) lt (fits, h) =
      let (known, bound) = get_or_known i ns (omega (arith, lt)) h in (ground (arith, known), bound)

  -- A packet of the client that is an attack, as the server's handler reads it.
  pub record IsAttack (c : Client P) (packet : List ℕ) : Type 0 where
    pub attack_type : ℕ
    pub target : ℕ
    pub header : read_header packet ≡ to_header c_attack
    pub type_read : read_word (drop header_size packet) 0 ≡ some attack_type
    pub target_read : read_word (drop header_size packet) 4 ≡ some target
    pub choice :
        ((attack_type ≡ 0) × (has_id target c.nearby_players ≡ true))
        ⊎ ((attack_type ≡ 1) × (target ≡ 0))

  attack_packet-IsAttack :
      (c : Client P) (attack_type target : ℕ)
      → attack_type < 2
      → target < 2 ^ 32
      → ((attack_type ≡ 0) × (has_id target c.nearby_players ≡ true))
        ⊎ ((attack_type ≡ 1) × (target ≡ 0))
      → IsAttack c (attack_packet P attack_type target)
  unfolding attack_packet header_bytes to_header read_header id_number struct_size
  attack_packet-IsAttack c attack_type target small fits chosen = record {
    attack_type = attack_type;
    target = target;
    header = refl;
    type_read = read_word-word_bytes attack_type (word_bytes target) (omega (arith, small));
    target_read = second_word attack_type target fits;
    choice = chosen;
  }

  -- An attack round of the main loop, whatever rand() gives: it sends nothing, or one packet, which the
  -- server reads as a melee attack on a player of the list of players nearby, or as a radial attack on 0.
  pub attack_step_lem :
      (rand_chance rand_type rand_target : ℕ) (c : Client P)
      → AllBits c.nearby_players
      → (attack_step P rand_chance rand_type rand_target c ≡ c)
        ⊎ ((packet : List ℕ) × (attack_step P rand_chance rand_type rand_target c
              ≡ send_bytes P packet c)
            × IsAttack c packet)
  unfolding attack_step
  attack_step_lem rand_chance rand_type rand_target c bits =
      let ns = c.nearby_players in
      elim (Bool-cases (rand_chance % 5 == 0)) [
        | inr quiet ↦ inl (rw quiet refl)
        | inl strikes ↦ elim (Bool-cases (rand_type % 2 == 0)) [
          | inl melee ↦ elim (Bool-cases (length ns == 0)) [
            | inl alone ↦ inl (rw (strikes, melee, alone) refl)
            | inr crowd ↦
                let (known, fits) =
                  get_or_known (rand_target % length ns) ns (ground (arith, crowd)) bits in
                inr (
                  attack_packet P 0 (get_or ns (rand_target % length ns) 0),
                  rw (strikes, melee, crowd) refl,
                  attack_packet-IsAttack c 0 (get_or ns (rand_target % length ns) 0) (omega arith)
                      fits (inl (refl, known)),
                )
          ]
          | inr radial ↦ inr (
            attack_packet P (rand_type % 2) 0,
            rw (strikes, radial) refl,
            attack_packet-IsAttack c (rand_type % 2) 0 (omega arith) (omega arith)
                (inr (ground (arith, radial), refl)),
          )
        ]
      ]
