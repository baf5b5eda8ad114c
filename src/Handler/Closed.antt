-- ===== src/Handler/Closed.antt =====
-- What every packet keeps (MMO/Server/Core/PacketHandler.cpp): a property of the game that holds over
-- what the handlers are made of.
use mmorpg_server.Base.{
  ℕ, ◌≡◌, refl, ap, Bool, true, false, not, Option, none, some, List, drop, ◌==◌, if◌then◌else◌,
  Bool-cases, Option-cases, inl, inr,
}
use mmorpg_server.Base.Int.{ℤ, pos, eqb_ℤ}
use mmorpg_server.Protocol.{
  PacketHeader, c_login, s_login, c_move, c_enter_game, c_attack, c_chat, c_logout, id_number,
  struct_size,
}
use mmorpg_server.Platform.{Platform, Session, lobby, game}
use mmorpg_server.Game.{Game, chat, login, send}
use mmorpg_server.World.{enter_game, handle_move, broadcast_to_all}
use mmorpg_server.World.Subscribed.{SameWorld}
use mmorpg_server.Handler.{
  on_map, acting_player, handle_c_login, handle_c_move, handle_c_enter_game, handle_s_login,
  handle_c_attack, handle_c_chat, handle_c_logout, handle_packet, melee, radial, touch, set_state,
  update_session, is_state, player_id_of, read_word, to_int32, copy_bytes, c_string, is_empty,
  login_succeeded, ◌>>=◌,
}
use mmorpg_server.Handler.Frame.{melee-SameWorld, radial-SameWorld, broadcast_to_all-SameWorld}

module _ (P : Platform) where
  open P use {Float, Ext}

  -- A session with the same place and the same player.
  pub record SamePlace (s t : Session Float Ext) : Type 0 where
    pub same_x : s.x ≡ t.x
    pub same_y : s.y ≡ t.y
    pub same_player : P.get_player s.ext ≡ P.get_player t.ext

  -- A property that holds over what the handlers do: to the world, to members of a session other than its
  -- place and player, by EnterGame, and by HandleMove to a place on the map.
  pub record IsClosed (Q : Game P → Type 0) : Type 0 where
    pub framed : (g h : Game P) → SameWorld P g h → Q h → Q g
    pub updated :
        (a : ℕ) (s : Session Float Ext) (g : Game P)
        → SamePlace s (g.heap a)
        → Q g
        → Q (update_session P a s g)
    pub entered : (a rand_x rand_y : ℕ) (g : Game P) → Q g → Q (enter_game P a rand_x rand_y g)
    pub moved :
        (a : ℕ) (x y : Float) (g : Game P) → on_map P x y ≡ true → Q g → Q (handle_move P a x y g)

  abbrev pub AfterPacket : (Game P → Type 0) → Option (Game P) → Type 0
  AfterPacket Q none = Unit
  AfterPacket Q (some g) = Q g

  module _ (Q : Game P → Type 0) (C : IsClosed Q) where
    after_bind :
        {A : Type 0} (o : Option A) (f : A → Option (Game P))
        → ((x : A) → AfterPacket Q (f x))
        → AfterPacket Q (o >>= f)
    after_bind none f h = tt
    after_bind (some x) f h = h x

    after_if :
        (b : Bool) (x y : Option (Game P))
        → AfterPacket Q x
        → AfterPacket Q y
        → AfterPacket Q (if b then x else y)
    after_if true x y h k = h
    after_if false x y h k = k

    either :
        (b : Bool) (g h : Game P) → (b ≡ true → Q g) → (b ≡ false → Q h) → Q (if b then g else h)
    either true g h k l = k refl
    either false g h k l = l refl

    touched : (now a : ℕ) (g : Game P) → Q g → Q (touch P now a g)
    touched now a g q =
        C.updated a _ g
          (record {
            same_x = refl;
            same_y = refl;
            same_player = P.get_player-update now (g.heap a).ext;
          })
          q

    handle_c_login-Closed :
        (now a : ℕ) (buffer : List ℕ) (g : Game P)
        → Q g
        → AfterPacket Q (handle_c_login P now a buffer g)
    unfolding handle_c_login
    handle_c_login-Closed now a buffer g q = after_bind (c_string buffer) _ (λ user_id.
        after_bind (c_string (drop 32 buffer)) _ (λ user_pw.
          either (is_empty user_id) g _ (λ e. q)
            (λ e. C.framed _ (touch P now a g) (refl, refl, refl) (touched now a g q))))

    handle_c_move-Closed :
        (a : ℕ) (buffer : List ℕ) (g : Game P) → Q g → AfterPacket Q (handle_c_move P a buffer g)
    unfolding handle_c_move
    handle_c_move-Closed a buffer g q = after_bind (read_word buffer 0) _ (λ x_bits.
        after_bind (read_word buffer 4) _
          (λ y_bits. acting (P.of_bits x_bits) (P.of_bits y_bits) (acting_player P a g)))
      where
        acting :
            (x y : Float) (o : Option ℕ)
            → Q (elim o [
              | none ↦ g
              | some player ↦ if not (on_map P x y) then g else handle_move P a x y g
            ])
        acting x y none = q
        acting x y (some player) = elim (Bool-cases (on_map P x y)) [
          | inl on ↦ rw on (C.moved a x y g on q)
          | inr off ↦ rw off q
        ]

    handle_c_enter_game-Closed :
        (now rand_x rand_y a : ℕ) (g : Game P)
        → Q g
        → Q (handle_c_enter_game P now rand_x rand_y a g)
    unfolding handle_c_enter_game
    handle_c_enter_game-Closed now rand_x rand_y a g q =
        let ready = set_state P game a g in
        either (not (is_state (g.heap a).state lobby)) g _ (λ e. q)
          (λ e. C.entered a rand_x rand_y (touch P now a ready) (
            touched now a ready
              (C.updated a _ g (record { same_x = refl; same_y = refl; same_player = refl }) q)))

    handle_s_login-Closed :
        (now a : ℕ) (buffer : List ℕ) (g : Game P)
        → Q g
        → AfterPacket Q (handle_s_login P now a buffer g)
    unfolding handle_s_login send
    handle_s_login-Closed now a buffer g q =
        after_bind (copy_bytes (struct_size s_login) buffer) _ (λ packet.
          after_bind (read_word packet 41) _ (λ bits.
            let told = send P a (login packet) g in
            either (not (login_succeeded packet)) told _ (λ e. framed_send packet)
              (λ e. named packet bits)))
      where
        framed_send : (packet : List ℕ) → Q (send P a (login packet) g)
        framed_send packet = C.framed (send P a (login packet) g) g (refl, refl, refl) q

        named :
            (packet : List ℕ) (bits : ℕ)
            → Q (
                touch P now a (
                  set_state P lobby a (
                    update_session P a
                      (P.set_player_id (to_int32 bits) (g.heap a))
                      (send P a (login packet) g))))
        named packet bits =
            let told : Game P = send P a (login packet) g in
            let e = P.set_player_id_lem (to_int32 bits) (g.heap a) in
            let known : Game P =
              update_session P a (P.set_player_id (to_int32 bits) (g.heap a)) told in
            touched now a (set_state P lobby a known) (
              C.updated a _ known (record { same_x = refl; same_y = refl; same_player = refl })
                (C.updated a (P.set_player_id (to_int32 bits) (g.heap a)) told
                  (record {
                    same_x = ap (λ (s : Session Float Ext). s.x) e;
                    same_y = ap (λ (s : Session Float Ext). s.y) e;
                    same_player = ap (λ (s : Session Float Ext). P.get_player s.ext) e;
                  })
                  (framed_send packet)))

    handle_c_attack-Closed :
        (a : ℕ) (buffer : List ℕ) (g : Game P) → Q g → AfterPacket Q (handle_c_attack P a buffer g)
    unfolding handle_c_attack
    handle_c_attack-Closed a buffer g q = after_bind (read_word buffer 0) _ (λ type_bits.
        after_bind (read_word buffer 4) _
          (λ id_bits. acting (to_int32 type_bits) (to_int32 id_bits) (acting_player P a g)))
      where
        acting :
            (kind id : ℤ) (o : Option ℕ)
            → Q (elim o [
              | none ↦ g
              | some attacker ↦
                  if eqb_ℤ kind (pos 0)
                  then melee P a attacker id g
                  else if eqb_ℤ kind (pos 1)
                  then radial P a attacker g
                  else g
            ])
        acting kind id none = q
        acting kind id (some attacker) =
            either (eqb_ℤ kind (pos 0)) (melee P a attacker id g) _
              (λ e. C.framed _ g (melee-SameWorld P a attacker id g) q)
              (λ ne.
                either (eqb_ℤ kind (pos 1)) (radial P a attacker g) g
                  (λ e. C.framed _ g (radial-SameWorld P a attacker g) q) (λ e. q))

    handle_c_chat-Closed :
        (a : ℕ) (buffer : List ℕ) (g : Game P) → Q g → AfterPacket Q (handle_c_chat P a buffer g)
    unfolding handle_c_chat
    handle_c_chat-Closed a buffer g q = chatting (P.get_player (g.heap a).ext)
      where
        chatting :
            (o : Option ℕ)
            → AfterPacket Q (elim o [
              | none ↦ some g
              | some player ↦ c_string buffer >>= (λ printed.
                  copy_bytes 128 buffer
                  >>= (λ text. some (broadcast_to_all P (chat (player_id_of P player g) text) g)))
            ])
        chatting none = q
        chatting (some player) = after_bind (c_string buffer) _ (λ printed.
            after_bind (copy_bytes 128 buffer) _ (λ text.
              C.framed _ g (broadcast_to_all-SameWorld P (chat (player_id_of P player g) text) g)
                q))

    handle_c_logout-Closed : (a : ℕ) (g : Game P) → Q g → Q (handle_c_logout P a g)
    unfolding handle_c_logout
    handle_c_logout-Closed a g q = elim (Option-cases (P.get_player (g.heap a).ext)) [
      | inl e ↦ rw (e, handle_c_logout) q
      | inr (player, ep) ↦ elim (Option-cases (g.heap a).socket) [
        | inl e ↦ rw (ep, e, handle_c_logout) q
        | inr (socket, e) ↦ rw (ep, e, handle_c_logout) (C.framed _ g (refl, refl, refl) q)
      ]
    ]

    -- Any packet, with any payload and from a session in any state, keeps a closed property.
    pub handle_packet-Closed :
        (now rand_x rand_y a : ℕ) (header : PacketHeader) (buffer : Option (List ℕ)) (g : Game P)
        → Q g
        → AfterPacket Q (handle_packet P now rand_x rand_y a header buffer g)
    unfolding handle_packet
    handle_packet-Closed now rand_x rand_y a header none g q =
        after_if (header.id == id_number c_enter_game) _ _
          (handle_c_enter_game-Closed now rand_x rand_y a g q) q
    handle_packet-Closed now rand_x rand_y a header (some buffer) g q =
        after_if (header.id == id_number c_login) _ _ (handle_c_login-Closed now a buffer g q) (
          after_if (header.id == id_number s_login) _ _ (handle_s_login-Closed now a buffer g q) (
            after_if (header.id == id_number c_move) _ _ (handle_c_move-Closed a buffer g q) (
              after_if (header.id == id_number c_enter_game) _ _
                (handle_c_enter_game-Closed now rand_x rand_y a g q)
                (after_if (header.id == id_number c_attack) _ _
                  (handle_c_attack-Closed a buffer g q)
                  (after_if (header.id == id_number c_chat) _ _ (handle_c_chat-Closed a buffer g q)
                    (after_if (header.id == id_number c_logout) _ _ (handle_c_logout-Closed a g q)
                      q))))))
