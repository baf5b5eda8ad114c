-- ===== src/Handler.antt =====
-- PacketHandler (MMO/Server/Core/PacketHandler.h, PacketHandler.cpp). A handler returns `none` where the
-- code reads past the end of the payload, which is undefined behaviour. The clock is an argument.
pub mod Frame
pub mod Keeps
pub mod Closed
pub mod Placed
pub mod Relogin
pub mod Reads
use mmorpg_server.Base.{
  ℕ, zero, suc, ◌+◌, ◌-◌, ◌*◌, ◌^◌, Bool, true, false, not, ◌&&◌, ◌||◌, Option, none, some, List,
  [], ◌∷◌, ◌++◌, ◌==◌, ltb, if◌then◌else◌, length, take, drop,
}
use mmorpg_server.Base.Int.{ℤ, pos, negsuc, leb_ℤ, eqb_ℤ}
use mmorpg_server.Grid.{map_size}
use mmorpg_server.Protocol.{
  PacketHeader, PacketId, c_login, s_login, c_move, c_enter_game, c_attack, c_chat, c_logout,
  id_number, struct_size,
}
use mmorpg_server.Platform.{Platform, Session, PlayerState, lobby, game}
use mmorpg_server.Game.{Game, Player, LoginQuery, Message, attack, chat, login, set_at, send}
use mmorpg_server.World.{
  others, center, enter_game, handle_move, broadcast_packet_to_observers, broadcast_to_all,
  find_session, calculate_distance,
}
use mmorpg_server.Player.{on_damaged}

-- Four little-endian bytes at an offset.
unfoldable pub word_of : List ℕ → Option ℕ
word_of (a ∷ b ∷ c ∷ d ∷ rest) = some (a + 256 * b + 65536 * c + 16777216 * d)
word_of _ = none

unfoldable pub read_word : List ℕ → ℕ → Option ℕ
read_word buffer offset = word_of (drop offset buffer)

-- The bits of an `int32_t`.
unfoldable pub to_int32 : ℕ → ℤ
to_int32 n = if ltb n (2 ^ 31) then pos n else negsuc (2 ^ 32 - 1 - n)

-- The bytes of a C string, up to its zero; `none` if there is no zero in the buffer.
unfoldable pub c_string : List ℕ → Option (List ℕ)
c_string [] = none
c_string (b ∷ bs) =
    let rest = c_string bs in
    if b == 0 then some [] else elim rest [ none ↦ none | some s ↦ some (b ∷ s) ]

-- memcpy of `n` bytes out of the buffer.
unfoldable pub copy_bytes : ℕ → List ℕ → Option (List ℕ)
copy_bytes n buffer = if ltb (length buffer) n then none else some (take n buffer)

abbrev pub is_empty : List ℕ → Bool
is_empty [] = true
is_empty (b ∷ bs) = false

abbrev pub is_state : PlayerState → PlayerState → Bool
is_state PlayerState.none PlayerState.none = true
is_state PlayerState.connected PlayerState.connected = true
is_state PlayerState.logged_in PlayerState.logged_in = true
is_state PlayerState.lobby PlayerState.lobby = true
is_state PlayerState.game PlayerState.game = true
is_state _ _ = false

-- What a login reply says: the byte behind the header, and the player id in its last four bytes.
unfoldable pub login_succeeded : List ℕ → Bool
login_succeeded packet = elim (drop 4 packet) [ [] ↦ false | b ∷ bs ↦ not (b == 0) ]

infixl 5 ◌>>=◌
abbrev pub ◌>>=◌ {ℓ κ} : {A : Type ℓ} {B : Type κ} → Option A → (A → Option B) → Option B
none >>= f = none
some a >>= f = f a

module _ (P : Platform) where
  open P use {Float, Ext, get_player, update_last_tick}

  abbrev pub update_session : ℕ → Session Float Ext → Game P → Game P
  update_session a s g = record g { heap = set_at g.heap a s }

  -- Session::UpdateLastTick.
  abbrev pub touch : ℕ → ℕ → Game P → Game P
  touch now a g =
      let s = g.heap a in update_session a (record s { ext = update_last_tick now s.ext }) g

  -- Session::SetState.
  abbrev pub set_state : PlayerState → ℕ → Game P → Game P
  set_state state a g = update_session a (record (g.heap a) { state = state }) g

  -- The password stands 32 bytes into the buffer.
  unfoldable pub handle_c_login : ℕ → ℕ → List ℕ → Game P → Option (Game P)
  handle_c_login now a buffer g = do
    user_id ← c_string buffer
    user_pw ← c_string (drop 32 buffer)
    let g' = touch now a g
    let query : LoginQuery = record {
      session = a;
      expected_gen = P.get_generation (g'.heap a).ext;
      user_id = user_id;
      user_pw = user_pw;
    }
    some (if is_empty user_id then g else record g' { queries = g.queries ++ (query ∷ []) })

  -- `x >= 0 && x < MAP_SIZE && y >= 0 && y < MAP_SIZE`.
  unfoldable pub on_map : Float → Float → Bool
  on_map x y =
      P.le (P.of_int (pos 0)) x
      && (P.lt x (P.of_int (pos map_size))
          && (P.le (P.of_int (pos 0)) y && P.lt y (P.of_int (pos map_size))))

  -- The player that may act: one that is there and has hit points left.
  unfoldable pub acting_player : ℕ → Game P → Option ℕ
  acting_player a g = elim (get_player (g.heap a).ext) [
    | none ↦ none
    | some player ↦ if leb_ℤ (g.players player).hp (pos 0) then none else some player
  ]

  unfoldable pub handle_c_move : ℕ → List ℕ → Game P → Option (Game P)
  handle_c_move a buffer g = do
    x_bits ← read_word buffer 0
    y_bits ← read_word buffer 4
    let x = P.of_bits x_bits
    let y = P.of_bits y_bits
    some (elim (acting_player a g) [
      | none ↦ g
      | some player ↦ if not (on_map x y) then g else handle_move P a x y g
    ])

  unfoldable pub handle_c_enter_game : ℕ → ℕ → ℕ → ℕ → Game P → Game P
  handle_c_enter_game now rand_x rand_y a g =
      if not (is_state (g.heap a).state lobby)
      then g
      else enter_game P a rand_x rand_y (touch now a (set_state game a g))

  unfoldable pub handle_s_login : ℕ → ℕ → List ℕ → Game P → Option (Game P)
  handle_s_login now a buffer g = do
    packet ← copy_bytes (struct_size s_login) buffer
    id_bits ← read_word packet 41
    let told = send P a (login packet) g
    some (
        if not (login_succeeded packet)
        then told
        else touch now a (
            set_state lobby a
              (update_session a (P.set_player_id (to_int32 id_bits) (g.heap a)) told)))

  -- GetPlayerId of a player: the id of its session, or 0 without one.
  unfoldable pub player_id_of : ℕ → Game P → ℤ
  player_id_of player g =
      let s = (g.players player).session in if s == 0 then pos 0 else (g.heap s).player_id

  -- Damage to the player of a target, and the broadcast from the attacker's session.
  unfoldable pub hit : ℕ → ℕ → ℕ → ℕ → ℤ → Game P → Game P
  unfolding player_id_of
  hit damage a attacker target target_id g = elim (get_player (g.heap target).ext) [
    | none ↦ g
    | some player ↦
        let hurt = on_damaged P player (pos damage) g in
        broadcast_packet_to_observers P a (attack (player_id_of attacker hurt) target_id) hurt
  ]

  unfoldable pub melee : ℕ → ℕ → ℤ → Game P → Game P
  melee a attacker target_id g =
      let target = find_session P target_id g in
      if target == 0
      then g
      else if P.lt P.attack_range_mel (calculate_distance P a target g)
      then g
      else hit 10 a attacker target target_id g

  -- The sessions of the cell within the range of the radial attack.
  unfoldable pub in_radius : ℕ → Game P → List ℕ → List ℕ
  in_radius a g [] = []
  in_radius a g (b ∷ bs) =
      if P.le (calculate_distance P a b g) P.attack_range_radial
      then b ∷ in_radius a g bs
      else in_radius a g bs

  unfoldable pub hit_each : ℕ → ℕ → List ℕ → Game P → Game P
  hit_each a attacker [] g = g
  hit_each a attacker (b ∷ bs) g =
      hit_each a attacker bs (hit 20 a attacker b (g.heap b).player_id g)

  unfoldable pub radial : ℕ → ℕ → Game P → Game P
  radial a attacker g = hit_each a attacker (in_radius a g (others a (g.grids (center P g a)))) g

  unfoldable pub handle_c_attack : ℕ → List ℕ → Game P → Option (Game P)
  handle_c_attack a buffer g = do
    type_bits ← read_word buffer 0
    id_bits ← read_word buffer 4
    let attack_type = to_int32 type_bits
    some (elim (acting_player a g) [
      | none ↦ g
      | some attacker ↦
          if eqb_ℤ attack_type (pos 0)
          then melee a attacker (to_int32 id_bits) g
          else if eqb_ℤ attack_type (pos 1)
          then radial a attacker g
          else g
    ])

  unfoldable pub handle_c_chat : ℕ → List ℕ → Game P → Option (Game P)
  handle_c_chat a buffer g = elim (get_player (g.heap a).ext) [
    | none ↦ some g
    | some player ↦ do
      printed ← c_string buffer
      text ← copy_bytes 128 buffer
      some (broadcast_to_all P (chat (player_id_of player g) text) g)
  ]

  unfoldable pub handle_c_logout : ℕ → Game P → Game P
  handle_c_logout a g = elim (get_player (g.heap a).ext) [
    | none ↦ g
    | some player ↦ elim (g.heap a).socket [
      | none ↦ g
      | some socket ↦ record g { closed = g.closed ++ (socket ∷ []) }
    ]
  ]

  -- HandlePacket: `buffer` is `none` for a null pointer. `rand()` gives the place of an entering player.
  unfoldable pub handle_packet :
      ℕ → ℕ → ℕ → ℕ → PacketHeader → Option (List ℕ) → Game P → Option (Game P)
  handle_packet now rand_x rand_y a header none g =
      if header.id == id_number c_enter_game
      then some (handle_c_enter_game now rand_x rand_y a g)
      else some g
  handle_packet now rand_x rand_y a header (some buffer) g =
      if header.id == id_number c_login
      then handle_c_login now a buffer g
      else if header.id == id_number s_login
      then handle_s_login now a buffer g
      else if header.id == id_number c_move
      then handle_c_move a buffer g
      else if header.id == id_number c_enter_game
      then some (handle_c_enter_game now rand_x rand_y a g)
      else if header.id == id_number c_attack
      then handle_c_attack a buffer g
      else if header.id == id_number c_chat
      then handle_c_chat a buffer g
      else if header.id == id_number c_logout
      then some (handle_c_logout a g)
      else some g
