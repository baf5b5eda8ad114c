-- ===== src/Handler/Relogin.antt =====
-- A packet with the id of a login reply (Handle_S_LOGIN of MMO/Server/Core/PacketHandler.cpp).
use mmorpg_server.Base.{ℕ, ◌≡◌, refl, ap, true, none, some, List, arith, ==_refl}
use mmorpg_server.Base.Int.{ℤ}
use mmorpg_server.Grid.Vision.{sees}
use mmorpg_server.Grid.Position.{grid_coordinate-valid, sees_self}
use mmorpg_server.Platform.{Platform, Session, lobby}
use mmorpg_server.Protocol.{PacketHeader, s_login, id_number, struct_size}
use mmorpg_server.Game.{Game, login, map_find, send}
use mmorpg_server.World.{center, get_grid_pos}
use mmorpg_server.World.Subscribed.{IsSubscribed, in_game}
use mmorpg_server.Handler.{
  handle_s_login, handle_packet, touch, set_state, update_session, copy_bytes, login_succeeded,
  read_word, to_int32,
}

-- A payload that reads as a successful reply for a player id.
pub record IsReply (buffer packet : List ℕ) (id : ℤ) : Type 0 where
  pub bits : ℕ
  pub copied : copy_bytes (struct_size s_login) buffer ≡ some packet
  pub success : login_succeeded packet ≡ true
  pub id_bits : read_word packet 41 ≡ some bits
  pub id_value : to_int32 bits ≡ id

module _ (P : Platform) where
  center-valid : (g : Game P) (a : ℕ) → sees P.vision_range (center P g a) (center P g a) ≡ true
  unfolding get_grid_pos
  center-valid g a = sees_self P.vision_range (center P g a) (grid_coordinate-valid _ _)

  abbrev pub after_reply : ℕ → ℕ → List ℕ → ℤ → Game P → Game P
  after_reply now a packet id g = touch P now a (
      set_state P lobby a
        (update_session P a (P.set_player_id id (g.heap a)) (send P a (login packet) g)))

  reply_result :
      (now a : ℕ) {buffer packet : List ℕ} {id : ℤ} (g : Game P)
      → IsReply buffer packet id
      → handle_s_login P now a buffer g ≡ some (after_reply now a packet id g)
  unfolding handle_s_login
  reply_result now a {buffer} {packet} {id} g r =
      rw (r.copied, handle_s_login)
        (rw (r.id_bits, handle_s_login) (rw (r.success, r.id_value, handle_s_login) refl))

  pub id_after :
      (now a : ℕ) (packet : List ℕ) (id : ℤ) (g : Game P)
      → ((after_reply now a packet id g).heap a).player_id ≡ id
  id_after now a packet id g =
      rw (==_refl a)
        (ap (λ (s : Session P.Float P.Ext). s.player_id) (P.set_player_id_lem id (g.heap a)))

  -- The session is in no cell by the invariant, and still in the cell of its position.
  lost :
      (now a : ℕ) (packet : List ℕ) (id : ℤ) (g : Game P)
      → IsSubscribed P g
      → in_game P g a ≡ true
      → map_find id g.sessions ≡ none
      → ¬ IsSubscribed P (after_reply now a packet id g)
  unfolding send
  lost now a packet id g inv here fresh inv' =
      let c = center P g a in
      ground (arith, inv' a c, inv a c, id_after now a packet id g, center-valid g a)

  -- A packet with the id of a login reply, from whomever it comes and whatever state its session is in,
  -- makes the session a logged-in one of the lobby under the player id that the packet names.
  pub handle_packet_reply :
      (now rand_x rand_y a : ℕ) (header : PacketHeader) {buffer packet : List ℕ} {id : ℤ}
      (g : Game P)
      → header.id ≡ id_number s_login
      → IsReply buffer packet id
      → (g' : Game P) × (handle_packet P now rand_x rand_y a header (some buffer) g ≡ some g')
        × ((g'.heap a).state ≡ lobby)
        × ((g'.heap a).player_id ≡ id)
  unfolding handle_packet id_number
  handle_packet_reply now rand_x rand_y a header {buffer} {packet} {id} g e r =
      let g' = after_reply now a packet id g in
      (g', rw e (reply_result now a g r), rw (==_refl a) refl, id_after now a packet id g)

  -- A session of the game that such a packet gives an id which the map does not hold stays in its cells
  -- without being in the game: the subscription invariant is lost.
  pub handle_packet_reply_breaks :
      (now rand_x rand_y a : ℕ) (header : PacketHeader) {buffer packet : List ℕ} {id : ℤ}
      (g : Game P)
      → header.id ≡ id_number s_login
      → IsReply buffer packet id
      → IsSubscribed P g
      → in_game P g a ≡ true
      → map_find id g.sessions ≡ none
      → (g' : Game P) × (handle_packet P now rand_x rand_y a header (some buffer) g ≡ some g')
        × ¬ IsSubscribed P g'
  unfolding handle_packet id_number
  handle_packet_reply_breaks now rand_x rand_y a header {buffer} {packet} {id} g e r inv here
        fresh =
      let g' = after_reply now a packet id g in
      (g', rw e (reply_result now a g r), lost now a packet id g inv here fresh)
