-- ===== src/Round/Fair.antt =====
-- What a job of a logic thread may find (MMO/Server/Core/LogicManager.h) keeps of the world.
use mmorpg_server.Base.{
  Bool, true, ℕ, ◌≡◌, ◌≢◌, ◌⊎◌, ap, ◌∙◌, false, Option, none, some, List, [], ◌∷◌, arith, ◌==◌,
  ==_iff, Bool-cases, Option-cases, inl, inr,
}
use mmorpg_server.Base.Int.{ℤ}
use mmorpg_server.Protocol.{PacketHeader, s_login, id_number, struct_size}
use mmorpg_server.Logic.{Job}
use mmorpg_server.Platform.{Platform}
use mmorpg_server.Game.{Game, login, map_find, send}
use mmorpg_server.World.Subscribed.{IsSubscribed, holds, in_game}
use mmorpg_server.Handler.{
  handle_packet, handle_s_login, copy_bytes, read_word, login_succeeded, to_int32,
}
use mmorpg_server.Handler.Keeps.{IsOrderly, handle_packet-IsSubscribed}
use mmorpg_server.Handler.Relogin.{after_reply, id_after}
use mmorpg_server.Round.{Moment, data_of}

module _ (P : Platform) where
  -- A login reply for a session that is not in the game, under an id that the map does not hold.
  pub record IsFresh (a : ℕ) (bytes : List ℕ) (g : Game P) : Type 0 where
    pub outside : in_game P g a ≡ false
    pub unused :
        (packet : List ℕ) (bits : ℕ)
        → copy_bytes (struct_size s_login) bytes ≡ some packet
        → read_word packet 41 ≡ some bits
        → map_find (to_int32 bits) g.sessions ≡ none

  outside_self :
      (now a : ℕ) (packet : List ℕ) (id : ℤ) (g : Game P)
      → map_find id g.sessions ≡ none
      → in_game P (after_reply P now a packet id g) a ≡ false
  unfolding send
  outside_self now a packet id g unused =
      ap (λ i. holds P (map_find i g.sessions) a) (id_after P now a packet id g)
      ∙ ap (λ o. holds P o a) unused

  after_reply-IsSubscribed :
      (now a : ℕ) (packet : List ℕ) (id : ℤ) (g : Game P)
      → in_game P g a ≡ false
      → map_find id g.sessions ≡ none
      → IsSubscribed P g
      → IsSubscribed P (after_reply P now a packet id g)
  unfolding send
  after_reply-IsSubscribed now a packet id g outside unused inv b q = elim (Bool-cases (a == b)) [
    | inl same ↦
        rw (← (==_iff a b).0 same)
          (ground (arith, inv a q, outside, outside_self now a packet id g unused))
    | inr other ↦ rw other (inv b q)
  ]

  abbrev pub Keeps : Option (Game P) → Type 0
  Keeps none = Unit {0}
  Keeps (some g) = IsSubscribed P g

  send-IsSubscribed :
      (a : ℕ) (packet : List ℕ) (g : Game P)
      → IsSubscribed P g
      → IsSubscribed P (send P a (login packet) g)
  unfolding send
  send-IsSubscribed a packet g inv = inv

  reply-Keeps :
      (now a : ℕ) (buffer : List ℕ) (g : Game P)
      → IsSubscribed P g
      → IsFresh a buffer g
      → Keeps (handle_s_login P now a buffer g)
  unfolding handle_s_login
  reply-Keeps now a buffer g inv fresh =
      elim (Option-cases (copy_bytes (struct_size s_login) buffer)) [
        | inl short ↦ rw (short, handle_s_login) tt
        | inr (packet, copied) ↦ elim (Option-cases (read_word packet 41)) [
          | inl short ↦ rw (copied, handle_s_login) (rw (short, handle_s_login) tt)
          | inr (bits, id_read) ↦ elim (Bool-cases (login_succeeded packet)) [
            | inl done ↦
                rw (copied, handle_s_login)
                  (rw (id_read, handle_s_login)
                    (rw (done, handle_s_login)
                      (after_reply-IsSubscribed now a packet (to_int32 bits) g fresh.outside
                        (fresh.unused packet bits copied id_read) inv)))
            | inr refused ↦
                rw (copied, handle_s_login)
                  (rw (id_read, handle_s_login)
                    (rw (refused, handle_s_login) (send-IsSubscribed a packet g inv)))
          ]
        ]
      ]

  -- What a job may find when its turn comes: its session orderly, or, for a login reply, outside the
  -- game and named by an id that the map does not hold.
  abbrev pub IsFair : Job → Game P → Type 0
  IsFair job g =
      ((job.header.id ≢ id_number s_login) × IsOrderly P job.session g)
      ⊎ ((job.header.id ≡ id_number s_login) × IsFresh job.session job.payload g)

  fresh_packet-Keeps :
      (now rand_x rand_y a : ℕ) (header : PacketHeader) (empty_data : Bool) (payload : List ℕ)
      (g : Game P)
      → IsSubscribed P g
      → header.id ≡ id_number s_login
      → IsFresh a payload g
      → Keeps (handle_packet P now rand_x rand_y a header (data_of empty_data payload) g)
  unfolding handle_packet id_number
  fresh_packet-Keeps now rand_x rand_y a header false [] g inv e fresh = rw e inv
  fresh_packet-Keeps now rand_x rand_y a header true [] g inv e fresh =
      rw e (reply-Keeps now a [] g inv fresh)
  fresh_packet-Keeps now rand_x rand_y a header empty_data (byte ∷ bytes) g inv e fresh =
      rw e (reply-Keeps now a (byte ∷ bytes) g inv fresh)

  pub packet-Keeps :
      (at : Moment) (job : Job) (g : Game P)
      → IsSubscribed P g
      → IsFair job g
      → Keeps (
          handle_packet P at.now at.rand_x at.rand_y job.session job.header
            (data_of at.empty_data job.payload)
            g)
  packet-Keeps at job g inv (inl (ne, o)) =
      elim (Option-cases (
        handle_packet P at.now at.rand_x at.rand_y job.session job.header
          (data_of at.empty_data job.payload) g)) [
            | inl e ↦ rw e tt
            | inr (g', e) ↦ rw e (
                handle_packet-IsSubscribed P at.now at.rand_x at.rand_y job.session job.header
                  (data_of at.empty_data job.payload) g inv o ne e)
          ]
  packet-Keeps at job g inv (inr (e, fresh)) =
      fresh_packet-Keeps at.now at.rand_x at.rand_y job.session job.header at.empty_data job.payload
        g inv e fresh
