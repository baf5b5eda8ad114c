-- ===== src/Game.antt =====
-- The state that World, Player and PacketHandler share (MMO/Server/Game/World.h, Player.h), and the
-- messages that they send.
pub mod Map
pub mod Sent
use mmorpg_server.Base.{
  ℕ, Bool, true, false, Option, none, some, List, [], ◌∷◌, ◌++◌, ◌==◌, if◌then◌else◌,
}
use mmorpg_server.Base.Int.{ℤ, pos, ltb_ℤ, eqb_ℤ}
use mmorpg_server.Grid.{Grids}
use mmorpg_server.TimeWheel.{TimeWheel}
use mmorpg_server.Platform.{Platform, Session}

-- class Player; `session` is its `m_session`.
pub record Player : Type 0 where
  pub hp : ℤ
  pub max_hp : ℤ
  pub session : ℕ

-- The packets that the server sends, by their fields (MMO/Server/Core/Protocol.h).
pub data Message (F : Type 0) : Type 0 where
  spawn : ℤ → F → F → Message F
  despawn : ℤ → Message F
  move : ℤ → F → F → Message F
  die : ℤ → Message F
  respawn : ℤ → F → F → Message F
  attack : ℤ → ℤ → Message F
  chat : ℤ → List ℕ → Message F
  login : List ℕ → Message F

-- What Player::Die leaves in the time wheel: the session, and the player id that it then had.
pub record RespawnTimer : Type 0 where
  pub session : ℕ
  pub expected_id : ℤ

-- What Handle_C_LOGIN hands to the database threads.
pub record LoginQuery : Type 0 where
  pub session : ℕ
  pub expected_gen : ℕ
  pub user_id : List ℕ
  pub user_pw : List ℕ

-- `heap` and `players` are what session and player pointers point to; address 0 is the null pointer.
-- `sent` are the calls of Session::Send, in order, `queries`
-- those of DBManager::PushQuery, and `closed` those of closesocket.
pub record Game (p : Platform) : Type 0 where
  pub heap : ℕ → Session p.Float p.Ext
  pub players : ℕ → Player
  pub next_player : ℕ
  pub grids : Grids
  pub sessions : List (ℤ × ℕ)
  pub wheel : TimeWheel RespawnTimer
  pub sent : List (ℕ × Message p.Float)
  pub queries : List LoginQuery
  pub closed : List ℕ

abbrev pub set_at {ℓ} : {A : Type ℓ} → (ℕ → A) → ℕ → A → ℕ → A
set_at f a v b = if a == b then v else f b

-- std::map<int32_t, Session*>, in ascending order of its keys.
unfoldable pub map_find : ℤ → List (ℤ × ℕ) → Option ℕ
map_find k [] = none
map_find k ((j, a) ∷ m) = if eqb_ℤ j k then some a else map_find k m

unfoldable pub map_set : ℤ → ℕ → List (ℤ × ℕ) → List (ℤ × ℕ)
map_set k a [] = (k, a) ∷ []
map_set k a ((j, b) ∷ m) =
    if ltb_ℤ k j
    then (k, a) ∷ (j, b) ∷ m
    else if eqb_ℤ j k
    then (j, a) ∷ m
    else (j, b) ∷ map_set k a m

unfoldable pub map_erase : ℤ → List (ℤ × ℕ) → List (ℤ × ℕ)
map_erase k [] = []
map_erase k ((j, b) ∷ m) = if eqb_ℤ j k then map_erase k m else (j, b) ∷ map_erase k m

module _ (p : Platform) where
  unfoldable pub send : ℕ → Message p.Float → Game p → Game p
  send target m g = record g { sent = g.sent ++ ((target, m) ∷ []) }

  unfoldable pub send_all : List ℕ → Message p.Float → Game p → Game p
  unfolding send
  send_all [] m g = g
  send_all (t ∷ ts) m g = send_all ts m (send t m g)
