-- ===== src/Platform.antt =====
-- What World, Player and PacketHandler (MMO/Server/Game, MMO/Server/Core/PacketHandler.cpp) take from
-- elsewhere: the `float` arithmetic of the machine, and members of Session and World that the sources
-- call but MMO/Server/Network/Include/Session.h and MMO/Server/Game/World.h do not declare (GetPlayer,
-- SetPlayer, SetPlayerId, UpdateLastTick, GetLastTick, GetGeneration; VISION_RANGE and the ranges of
-- the attacks). They are the fields of `Platform`, with what the code relies on as laws.
use mmorpg_server.Base.{ℕ, ◌≡◌, Bool, true, false, Option, some}
use mmorpg_server.Base.Int.{ℤ}

-- enum class PlayerState.
pub data PlayerState : Type 0 where
  none connected logged_in lobby game : PlayerState

-- The members of class Session that the game uses; `ext` holds the undeclared ones. A socket is
-- `none` if it is INVALID_SOCKET.
pub record Session (F E : Type 0) : Type 0 where
  pub socket : Option ℕ
  pub state : PlayerState
  pub player_id : ℤ
  pub x : F
  pub y : F
  pub ext : E

pub record Platform : Type 1 where
  pub Float : Type 0
  -- `(float)n`, `(int)x`, and the arithmetic of CalculateDistance.
  pub of_int : ℤ → Float
  pub to_int : Float → ℤ
  -- The float with the given bits.
  pub of_bits : ℕ → Float
  pub sub : Float → Float → Float
  pub hypotenuse : Float → Float → Float
  -- `a < b` and `a <= b`, which are false if either is not a number.
  pub lt : Float → Float → Bool
  pub le : Float → Float → Bool
  pub lt-not_le : (a b : Float) → lt a b ≡ true → le b a ≡ false
  pub le-not_lt : (a b : Float) → le a b ≡ true → lt b a ≡ false
  -- The undeclared members. A `Player*` is an address.
  pub Ext : Type 0
  pub get_player : Ext → Option ℕ
  pub set_player : ℕ → Ext → Ext
  pub get_player-set_player : (p : ℕ) (e : Ext) → get_player (set_player p e) ≡ some p
  pub get_last_tick : Ext → ℕ
  pub update_last_tick : ℕ → Ext → Ext
  pub get_last_tick-update : (t : ℕ) (e : Ext) → get_last_tick (update_last_tick t e) ≡ t
  pub get_player-update : (t : ℕ) (e : Ext) → get_player (update_last_tick t e) ≡ get_player e
  pub set_player_id : ℤ → Session Float Ext → Session Float Ext
  pub set_player_id_lem :
      (i : ℤ) (s : Session Float Ext) → set_player_id i s ≡ record s { player_id = i }
  pub get_generation : Ext → ℕ
  pub vision_range : ℕ
  pub attack_range_mel : Float
  pub attack_range_radial : Float
