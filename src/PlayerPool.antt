-- ===== src/PlayerPool.antt =====
-- PlayerManager (MMO/Server/PlayerManager.h), a pool of players. A player and a session are named by their
-- addresses; `new Player` gives the next address of a sequence, and 0 is the null pointer.
pub mod Held
use mmorpg_server.Base.{ℕ, zero, suc, Bool, true, false, List, [], ◌∷◌, ◌==◌, if◌then◌else◌}
use mmorpg_server.Base.Int.{pos}
use mmorpg_server.Game.{Player, set_at}
use mmorpg_server.Player.{reset}

-- m_PlayerPool, its back first; what the addresses hold; and the next address.
pub record PlayerManager : Type 0 where
  pub player_pool : List ℕ
  pub players : ℕ → Player
  pub next : ℕ

-- `new Player(nullptr)`.
abbrev pub new_player : Player
new_player = record { hp = pos 100; max_hp = pos 100; session = 0 }

-- `for (int i = 0; i < 10; i++)`, for a number of rounds.
unfoldable pub fill_pool : ℕ → PlayerManager → PlayerManager
fill_pool zero m = m
fill_pool (suc count) m = fill_pool count (record {
  player_pool = m.next ∷ m.player_pool;
  players = set_at m.players m.next new_player;
  next = suc m.next;
})

-- Acquire, at the pool that it takes the player from; the pool is not empty then.
unfoldable pub acquire_player_from : List ℕ → ℕ → PlayerManager → ℕ × PlayerManager
acquire_player_from [] session m = (0, m)
acquire_player_from (player ∷ pool) session m = (
  player,
  record m {
    player_pool = pool;
    players = set_at m.players player (reset (record (m.players player) { session = session }));
  },
)

abbrev pub is_empty_pool : List ℕ → Bool
is_empty_pool [] = true
is_empty_pool (player ∷ pool) = false

unfoldable pub acquire_player : ℕ → PlayerManager → ℕ × PlayerManager
unfolding fill_pool acquire_player_from
acquire_player session m =
    let filled = if is_empty_pool m.player_pool then fill_pool 10 m else m in
    acquire_player_from filled.player_pool session filled

unfoldable pub release_player : ℕ → PlayerManager → PlayerManager
release_player player m = if player == 0 then m else record m {
  player_pool = player ∷ m.player_pool;
  players = set_at m.players player (record (m.players player) { session = 0 });
}
